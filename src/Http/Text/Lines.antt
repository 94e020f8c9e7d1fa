-- ===== src/Http/Text/Lines.antt =====
-- The lines that HttpRequest::toString and HttpResponse::dump of libcocao/http/http.cc write, as fields.
use libcocao.Base.{
  ℕ, suc, ◌+◌, ◌≡◌, refl, sym, ap, ◌∙◌, inl, inr, Bool, true, false, not, ◌&&◌, List, [], ◌∷◌, ◌++◌,
  if◌then◌else◌, Bool-cases, length, All, ◌==◌, ◌≢◌, arith,
}
use mathlib.Core.List.{append_assoc}
use libcocao.Log.{codes}
use libcocao.Http.{◌<<◌, same_key, Headers}
use libcocao.Http.Text.{
  crlf, is_skipped, header_lines, response_lines, cookie_lines, connection_value, body_text,
}
use libcocao.Http.Text.Reader.{lines, NoCr, IsField}

-- The fields whose key passes.
unfoldable pub fields_with : (List ℕ → Bool) → Headers → Headers
fields_with test [] = []
fields_with test ((k, v) ∷ fields) =
    let rest = fields_with test fields in if test k then (k, v) ∷ rest else rest

pub cookie_fields : List (List ℕ) → Headers
cookie_fields [] = []
cookie_fields (c ∷ cookies) = (codes "Set-Cookie", c) ∷ cookie_fields cookies

pub connection_fields : Bool → Bool → Headers
connection_fields websocket close =
    if websocket
    then []
    else (codes "connection", if close then codes "close" else codes "keep-alive") ∷ []

pub body_fields : (ℕ → List ℕ) → List ℕ → Headers
body_fields show [] = []
body_fields show (c ∷ body) = (codes "content-length", show (length (c ∷ body))) ∷ []

-- How many fields have a key, in any case.
pub count : List ℕ → Headers → ℕ
count key [] = 0
count key ((k, v) ∷ fields) =
    let rest = count key fields in if same_key k key then suc rest else rest

pub count-append : (key : List ℕ) (a b : Headers) → count key (a ++ b) ≡ count key a + count key b
unfolding count
count-append key [] b = omega arith
count-append key ((k, v) ∷ a) b = elim (Bool-cases (same_key k key)) [
  | inl e ↦ rw (e, count) (omega (arith, count-append key a b))
  | inr e ↦ rw (e, count) (count-append key a b)
]

pub lines-append : (a b : Headers) → lines (a ++ b) ≡ lines a ++ lines b
unfolding lines
lines-append [] b = refl
lines-append ((k, v) ∷ a) b =
    ap (λ t. k ++ b':' ∷ b' ' ∷ (v ++ 13 ∷ 10 ∷ t)) (lines-append a b)
    ∙ ap (λ t. k ++ b':' ∷ b' ' ∷ t) (sym (append_assoc v (13 ∷ 10 ∷ lines a) (lines b)))
    ∙ sym (append_assoc k (b':' ∷ b' ' ∷ (v ++ 13 ∷ 10 ∷ lines a)) (lines b))

pub header_lines_fields :
    (websocket has_body : Bool) (headers : Headers)
    → header_lines websocket has_body headers
      ≡ lines (fields_with (λ k. not (is_skipped websocket has_body k)) headers)
unfolding header_lines lines fields_with
header_lines_fields websocket has_body [] = refl
header_lines_fields websocket has_body ((k, v) ∷ headers) =
    elim (Bool-cases (is_skipped websocket has_body k)) [
      | inl e ↦ rw (e, header_lines, fields_with) (header_lines_fields websocket has_body headers)
      | inr e ↦
          rw (e, header_lines, fields_with, lines)
            (ap (λ t. k ++ b':' ∷ b' ' ∷ (v ++ 13 ∷ 10 ∷ t))
              (header_lines_fields websocket has_body headers))
    ]

pub response_lines_fields :
    (websocket : Bool) (headers : Headers)
    → response_lines websocket headers
      ≡ lines (fields_with (λ k. not (not websocket && same_key k (codes "connection"))) headers)
unfolding response_lines lines fields_with
response_lines_fields websocket [] = refl
response_lines_fields websocket ((k, v) ∷ headers) =
    elim (Bool-cases (not websocket && same_key k (codes "connection"))) [
      | inl e ↦ rw (e, response_lines, fields_with) (response_lines_fields websocket headers)
      | inr e ↦
          rw (e, response_lines, fields_with, lines)
            (ap (λ t. k ++ b':' ∷ b' ' ∷ (v ++ 13 ∷ 10 ∷ t))
              (response_lines_fields websocket headers))
    ]

pub cookie_lines_fields :
    (cookies : List (List ℕ)) → cookie_lines cookies ≡ lines (cookie_fields cookies)
unfolding cookie_lines lines cookie_fields
cookie_lines_fields [] = refl
cookie_lines_fields (c ∷ cookies) =
    ap (λ t. codes "Set-Cookie: " ++ (c ++ 13 ∷ 10 ∷ t)) (cookie_lines_fields cookies)

pub connection_line :
    (websocket close : Bool)
    → (if websocket then [] else codes "connection: " << connection_value close << crlf)
      ≡ lines (connection_fields websocket close)
unfolding connection_fields lines connection_value
connection_line true close = refl
connection_line false close = refl

pub body_text_fields :
    (show : ℕ → List ℕ) (body : List ℕ)
    → body_text show body ≡ lines (body_fields show body) ++ 13 ∷ 10 ∷ body
unfolding body_text body_fields lines
body_text_fields show [] = refl
body_text_fields show (c ∷ body) =
    ap (λ t. codes "content-length: " ++ t)
      (sym (append_assoc (show (length (c ∷ body))) (13 ∷ 10 ∷ []) (13 ∷ 10 ∷ (c ∷ body))))

pub All-fields_with :
    (P : List ℕ × List ℕ → Type 0) (test : List ℕ → Bool) (fields : Headers)
    → All P fields
    → All P (fields_with test fields)
unfolding fields_with
All-fields_with P test [] h = tt
All-fields_with P test ((k, v) ∷ fields) (p, h) = elim (Bool-cases (test k)) [
  | inl e ↦ rw (e, fields_with) (p, All-fields_with P test fields h)
  | inr e ↦ rw (e, fields_with) (All-fields_with P test fields h)
]

-- A test that a field's key fails leaves none with that key.
pub count-fields_with :
    (key : List ℕ) (test : List ℕ → Bool) (fields : Headers)
    → ((k : List ℕ) → same_key k key ≡ true → test k ≡ false)
    → count key (fields_with test fields) ≡ 0
unfolding count fields_with
count-fields_with key test [] h = refl
count-fields_with key test ((k, v) ∷ fields) h = elim (Bool-cases (same_key k key)) [
  | inl e ↦ rw (h k e, fields_with) (count-fields_with key test fields h)
  | inr e ↦ elim (Bool-cases (test k)) [
    | inl f ↦ rw (f, fields_with, count) (rw (e, count) (count-fields_with key test fields h))
    | inr f ↦ rw (f, fields_with) (count-fields_with key test fields h)
  ]
]

-- A closed text without a character.
unfoldable pub lacks : ℕ → List ℕ → Bool
lacks c [] = true
lacks c (x ∷ s) = not (x == c) && lacks c s

pub lacks-All : (c : ℕ) (s : List ℕ) → lacks c s ≡ true → All (λ x. x ≢ c) s
unfolding lacks
lacks-All c [] h = tt
lacks-All c (x ∷ s) h = ground (arith, lacks-All c s)

closed-IsField :
    (c : ℕ) (k v : List ℕ)
    → lacks b':' (c ∷ k) ≡ true
    → lacks 13 (c ∷ k) ≡ true
    → NoCr v
    → IsField (c ∷ k, v)
closed-IsField c k v h g n = record {
  nonempty = (c, k, refl);
  no_colon = lacks-All b':' (c ∷ k) h;
  key_in_line = lacks-All 13 (c ∷ k) g;
  value_in_line = n;
}

pub connection_value-NoCr : (close : Bool) → NoCr (connection_value close)
unfolding connection_value lacks
connection_value-NoCr true = lacks-All 13 (codes "close") refl
connection_value-NoCr false = lacks-All 13 (codes "keep-alive") refl

pub connection_fields-IsField :
    (websocket close : Bool) → All IsField (connection_fields websocket close)
unfolding connection_fields lacks connection_value
connection_fields-IsField true close = tt
connection_fields-IsField false close =
    (closed-IsField _ _ (connection_value close) refl refl (connection_value-NoCr close), tt)

pub body_fields-IsField :
    (show : ℕ → List ℕ) (body : List ℕ)
    → ((n : ℕ) → NoCr (show n))
    → All IsField (body_fields show body)
unfolding body_fields lacks
body_fields-IsField show [] h = tt
body_fields-IsField show (c ∷ body) h =
    (closed-IsField _ _ (show (length (c ∷ body))) refl refl (h (length (c ∷ body))), tt)

pub cookie_fields-IsField :
    (cookies : List (List ℕ)) → All NoCr cookies → All IsField (cookie_fields cookies)
unfolding cookie_fields lacks
cookie_fields-IsField [] h = tt
cookie_fields-IsField (c ∷ cookies) (p, h) =
    (closed-IsField _ _ c refl refl p, cookie_fields-IsField cookies h)

pub count-connection_fields :
    (close : Bool)
    → (count (codes "connection") (connection_fields false close) ≡ 1)
      × (count (codes "content-length") (connection_fields false close) ≡ 0)
unfolding count connection_fields same_key
count-connection_fields close = (refl, refl)

pub count-body_fields :
    (show : ℕ → List ℕ) (c : ℕ) (body : List ℕ)
    → (count (codes "connection") (body_fields show (c ∷ body)) ≡ 0)
      × (count (codes "content-length") (body_fields show (c ∷ body)) ≡ 1)
unfolding count body_fields same_key
count-body_fields show c body = (refl, refl)

pub connection_value_no_colon :
    (close : Bool) → All (λ c. c ≢ b':') (codes "connection" ++ connection_value close)
unfolding connection_value lacks
connection_value_no_colon true = lacks-All b':' (codes "connectionclose") refl
connection_value_no_colon false = lacks-All b':' (codes "connectionkeep-alive") refl

pub connection_value_in_line : (close : Bool) → NoCr (codes "connection" ++ connection_value close)
unfolding connection_value lacks
connection_value_in_line true = lacks-All 13 (codes "connectionclose") refl
connection_value_in_line false = lacks-All 13 (codes "connectionkeep-alive") refl
