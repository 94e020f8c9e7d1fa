-- ===== src/Http/Text/Requests.antt =====
-- The text of a request, HttpRequest::toString of libcocao/http/http.cc.
use libcocao.Base.{
  ℕ, ◌/◌, ◌%◌, ◌≡◌, ◌≢◌, refl, sym, ap, ◌∙◌, inl, inr, Bool, true, false, not, some, List, [], ◌∷◌,
  ◌++◌, if◌then◌else◌, Bool-cases, All, is_empty, arith,
}
use mathlib.Core.List.{append_assoc}
use libcocao.Log.{codes}
use libcocao.Http.{same_key, Headers, Methods, http_method_to_string}
use libcocao.Http.Request.{HttpRequest}
use libcocao.Http.Text.{is_skipped, version_text, request_line, request_text}
use libcocao.Http.Text.Reader.{lines, NoCr, IsField, read_message, read_message-lines, All-append}
use libcocao.Http.Text.Lines.{
  fields_with, connection_fields, body_fields, count, count-append, lines-append,
  header_lines_fields, connection_line, body_text_fields, count-connection_fields,
  count-body_fields, All-fields_with, count-fields_with, connection_fields-IsField,
  body_fields-IsField,
}

-- The fields that a request has in its text, as the loop leaves them.
unfoldable pub text_fields : (ℕ → List ℕ) → HttpRequest → Headers
text_fields show r =
    connection_fields r.websocket r.close
    ++ (fields_with (λ k. not (is_skipped r.websocket (not (is_empty r.body)) k)) r.headers
        ++ body_fields show r.body)

-- Parts of a text, one behind the other.
pub lines_three :
    (start : List ℕ) (a b c : Headers) (body : List ℕ)
    → start ++ (13 ∷ 10 ∷ (lines a ++ (lines b ++ (lines c ++ 13 ∷ 10 ∷ body))))
      ≡ start ++ 13 ∷ 10 ∷ (lines (a ++ (b ++ c)) ++ 13 ∷ 10 ∷ body)
lines_three start a b c body =
    let last = 13 ∷ 10 ∷ body in
    ap (λ t. start ++ 13 ∷ 10 ∷ t)
      (ap (λ t. lines a ++ t) (sym (append_assoc (lines b) (lines c) last))
        ∙ sym (append_assoc (lines a) (lines b ++ lines c) last)
        ∙ ap (λ t. lines a ++ t ++ last) (sym (lines-append b c))
        ∙ ap (λ t. t ++ last) (sym (lines-append a (b ++ c))))

-- The text of a request as lines.
request_text-lines :
    (show : ℕ → List ℕ) (methods : Methods) (r : HttpRequest)
    → request_text show methods r
      ≡ request_line show methods r ++ 13 ∷ 10 ∷ (lines (text_fields show r) ++ 13 ∷ 10 ∷ r.body)
unfolding request_text text_fields
request_text-lines show methods r =
    let has_body = not (is_empty r.body) in
    let kept = fields_with (λ k. not (is_skipped r.websocket has_body k)) r.headers in
    let start = request_line show methods r in
    (λ i.
      start
      ++ 13
        ∷ 10
        ∷ (connection_line r.websocket r.close i
            ++ (header_lines_fields r.websocket has_body r.headers i
                ++ body_text_fields show r.body i)))
    ∙ lines_three start (connection_fields r.websocket r.close) kept (body_fields show r.body)
        r.body

-- The parts of a request that fit in lines.
pub record IsSendable (show : ℕ → List ℕ) (methods : Methods) (r : HttpRequest) : Type 0 where
  pub numbers_in_line : (n : ℕ) → NoCr (show n)
  pub method_in_line : NoCr (http_method_to_string methods r.method)
  pub path_in_line : NoCr r.path
  pub query_in_line : NoCr r.query
  pub fragment_in_line : NoCr r.fragment
  pub headers_are_fields : All IsField r.headers

mark-NoCr : (b : Bool) (c : ℕ) → c ≢ 13 → NoCr (if b then [] else c ∷ [])
mark-NoCr true c h = tt
mark-NoCr false c h = (h, tt)

join : (a b : List ℕ) → NoCr a → NoCr b → NoCr (a ++ b)
join a b = All-append (λ c. c ≢ 13) a b

pub version_text-NoCr :
    (show : ℕ → List ℕ) (version : ℕ) → ((n : ℕ) → NoCr (show n)) → NoCr (version_text show version)
unfolding version_text
version_text-NoCr show version h =
    join (codes "HTTP/") _
      (ground arith, (ground arith, (ground arith, (ground arith, (ground arith, tt)))))
      (join (show (version % 256 / 16)) _ (h _) (join (codes ".") _ (ground arith, tt) (h _)))

request_line-NoCr :
    (show : ℕ → List ℕ) (methods : Methods) (r : HttpRequest)
    → IsSendable show methods r
    → NoCr (request_line show methods r)
unfolding request_line
request_line-NoCr show methods r h =
    let numbers = h.numbers_in_line in
    join _ _ h.method_in_line (
      join (codes " ") _ (ground arith, tt)
        (join _ _ h.path_in_line (
          join _ _ (mark-NoCr (is_empty r.query) b'?' (ground arith)) (
            join _ _ h.query_in_line (
              join _ _ (mark-NoCr (is_empty r.fragment) b'#' (ground arith)) (
                join _ _ h.fragment_in_line (
                  join (codes " ") (version_text show r.version) (ground arith, tt)
                    (version_text-NoCr show r.version numbers))))))))

pub text_fields-IsField :
    (show : ℕ → List ℕ) (methods : Methods) (r : HttpRequest)
    → IsSendable show methods r
    → All IsField (text_fields show r)
unfolding text_fields
text_fields-IsField show methods r h =
    let test : List ℕ → Bool = λ k. not (is_skipped r.websocket (not (is_empty r.body)) k) in
    All-append IsField (connection_fields r.websocket r.close) _
      (connection_fields-IsField r.websocket r.close)
      (All-append IsField (fields_with test r.headers) (body_fields show r.body)
        (All-fields_with IsField test r.headers h.headers_are_fields)
        (body_fields-IsField show r.body h.numbers_in_line))

-- What the text of a request is read as.
pub request_text-read :
    (show : ℕ → List ℕ) (methods : Methods) (r : HttpRequest)
    → IsSendable show methods r
    → read_message (request_text show methods r)
      ≡ some (request_line show methods r, text_fields show r, r.body)
request_text-read show methods r h =
    ap read_message (request_text-lines show methods r)
    ∙ read_message-lines (request_line show methods r) (text_fields show r) r.body
        (request_line-NoCr show methods r h) (text_fields-IsField show methods r h)

skips_connection :
    (k : List ℕ) → same_key k (codes "connection") ≡ true → is_skipped false true k ≡ true
unfolding is_skipped
skips_connection k h = rw h refl

skips_length :
    (k : List ℕ) → same_key k (codes "content-length") ≡ true → is_skipped false true k ≡ true
unfolding is_skipped
skips_length k h = elim (Bool-cases (same_key k (codes "connection"))) [
  | inl e ↦ rw e refl
  | inr e ↦ rw (e, h) refl
]

-- Whatever headers a request has, its text has one connection field unless it is a websocket's, and one
-- content-length field if it has a body.
pub text_fields_once :
    (show : ℕ → List ℕ) (r : HttpRequest) (c : ℕ) (body : List ℕ)
    → r.body ≡ c ∷ body
    → r.websocket ≡ false
    → (count (codes "connection") (text_fields show r) ≡ 1)
      × (count (codes "content-length") (text_fields show r) ≡ 1)
unfolding text_fields
text_fields_once show r c body e f =
    let connection = codes "connection" in
    let content_length = codes "content-length" in
    let test : List ℕ → Bool = λ k. not (is_skipped false true k) in
    let kept = fields_with test r.headers in
    let (one, zero_of) = count-connection_fields r.close in
    let (none_of, one_of) = count-body_fields show c body in
    rw (e, f)
      (
        omega (
          arith,
          count-append connection (connection_fields false r.close)
              (kept ++ body_fields show (c ∷ body)),
          count-append connection kept (body_fields show (c ∷ body)),
          count-fields_with connection test r.headers (λ k h. rw (skips_connection k h) refl),
          one,
          none_of,
        ),
        omega (
          arith,
          count-append content_length (connection_fields false r.close)
              (kept ++ body_fields show (c ∷ body)),
          count-append content_length kept (body_fields show (c ∷ body)),
          count-fields_with content_length test r.headers (λ k h. rw (skips_length k h) refl),
          zero_of,
          one_of,
        ),
      )
