-- ===== src/Http/Text/Wanted.antt =====
-- The text of a request, HttpRequest::toString of libcocao/http/http.cc, beside what a request is to send: stated
-- without the functions of its text.
use libcocao.Base.{
  ℕ, zero, suc, none, get_elem?, ◌/◌, ◌%◌, ◌≡◌, refl, ap, ◌∙◌, inl, inr, Bool, true, false, not,
  ◌&&◌, ◌||◌, some, List, [], ◌∷◌, ◌++◌, if◌then◌else◌, Bool-cases, is_empty,
}
use libcocao.Log.{codes}
use libcocao.Http.{◌<<◌, same_key, Headers, Methods, http_method_to_string}
use libcocao.Http.Request.{HttpRequest}
use libcocao.Http.Text.{is_skipped, version_text, request_line, request_text}
use libcocao.Http.Text.Reader.{read_message}
use libcocao.Http.Text.Lines.{fields_with, connection_fields, body_fields}
use libcocao.Http.Text.Requests.{IsSendable, text_fields, request_text-read}

-- A part of a uri behind its mark, which an empty part does without.
pub with_mark : ℕ → List ℕ → List ℕ
with_mark mark [] = []
with_mark mark (c ∷ part) = mark ∷ c ∷ part

-- The name of a method: its place in the table, if it has one.
pub method_name : Methods → ℕ → List ℕ
method_name methods n = elim (get_elem? methods n) [ none ↦ codes "<unknown>" | some name ↦ name ]

-- The request line: the method, the uri and the version, with a space between them.
pub start_line : (ℕ → List ℕ) → Methods → HttpRequest → List ℕ
unfolding with_mark method_name
start_line show methods r =
    method_name methods r.method
    << (b' ' ∷ [])
    << r.path
    << with_mark b'?' r.query
    << with_mark b'#' r.fragment
    << codes " HTTP/"
    << show (r.version % 256 / 16)
    << codes "."
    << show (r.version % 16)

-- Fields without those that have a key.
pub without : List ℕ → Headers → Headers
unfolding fields_with
without key fields = fields_with (λ k. not (same_key k key)) fields

-- The headers that a request sends as they are: all but what it sends of its own.
pub own_headers : HttpRequest → Headers
unfolding without
own_headers r =
    let kept = if r.websocket then r.headers else without (codes "connection") r.headers in
    if is_empty r.body then kept else without (codes "content-length") kept

-- The fields that a request is to have in its text.
pub sent_fields : (ℕ → List ℕ) → HttpRequest → Headers
unfolding own_headers
sent_fields show r =
    connection_fields r.websocket r.close ++ (own_headers r ++ body_fields show r.body)

mark_lem :
    (mark : ℕ) (part rest : List ℕ)
    → (if is_empty part then [] else mark ∷ []) << (part << rest) ≡ with_mark mark part << rest
unfolding with_mark
mark_lem mark [] rest = refl
mark_lem mark (c ∷ part) rest = refl

method_name_lem :
    (methods : Methods) (n : ℕ) → http_method_to_string methods n ≡ method_name methods n
unfolding http_method_to_string method_name
method_name_lem [] zero = refl
method_name_lem [] (suc n) = refl
method_name_lem (name ∷ methods) zero = refl
method_name_lem (name ∷ methods) (suc n) = method_name_lem methods n

request_line_wanted :
    (show : ℕ → List ℕ) (methods : Methods) (r : HttpRequest)
    → request_line show methods r ≡ start_line show methods r
unfolding request_line version_text start_line
request_line_wanted show methods r =
    let last =
      codes " HTTP/" << show (r.version % 256 / 16) << codes "." << show (r.version % 16) in
    ap (λ t. http_method_to_string methods r.method << codes " " << r.path << t)
      (mark_lem b'?' r.query _
        ∙ ap (λ t. with_mark b'?' r.query << t) (mark_lem b'#' r.fragment last))
    ∙ ap
        (λ t.
          t << codes " " << r.path << with_mark b'?' r.query << with_mark b'#' r.fragment << last)
        (method_name_lem methods r.method)

-- Tests that agree pass the same fields, and a test after another passes what both pass.
fields_with-two :
    (p q t : List ℕ → Bool) (fields : Headers)
    → ((k : List ℕ) → t k ≡ (q k && p k))
    → fields_with t fields ≡ fields_with p (fields_with q fields)
unfolding fields_with
fields_with-two p q t [] h = refl
fields_with-two p q t ((k, v) ∷ fields) h = elim (Bool-cases (q k)) [
  | inr e ↦ rw (h k, e, fields_with) (fields_with-two p q t fields h)
  | inl e ↦ elim (Bool-cases (p k)) [
    | inl f ↦ rw (h k, e, f, fields_with) (ap (λ fs. (k, v) ∷ fs) (fields_with-two p q t fields h))
    | inr f ↦ rw (h k, e, f, fields_with) (fields_with-two p q t fields h)
  ]
]

pub fields_with-all :
    (t : List ℕ → Bool) (fields : Headers)
    → ((k : List ℕ) → t k ≡ true)
    → fields_with t fields ≡ fields
unfolding fields_with
fields_with-all t [] h = refl
fields_with-all t ((k, v) ∷ fields) h =
    rw (h k, fields_with) (ap (λ fs. (k, v) ∷ fs) (fields_with-all t fields h))

not_or : (a b : Bool) → not (a || b) ≡ (not a && not b)
not_or true b = refl
not_or false b = refl

-- The test of the loop, by what the request is.
skipped_wanted :
    (websocket empty : Bool) (headers : Headers)
    → fields_with (λ k. not (is_skipped websocket (not empty) k)) headers ≡ (
        let kept = if websocket then headers else without (codes "connection") headers in
        if empty then kept else without (codes "content-length") kept)
unfolding is_skipped without
skipped_wanted true true headers =
    fields_with-all (λ k. not (is_skipped true false k)) headers (λ k. refl)
skipped_wanted true false headers = refl
skipped_wanted false true headers =
    fields_with-two (λ k. true) (λ k. not (same_key k (codes "connection")))
      (λ k. not (is_skipped false false k)) headers
      (λ k. not_or (same_key k (codes "connection")) false)
    ∙ fields_with-all (λ k. true) _ (λ k. refl)
skipped_wanted false false headers =
    fields_with-two (λ k. not (same_key k (codes "content-length")))
      (λ k. not (same_key k (codes "connection"))) (λ k. not (is_skipped false true k)) headers
      (λ k. not_or (same_key k (codes "connection")) (same_key k (codes "content-length")))

text_fields_wanted : (show : ℕ → List ℕ) (r : HttpRequest) → text_fields show r ≡ sent_fields show r
unfolding text_fields sent_fields own_headers
text_fields_wanted show r =
    ap (λ hs. connection_fields r.websocket r.close ++ (hs ++ body_fields show r.body))
      (skipped_wanted r.websocket (is_empty r.body) r.headers)

-- The text of a request whose parts fit in lines is read back as its request line, the fields that it is to have and
-- its body. The line is the method, the uri with its query and fragment, and the version. The fields are `connection`, unless
-- the request is a websocket's, the headers except those named as a field that the request sends of its own, in any case, and the
-- length of the body, if there is one.
pub request_text_lem :
    (show : ℕ → List ℕ) (methods : Methods) (r : HttpRequest)
    → IsSendable show methods r
    → read_message (request_text show methods r)
      ≡ some (start_line show methods r, sent_fields show r, r.body)
request_text_lem show methods r h =
    request_text-read show methods r h
    ∙ (λ i. some (request_line_wanted show methods r i, text_fields_wanted show r i, r.body))
