-- ===== src/Http/Text/Responses.antt =====
-- The text of a response, HttpResponse::dump of libcocao/http/http.cc.
use libcocao.Base.{
  ℕ, ◌≡◌, ◌≢◌, sym, ◌/◌, ◌%◌, inl, inr, Bool-cases, ap, ◌∙◌, Bool, true, false, not, ◌&&◌, none,
  some, Option, List, [], ◌∷◌, ◌++◌, if◌then◌else◌, All, is_empty, arith,
}
use mathlib.Core.List.{append_assoc}
use libcocao.Log.{codes}
use libcocao.Http.{◌<<◌, same_key, Headers}
use libcocao.Http.Response.{HttpResponse}
use libcocao.Http.Text.{
  version_text, crlf, http_status_to_string, connection_value, body_text, version_text, status_line,
  response_text,
}
use libcocao.Http.Text.Reader.{
  lines, NoCr, IsField, read_message, read_message-lines, read_message-broken, All-append,
}
use libcocao.Http.Text.Lines.{
  fields_with, cookie_fields, body_fields, response_lines_fields, cookie_lines_fields,
  body_text_fields, lines-append, All-fields_with, cookie_fields-IsField, body_fields-IsField,
  connection_value_in_line, connection_value_no_colon,
}
use libcocao.Http.Text.Requests.{lines_three, version_text-NoCr}
use libcocao.Http.Text.Wanted.{fields_with-all}

-- The headers that a response has in its text.
pub kept_fields : HttpResponse → Headers
kept_fields r =
    fields_with (λ k. not (not r.websocket && same_key k (codes "connection"))) r.headers

pub response_fields : (ℕ → List ℕ) → HttpResponse → Headers
unfolding kept_fields
response_fields show r = kept_fields r ++ (cookie_fields r.cookies ++ body_fields show r.body)

-- The parts of a response that fit in lines.
pub record IsAnswer (show : ℕ → List ℕ) (statuses : List (ℕ × List ℕ)) (r : HttpResponse)
    : Type 0 where
  pub numbers_in_line : (n : ℕ) → NoCr (show n)
  pub status_in_line : NoCr (http_status_to_string statuses r.status)
  pub reason_in_line : NoCr r.reason
  pub headers_are_fields : All IsField r.headers
  pub cookies_in_line : All NoCr r.cookies

join : (a b : List ℕ) → NoCr a → NoCr b → NoCr (a ++ b)
join a b = All-append (λ c. c ≢ 13) a b

name-NoCr : (b : Bool) (s t : List ℕ) → NoCr s → NoCr t → NoCr (if b then s else t)
name-NoCr true s t h g = h
name-NoCr false s t h g = g

status_line-NoCr :
    (show : ℕ → List ℕ) (statuses : List (ℕ × List ℕ)) (r : HttpResponse)
    → IsAnswer show statuses r
    → NoCr (status_line show statuses r)
unfolding status_line
status_line-NoCr show statuses r h =
    let name = if is_empty r.reason then http_status_to_string statuses r.status else r.reason in
    join (version_text show r.version) _ (version_text-NoCr show r.version h.numbers_in_line) (
      join (codes " ") _ (ground arith, tt)
        (join (show r.status) _ (h.numbers_in_line r.status) (
          join (codes " ") name (ground arith, tt)
            (name-NoCr (is_empty r.reason) _ r.reason h.status_in_line h.reason_in_line))))

kept_fields-IsField : (r : HttpResponse) → All IsField r.headers → All IsField (kept_fields r)
unfolding kept_fields
kept_fields-IsField r h =
    All-fields_with IsField (λ k. not (not r.websocket && same_key k (codes "connection")))
      r.headers h

response_fields-IsField :
    (show : ℕ → List ℕ) (statuses : List (ℕ × List ℕ)) (r : HttpResponse)
    → IsAnswer show statuses r
    → All IsField (response_fields show r)
unfolding response_fields
response_fields-IsField show statuses r h =
    All-append IsField (kept_fields r) _ (kept_fields-IsField r h.headers_are_fields) (
      All-append IsField (cookie_fields r.cookies) (body_fields show r.body)
        (cookie_fields-IsField r.cookies h.cookies_in_line)
        (body_fields-IsField show r.body h.numbers_in_line))

websocket_lines :
    (show : ℕ → List ℕ) (statuses : List (ℕ × List ℕ)) (r : HttpResponse)
    → r.websocket ≡ true
    → response_text show statuses r
      ≡ status_line show statuses r
        ++ 13 ∷ 10 ∷ (lines (response_fields show r) ++ 13 ∷ 10 ∷ r.body)
unfolding response_text response_fields kept_fields
websocket_lines show statuses r w =
    let start = status_line show statuses r in
    (λ i.
      start
      ++ 13
        ∷ 10
        ∷ (response_lines_fields r.websocket r.headers i
            ++ (cookie_lines_fields r.cookies i
                ++ ((if w i then [] else codes "connection" << connection_value r.close << crlf)
                    ++ body_text_fields show r.body i))))
    ∙ lines_three start (kept_fields r) (cookie_fields r.cookies) (body_fields show r.body) r.body

plain_lines :
    (show : ℕ → List ℕ) (statuses : List (ℕ × List ℕ)) (r : HttpResponse)
    → r.websocket ≡ false
    → response_text show statuses r
      ≡ status_line show statuses r
        ++ 13
          ∷ 10
          ∷ (lines (kept_fields r ++ cookie_fields r.cookies)
              ++ (codes "connection"
                  ++ connection_value r.close
                  ++ 13 ∷ 10 ∷ body_text show r.body))
unfolding response_text kept_fields
plain_lines show statuses r w =
    let start = status_line show statuses r in
    let last = codes "connection" ++ connection_value r.close ++ 13 ∷ 10 ∷ body_text show r.body in
    (λ i.
      start
      ++ 13
        ∷ 10
        ∷ (response_lines_fields r.websocket r.headers i
            ++ (cookie_lines_fields r.cookies i
                ++ ((if w i then [] else codes "connection" << connection_value r.close << crlf)
                    ++ body_text show r.body))))
    ∙ ap
        (λ t.
          start
          ++ 13
            ∷ 10
            ∷ (lines (kept_fields r)
                ++ (lines (cookie_fields r.cookies) ++ (codes "connection" ++ t))))
        (append_assoc (connection_value r.close) crlf (body_text show r.body))
    ∙ ap (λ t. start ++ 13 ∷ 10 ∷ t)
        (sym (append_assoc (lines (kept_fields r)) (lines (cookie_fields r.cookies)) last)
          ∙ ap (λ t. t ++ last) (sym (lines-append (kept_fields r) (cookie_fields r.cookies))))

-- The status line of a response: its version, its number and its reason, or else the name of the number.
pub answer_line : (ℕ → List ℕ) → List (ℕ × List ℕ) → HttpResponse → List ℕ
answer_line show statuses r =
    (codes "HTTP/" << show (r.version % 256 / 16) << codes "." << show (r.version % 16))
    << codes " "
    << show r.status
    << codes " "
    << (if is_empty r.reason then http_status_to_string statuses r.status else r.reason)

websocket_kept : (r : HttpResponse) → r.websocket ≡ true → kept_fields r ≡ r.headers
unfolding kept_fields
websocket_kept r w =
    fields_with-all (λ k. not (not r.websocket && same_key k (codes "connection"))) r.headers
      (λ k. ap (λ b. not (not b && same_key k (codes "connection"))) w)

websocket_read :
    (show : ℕ → List ℕ) (statuses : List (ℕ × List ℕ)) (r : HttpResponse)
    → IsAnswer show statuses r
    → r.websocket ≡ true
    → read_message (response_text show statuses r)
      ≡ some (
        answer_line show statuses r,
        r.headers ++ (cookie_fields r.cookies ++ body_fields show r.body),
        r.body,
      )
unfolding response_fields answer_line status_line version_text
websocket_read show statuses r h w =
    ap read_message (websocket_lines show statuses r w)
    ∙ read_message-lines (status_line show statuses r) (response_fields show r) r.body
        (status_line-NoCr show statuses r h) (response_fields-IsField show statuses r h)
    ∙ ap
        (λ hs. some (
          status_line show statuses r,
          hs ++ (cookie_fields r.cookies ++ body_fields show r.body),
          r.body,
        ))
        (websocket_kept r w)

-- The connection line of a response that is not a websocket's has no colon.
response_refused :
    (show : ℕ → List ℕ) (statuses : List (ℕ × List ℕ)) (r : HttpResponse)
    → IsAnswer show statuses r
    → r.websocket ≡ false
    → read_message (response_text show statuses r) ≡ none
response_refused show statuses r h w =
    ap read_message (plain_lines show statuses r w)
    ∙ read_message-broken (status_line show statuses r) (kept_fields r ++ cookie_fields r.cookies)
        b'c' (codes "onnection" ++ connection_value r.close) (body_text show r.body)
        (status_line-NoCr show statuses r h)
        (All-append IsField (kept_fields r) (cookie_fields r.cookies)
          (kept_fields-IsField r h.headers_are_fields)
          (cookie_fields-IsField r.cookies h.cookies_in_line))
        (connection_value_in_line r.close) (connection_value_no_colon r.close)

-- What the reader of Http.Text.Reader, which wants a colon in each line between the first and the empty one,
-- takes from the text of a response whose parts fit in lines. From a websocket's it takes the status
-- line, the headers, a Set-Cookie for each cookie, the length of the body, if there is one, and the body.
-- From any other it takes nothing.
pub read_message-response_text :
    (show : ℕ → List ℕ) (statuses : List (ℕ × List ℕ)) (r : HttpResponse)
    → IsAnswer show statuses r
    → read_message (response_text show statuses r) ≡ (
        if r.websocket
        then some (
          answer_line show statuses r,
          r.headers ++ (cookie_fields r.cookies ++ body_fields show r.body),
          r.body,
        )
        else none)
read_message-response_text show statuses r h = elim (Bool-cases r.websocket) [
  | inl w ↦ websocket_read show statuses r h w ∙ sym (ap when w)
  | inr w ↦ response_refused show statuses r h w ∙ sym (ap when w)
]
  where
    when : Bool → Option (List ℕ × Headers × List ℕ)
    when websocket =
        if websocket
        then some (
          answer_line show statuses r,
          r.headers ++ (cookie_fields r.cookies ++ body_fields show r.body),
          r.body,
        )
        else none
