-- ===== src/Http/Text.antt =====
-- The texts of messages: the body of HttpRequest::toString and HttpResponse::dump of
-- libcocao/http/http.cc. The printing of numbers and the tables of names are parameters.
pub mod Reader
pub mod Lines
pub mod Requests
pub mod Wanted
pub mod Responses
use libcocao.Base.{
  ℕ, ◌/◌, ◌%◌, Bool, true, false, not, ◌&&◌, ◌||◌, List, [], ◌∷◌, ◌==◌, if◌then◌else◌, is_empty,
  length,
}
use libcocao.Log.{codes}
use libcocao.Http.{◌<<◌, same_key, Headers, Methods, http_method_to_string}
use libcocao.Http.Request.{HttpRequest}
use libcocao.Http.Response.{HttpResponse}

-- HttpStatusToString.
unfoldable pub http_status_to_string : List (ℕ × List ℕ) → ℕ → List ℕ
http_status_to_string [] s = codes "<unknown>"
http_status_to_string ((code, name) ∷ more) s =
    let rest = http_status_to_string more s in if code == s then name else rest

-- `"\r\n"`.
abbrev pub crlf : List ℕ
crlf = 13 ∷ 10 ∷ []

-- A header that the loop of HttpRequest leaves out.
pub is_skipped : Bool → Bool → List ℕ → Bool
is_skipped websocket has_body key =
    (not websocket && same_key key (codes "connection"))
    || (has_body && same_key key (codes "content-length"))

pub header_lines : Bool → Bool → Headers → List ℕ
unfolding is_skipped
header_lines websocket has_body [] = []
header_lines websocket has_body ((k, v) ∷ headers) =
    let rest = header_lines websocket has_body headers in
    if is_skipped websocket has_body k then rest else k << codes ": " << v << crlf << rest

-- A response leaves out no content-length.
pub response_lines : Bool → Headers → List ℕ
response_lines websocket [] = []
response_lines websocket ((k, v) ∷ headers) =
    let rest = response_lines websocket headers in
    if not websocket && same_key k (codes "connection")
    then rest
    else k << codes ": " << v << crlf << rest

-- The Set-Cookie lines. The source writes `if (auto &i : m_cookies)` and a stream `oc` that it does not
-- declare, which do not compile; they are read as `for` and `os`.
pub cookie_lines : List (List ℕ) → List ℕ
cookie_lines [] = []
cookie_lines (c ∷ cookies) = codes "Set-Cookie: " << c << crlf << cookie_lines cookies

pub connection_value : Bool → List ℕ
connection_value close = if close then codes "close" else codes "keep-alive"

module _ (show : ℕ → List ℕ) where
  pub body_text : List ℕ → List ℕ
  body_text [] = crlf
  body_text (c ∷ body) =
      codes "content-length: " << show (length (c ∷ body)) << crlf << crlf << (c ∷ body)

  pub version_text : ℕ → List ℕ
  version_text version =
      codes "HTTP/" << show (version % 256 / 16) << codes "." << show (version % 16)

  pub request_line : Methods → HttpRequest → List ℕ
  unfolding version_text
  request_line methods r =
      http_method_to_string methods r.method
      << codes " "
      << r.path
      << (if is_empty r.query then [] else codes "?")
      << r.query
      << (if is_empty r.fragment then [] else codes "#")
      << r.fragment
      << codes " "
      << version_text r.version

  -- HttpRequest::toString.
  pub request_text : Methods → HttpRequest → List ℕ
  unfolding request_line body_text header_lines connection_value
  request_text methods r =
      request_line methods r
      << crlf
      << (if r.websocket then [] else codes "connection: " << connection_value r.close << crlf)
      << header_lines r.websocket (not (is_empty r.body)) r.headers
      << body_text r.body

  pub status_line : List (ℕ × List ℕ) → HttpResponse → List ℕ
  unfolding version_text http_status_to_string
  status_line statuses r =
      version_text r.version
      << codes " "
      << show r.status
      << codes " "
      << (if is_empty r.reason then http_status_to_string statuses r.status else r.reason)

  -- HttpResponse::dump.
  pub response_text : List (ℕ × List ℕ) → HttpResponse → List ℕ
  unfolding status_line body_text response_lines cookie_lines connection_value
  response_text statuses r =
      status_line statuses r
      << crlf
      << response_lines r.websocket r.headers
      << cookie_lines r.cookies
      << (if r.websocket then [] else codes "connection" << connection_value r.close << crlf)
      << body_text r.body
