-- ===== src/Http/Request.antt =====
-- HttpRequest of libcocao/http/http.h and libcocao/http/http.cc: its maps, and the parameters that it takes from the
-- query, the body and the cookies. StringUtil, which is not in the repository, is a parameter.
pub mod Params
use libcocao.Base.{
  ℕ, zero, suc, ◌+◌, Bool, true, false, not, ◌&&◌, ◌||◌, Option, none, some, List, [], ◌∷◌, ◌==◌,
  if◌then◌else◌, ◌>>=◌, is_empty, length,
}
use libcocao.Log.{codes}
use libcocao.Http.{cut, c_str, fold, same_key, Headers, find, put, insert, erase, get_or}

-- HttpRequest. The three bits of m_parserParamFlag are fields of their own.
pub record HttpRequest : Type 0 where
  pub method : ℕ
  pub version : ℕ
  pub close : Bool
  pub websocket : Bool
  pub query_parsed : Bool
  pub body_parsed : Bool
  pub cookies_parsed : Bool
  pub path : List ℕ
  pub query : List ℕ
  pub fragment : List ℕ
  pub body : List ℕ
  pub headers : Headers
  pub params : Headers
  pub cookies : Headers

-- HttpRequest::HtttpRequest, with the number of GET.
unfoldable pub request_new : ℕ → ℕ → Bool → HttpRequest
request_new get version close = record {
  method = get;
  version = version;
  close = close;
  websocket = false;
  query_parsed = false;
  body_parsed = false;
  cookies_parsed = false;
  path = codes "/";
  query = [];
  fragment = [];
  body = [];
  headers = [];
  params = [];
  cookies = [];
}

unfoldable pub get_header : List ℕ → List ℕ → HttpRequest → List ℕ
unfolding get_or
get_header key def r = get_or key def r.headers

-- HttpRequest::stdHeader.
pub std_header : List ℕ → List ℕ → HttpRequest → HttpRequest
std_header key val r = record r { headers = put key val r.headers }

pub set_param : List ℕ → List ℕ → HttpRequest → HttpRequest
set_param key val r = record r { params = put key val r.params }

pub set_cookie : List ℕ → List ℕ → HttpRequest → HttpRequest
set_cookie key val r = record r { cookies = put key val r.cookies }

pub del_header : List ℕ → HttpRequest → HttpRequest
del_header key r = record r { headers = erase key r.headers }

pub del_cookie : List ℕ → HttpRequest → HttpRequest
del_cookie key r = record r { cookies = erase key r.cookies }

-- hasHeader: the value, if the header is there.
pub has_header : List ℕ → HttpRequest → Option (List ℕ)
has_header key r = find key r.headers

-- strcasestr, whether it finds the text.
starts_with : List ℕ → List ℕ → Bool
starts_with s [] = true
starts_with [] (x ∷ p) = false
starts_with (y ∷ s) (x ∷ p) = if y == x then starts_with s p else false

contains_text : List ℕ → List ℕ → Bool
unfolding starts_with
contains_text [] p = starts_with [] p
contains_text (y ∷ s) p = starts_with (y ∷ s) p || contains_text s p

unfoldable pub strcasestr : List ℕ → List ℕ → Bool
unfolding contains_text fold
strcasestr s p = contains_text (fold s) (fold p)

-- The type that initBodyParam looks for.
abbrev pub form_type : List ℕ
form_type = codes "application/x-www.from-urlencoded"

-- The insertions of PARSE_PARAM.
pub insert_all : Headers → Headers → Headers
insert_all [] m = m
insert_all ((k, v) ∷ pairs) m = insert_all pairs (insert k v m)

module _ (url_decode : List ℕ → List ℕ) where
  -- PARSE_PARAM with fuel, on what is left of the text: the pairs that it inserts.
  pub parse_param : (List ℕ → List ℕ) → ℕ → ℕ → List ℕ → Option Headers
  parse_param trim flag zero s = none
  parse_param trim flag (suc fuel) s = elim (cut b'=' s) [
    | none ↦ some []
    | some (key, after) ↦ elim (cut flag after) [
      | none ↦ some ((url_decode (trim key), url_decode after) ∷ [])
      | some (value, rest) ↦ parse_param trim flag fuel rest >>= λ more.
          some ((url_decode (trim key), url_decode value) ∷ more)
    ]
  ]

  -- PARSE_PARAM into a map. The fuel is enough, so the map is never left as it is for want of it.
  pub parse_into : (List ℕ → List ℕ) → ℕ → List ℕ → Headers → Headers
  parse_into trim flag s m = elim (parse_param trim flag (length s + 1) s) [
    | none ↦ m
    | some pairs ↦ insert_all pairs m
  ]

  pub init_query_param : HttpRequest → HttpRequest
  init_query_param r =
      if r.query_parsed
      then r
      else record r { params = parse_into (λ s. s) b'&' r.query r.params; query_parsed = true }

  pub init_body_param : HttpRequest → HttpRequest
  unfolding get_header
  init_body_param r =
      if r.body_parsed
      then r
      else if strcasestr (get_header (codes "content-type") [] r) form_type
      then record r { params = parse_into (λ s. s) b'&' r.body r.params; body_parsed = true }
      else record r { body_parsed = true }

  -- initCookies. `trim` is StringUtil::Trim.
  pub init_cookies : (List ℕ → List ℕ) → HttpRequest → HttpRequest
  unfolding get_header
  init_cookies trim r =
      let cookie = get_header (codes "cookie") [] r in
      if r.cookies_parsed
      then r
      else if is_empty cookie
      then record r { cookies_parsed = true }
      else record r { cookies = parse_into trim b';' cookie r.cookies; cookies_parsed = true }

  -- getParam and getCookie, with the request that the first look leaves behind.
  pub get_param : List ℕ → List ℕ → HttpRequest → List ℕ × HttpRequest
  unfolding get_or
  get_param key def r =
      let parsed = init_body_param (init_query_param r) in (get_or key def parsed.params, parsed)

  pub has_param : List ℕ → HttpRequest → Option (List ℕ) × HttpRequest
  has_param key r =
      let parsed = init_body_param (init_query_param r) in (find key parsed.params, parsed)

  pub get_cookie : (List ℕ → List ℕ) → List ℕ → List ℕ → HttpRequest → List ℕ × HttpRequest
  unfolding get_or
  get_cookie trim key def r =
      let parsed = init_cookies trim r in (get_or key def parsed.cookies, parsed)

  pub has_cookie : (List ℕ → List ℕ) → List ℕ → HttpRequest → Option (List ℕ) × HttpRequest
  has_cookie trim key r = let parsed = init_cookies trim r in (find key parsed.cookies, parsed)

-- HttpRequest::init.
pub init : HttpRequest → HttpRequest
unfolding get_header same_key
init r =
    let conn = get_header (codes "connection") [] r in
    if is_empty conn then r else record r { close = not (same_key conn (codes "keep-alive")) }
