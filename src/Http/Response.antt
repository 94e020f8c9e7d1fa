-- ===== src/Http/Response.antt =====
-- HttpResponse of libcocao/http/http.h and libcocao/http/http.cc: its setters, and the cookies that it is given.
-- The printing of times is a parameter.
use libcocao.Base.{ℕ, Bool, false, List, [], ◌∷◌, ◌++◌, ltb, if◌then◌else◌, is_empty}
use libcocao.Log.{codes}
use libcocao.Http.Request.{HttpRequest}
use libcocao.Http.{◌<<◌, Headers, put, erase, get_or}

pub record HttpResponse : Type 0 where
  pub status : ℕ
  pub version : ℕ
  pub close : Bool
  pub websocket : Bool
  pub body : List ℕ
  pub reason : List ℕ
  pub headers : Headers
  pub cookies : List (List ℕ)

-- HttpResponse::HttpResponse, with HttpStatus::OK.
pub response_new : ℕ → Bool → HttpResponse
response_new version close = record {
  status = 200;
  version = version;
  close = close;
  websocket = false;
  body = [];
  reason = [];
  headers = [];
  cookies = [];
}

unfoldable pub response_header : List ℕ → List ℕ → HttpResponse → List ℕ
unfolding get_or
response_header key def r = get_or key def r.headers

-- HttpResponse::setHeaders with a key and a value.
unfoldable pub set_headers : List ℕ → List ℕ → HttpResponse → HttpResponse
unfolding put
set_headers key val r = record r { headers = put key val r.headers }

pub response_del_header : List ℕ → HttpResponse → HttpResponse
unfolding erase
response_del_header key r = record r { headers = erase key r.headers }

unfoldable pub set_status : ℕ → HttpResponse → HttpResponse
set_status v r = record r { status = v }

unfoldable pub set_body : List ℕ → HttpResponse → HttpResponse
set_body v r = record r { body = v }

-- HttpResponse::appendBody, which sets the reason.
pub append_body : List ℕ → HttpResponse → HttpResponse
append_body v r = record r { reason = v }

-- HttpResponse::setRedirect, with HttpStatus::FOUND.
pub set_redirect : List ℕ → HttpResponse → HttpResponse
unfolding set_headers
set_redirect uri r = set_headers (codes "Location") uri (record r { status = 302 })

-- HttpResponse::setCookie.
pub cookie_text : (ℕ → List ℕ) → List ℕ → List ℕ → ℕ → List ℕ → List ℕ → Bool → List ℕ
cookie_text time_text key val expired path domain secure =
    key
    << b'='
      ∷ (val
          << (if ltb 0 expired then codes ";expires=" << time_text expired << codes " GMT" else [])
          << (if is_empty domain then [] else codes ";domain=" << domain)
          << (if is_empty path then [] else codes ";path=" << path)
          << (if secure then codes ";secure" else []))

pub response_cookie :
    (ℕ → List ℕ) → List ℕ → List ℕ → ℕ → List ℕ → List ℕ → Bool → HttpResponse → HttpResponse
unfolding cookie_text
response_cookie time_text key val expired path domain secure r = record r {
  cookies = r.cookies ++ (cookie_text time_text key val expired path domain secure ∷ []);
}

-- HttpRequest::createResponse.
pub create_response : HttpRequest → HttpResponse
unfolding response_new
create_response r = response_new r.version r.close
