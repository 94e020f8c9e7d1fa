-- ===== src/Http/Server.antt =====
-- HttpSession and HttpServer, libcocao/http/http_session.cc and libcocao/http/http_server.cc. The parser, on the vendored
-- http-parser, is a parameter: a state, what execute does with the bytes of the buffer, and what it then says. A
-- read of a connection is a function from the room in the buffer to the bytes, with `none` for -1.
pub mod Answers
use libcocao.Base.{
  ℕ, ◌-◌, Bool, true, false, not, ◌&&◌, ◌||◌, Option, none, some, List, [], ◌∷◌, ◌++◌, ◌==◌,
  if◌then◌else◌, ◌>>=◌, is_empty, length, drop, zero, suc,
}
use libcocao.FdManager.{ℤ}
use libcocao.Log.{codes}
use libcocao.Http.Request.{HttpRequest, init}
use libcocao.Http.Response.{HttpResponse, response_new, set_headers}
use libcocao.Http.Servlet.{ServletDispatch, dispatch_handle, not_found_servlet, set_default}

-- HttpRequestParser::GetHttpRequestBufferSize: a static number that nothing sets.
pub get_http_request_buffer_size : ℕ
get_http_request_buffer_size = 0

-- HttpRequestParser, as HttpSession uses it. execute gives how many bytes it has parsed.
pub record Parser (P : Type 0) : Type 0 where
  pub fresh : P
  pub execute : P → List ℕ → P × ℕ
  pub has_error : P → Bool
  pub is_finished : P → Bool
  pub get_data : P → HttpRequest

abbrev pub Reads : Type 0
Reads = List (ℕ → Option (List ℕ))

-- How recvRequest ends: a request, or nullptr, and whether the session was closed.
pub data Received : Type 0 where
  received : HttpRequest → Received
  nothing : Bool → Received

module _ {P : Type 0} (parser : Parser P) where
  -- The loop of recvRequest, with the bytes that are in the buffer; `none` while it waits for more. After an error
  -- `close;` calls nothing.
  pub recv_loop : ℕ → P → List ℕ → Reads → Option (Received × Reads)
  recv_loop size p buffer [] = none
  recv_loop size p buffer (read ∷ reads) = elim (read (size - length buffer)) [
    | none ↦ some (nothing true, reads)
    | some bytes ↦
        let (q, n) = parser.execute p (buffer ++ bytes) in
        let left = drop n (buffer ++ bytes) in
        let next = recv_loop size q left reads in
        if is_empty bytes
        then some (nothing true, reads)
        else if parser.has_error q
        then some (nothing false, reads)
        else if length left == size
        then some (nothing true, reads)
        else if parser.is_finished q
        then some (received (init (parser.get_data q)), reads)
        else next
  ]

  -- HttpSession::recvRequest.
  pub recv_request : Reads → Option (Received × Reads)
  unfolding recv_loop get_http_request_buffer_size
  recv_request reads = recv_loop get_http_request_buffer_size parser.fresh [] reads

-- HttpServer, with what is its own and its name.
pub record HttpServer (S : Type 0) : Type 0 where
  pub name : List ℕ
  pub is_keepalive : Bool
  pub dispatch : ServletDispatch S

module _ {S : Type 0} where
  -- HttpServer::setName.
  pub set_name : List ℕ → HttpServer S → HttpServer S
  set_name v server = record server {
    name = v;
    dispatch = set_default (some (not_found_servlet v)) server.dispatch;
  }

  module _ (fnmatch : List ℕ → List ℕ → Bool) where
    -- The answer to a request, and the session behind it.
    pub answer : HttpServer S → S → HttpRequest → HttpResponse × S
    answer server session request =
        let response = response_new request.version (request.close || not server.is_keepalive) in
        let (result, rsp, after) =
          dispatch_handle fnmatch server.dispatch request
            (set_headers (codes "Server") server.name response) session in
        (rsp, after)

    -- HttpServer::handleClient, with what recvRequest gives each time: the responses that are sent before the session is
    -- closed, and `none` while it waits for a request.
    pub handle_client : HttpServer S → S → List Received → Option (List HttpResponse)
    unfolding answer
    handle_client server session [] = none
    handle_client server session (nothing closed ∷ more) = some []
    handle_client server session (received request ∷ more) =
        let (rsp, after) = answer server session request in
        let rest = handle_client server after more >>= λ rsps. some (rsp ∷ rsps) in
        if not server.is_keepalive || request.close then some (rsp ∷ []) else rest

    -- A connection: what recvRequest gives one time after the other.
    pub serve : {P : Type 0} → Parser P → HttpServer S → S → ℕ → Reads → Option (List HttpResponse)
    unfolding recv_request answer
    serve parser server session zero reads = none
    serve parser server session (suc turns) reads = elim (recv_request parser reads) [
      | none ↦ none
      | some (nothing closed, left) ↦ some []
      | some (received request, left) ↦
          let (rsp, after) = answer server session request in
          let rest = serve parser server after turns left >>= λ rsps. some (rsp ∷ rsps) in
          if not server.is_keepalive || request.close then some (rsp ∷ []) else rest
    ]
