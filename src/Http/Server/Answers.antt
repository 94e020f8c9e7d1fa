-- ===== src/Http/Server/Answers.antt =====
-- The responses of HttpServer::handleClient, libcocao/http/http_server.cc.
use libcocao.Base.{
  ◌≡◌, ℕ, suc, ◌≤◌, refl, ap, ◌∙◌, ◌⊎◌, inl, inr, Bool, true, false, not, ◌||◌, Option, none, some,
  List, [], ◌∷◌, ◌++◌, map, List-cases, All, length, arith,
}
use libcocao.Http.Request.{HttpRequest}
use libcocao.Http.Response.{HttpResponse}
use libcocao.Http.Server.{
  Parser, Reads, Received, received, nothing, recv_loop, recv_request, HttpServer, answer,
  handle_client, serve, get_http_request_buffer_size,
}

-- A read never gives more bytes than there is room.
unfoldable pub IsBounded : Reads → Type 0
IsBounded reads =
    All (λ r. (room : ℕ) → (r room ≡ none) ⊎ ((s : List ℕ) × (r room ≡ some s) × (length s ≤ room)))
      reads

recv_nothing :
    {P : Type 0} (parser : Parser P) (read : ℕ → Option (List ℕ)) (reads : Reads)
    → (read 0 ≡ none) ⊎ (read 0 ≡ some [])
    → recv_request parser (read ∷ reads) ≡ some (nothing true, reads)
unfolding recv_request recv_loop get_http_request_buffer_size
recv_nothing parser read reads (inl e) = rw (e, recv_loop) refl
recv_nothing parser read reads (inr e) = rw (e, recv_loop) refl

module _ {S : Type 0} (fnmatch : List ℕ → List ℕ → Bool) where
  -- The answers to requests, one after the other.
  pub answers : HttpServer S → S → List HttpRequest → List HttpResponse
  answers server session [] = []
  answers server session (r ∷ requests) =
      let (rsp, after) = answer fnmatch server session r in rsp ∷ answers server after requests

  -- The connection stays open after a request.
  abbrev pub GoesOn : HttpServer S → HttpRequest → Type 0
  GoesOn server r = (not server.is_keepalive || r.close) ≡ false

  GoesOn-step :
      (server : HttpServer S) (session : S) (r : HttpRequest) (more : List Received)
      (rsps : List HttpResponse)
      → GoesOn server r
      → handle_client fnmatch server (answer fnmatch server session r).1 more ≡ some rsps
      → handle_client fnmatch server session (received r ∷ more)
        ≡ some ((answer fnmatch server session r).0 ∷ rsps)
  unfolding handle_client
  GoesOn-step server session r more rsps h e = rw (h, e, handle_client) refl

  -- handleClient answers the requests in their order, one response each. It goes on behind a request if the server keeps
  -- connections alive and the request does not close; it ends without a response where no request can be read, and
  -- with a last response behind a request that does not go on.
  pub handle_client_lem :
      (server : HttpServer S) (session : S) (requests : List HttpRequest) (last : HttpRequest)
      (closed : Bool) (more : List Received)
      → All (GoesOn server) requests
      → (not server.is_keepalive || last.close) ≡ true
      → (handle_client fnmatch server session (map received requests ++ nothing closed ∷ more)
          ≡ some (answers server session requests))
        × (handle_client fnmatch server session (map received requests ++ received last ∷ more)
            ≡ some (answers server session (requests ++ last ∷ [])))
        × (length (answers server session requests) ≡ length requests)
  unfolding handle_client answers
  handle_client_lem server session [] last closed more h c =
      (refl, rw (c, handle_client) refl, refl)
  handle_client_lem server session (r ∷ requests) last closed more (g, h) c =
      let after = (answer fnmatch server session r).1 in
      let (a, b, n) = handle_client_lem server after requests last closed more h c in
      (GoesOn-step server session r _ _ g a, GoesOn-step server session r _ _ g b, omega (arith, n))

  -- HttpServer answers nothing: with the buffer that GetHttpRequestBufferSize gives, the first read of every connection
  -- has no room, so the session is closed without a response, whatever the parser and the servlets do.
  pub server_answers_nothing :
      {P : Type 0} (parser : Parser P) (server : HttpServer S) (session : S) (turns : ℕ)
      (read : ℕ → Option (List ℕ)) (reads : Reads)
      → IsBounded (read ∷ reads)
      → (recv_request parser (read ∷ reads) ≡ some (nothing true, reads))
        × (serve fnmatch parser server session (suc turns) (read ∷ reads) ≡ some [])
  unfolding serve IsBounded
  server_answers_nothing parser server session turns read reads (b, h) =
      let first = recv_nothing parser read reads (elim (b 0) [
        | inl e ↦ inl e
        | inr (bytes, e, l) ↦ elim (List-cases bytes) [
          | inl f ↦ inr (e ∙ ap some f)
          | inr (c, rest, f) ↦ absurd (omega (arith, l, ap length f))
        ]
      ]) in
      (first, rw (first, serve) refl)
