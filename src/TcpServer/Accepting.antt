-- ===== src/TcpServer/Accepting.antt =====
-- The clients of TcpServer::startAccept and their timeouts, libcocao/tcp_server.cc and libcocao/socket.cc.
use libcocao.Base.{
  ◌≡◌, ℕ, ◌<◌, refl, ap, Bool, true, false, Option, none, some, List, [], ◌∷◌, map, All, arith,
}
use libcocao.Hook.Options.Limits.{in_ms}
use libcocao.Socket.{timeval_of}
use libcocao.TcpServer.{accept_loop}

-- The clients of the accepts before the server is found stopped.
pub clients_before_stop : {C : Type 0} → List (Bool × Option C) → List C
clients_before_stop [] = []
clients_before_stop ((true, found) ∷ more) = []
clients_before_stop ((false, none) ∷ more) = clients_before_stop more
clients_before_stop ((false, some client) ∷ more) = client ∷ clients_before_stop more

timeval_of-in_ms : (v : ℕ) → v < 2147483648000 → in_ms (timeval_of v) ≡ v
unfolding timeval_of
timeval_of-in_ms v h = ground arith

-- startAccept schedules the clients that are accepted before the server is found stopped, in their order, and each has, as the
-- hooked setsockopt reads the timeval, the server's receive timeout, if that is less than 2^31 seconds.
pub accept_loop_lem :
    {C : Type 0} (recv_timeout : ℕ) (events : List (Bool × Option C))
    → recv_timeout < 2147483648000
    → (map (λ p. p.0) (accept_loop recv_timeout events) ≡ clients_before_stop events)
      × All (λ p. in_ms p.1 ≡ recv_timeout) (accept_loop recv_timeout events)
unfolding accept_loop clients_before_stop
accept_loop_lem v [] h = (refl, tt)
accept_loop_lem v ((true, found) ∷ more) h = (refl, tt)
accept_loop_lem v ((false, none) ∷ more) h = accept_loop_lem v more h
accept_loop_lem v ((false, some client) ∷ more) h =
    let (same, times) = accept_loop_lem v more h in
    (ap (λ cs. client ∷ cs) same, (timeval_of-in_ms v h, times))
