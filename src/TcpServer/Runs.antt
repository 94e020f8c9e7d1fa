-- ===== src/TcpServer/Runs.antt =====
-- Runs of the server of libcocao/tcp_server.cc, with numbers for addresses, all of one family.
use libcocao.Base.{ℕ, ◌≡◌, Bool, true, false, some, List, [], ◌∷◌, All}
use libcocao.FdManager.{pos}
use libcocao.Socket.{Answers}
use libcocao.Socket.Calls.{opens, closes}
use libcocao.Socket.State.{}
use libcocao.TcpServer.{Attempt, close_all, server_new}
use libcocao.TcpServer.Binding.{
  Step, to_bind, to_start, to_stop, to_close, to_timeout, steps, server_accepts_nothing,
}

abbrev family_of : ℕ → ℕ
family_of a = 2

abbrev is_unix : ℕ → Bool
is_unix a = false

-- All calls succeed.
abbrev good : Answers ℕ
good = record {
  new_fd = some 5;
  accepted = some 6;
  connects = true;
  binds = true;
  listens = true;
  sock_name = some 1;
  peer_name = some 2;
  moved = pos 3;
}

abbrev attempt : Attempt ℕ
attempt = record { addr = 8080; to_bind = good; to_probe = good; to_listen = good }

abbrev history : List (Step ℕ)
history =
    to_bind (attempt ∷ attempt ∷ []) []
    ∷ to_timeout 1000
    ∷ to_start
    ∷ to_stop
    ∷ to_close
    ∷ to_start
    ∷ []

server_accepts_nothing_example :
    let (s, calls) = steps family_of is_unix history server_new in
    (s.socks ≡ []) × All (λ t. t ≡ close_all) s.scheduled × (opens 5 calls ≡ closes 5 calls)
server_accepts_nothing_example = server_accepts_nothing family_of is_unix history 5
