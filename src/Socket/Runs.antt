-- ===== src/Socket/Runs.antt =====
-- Runs of the sockets of libcocao/socket.cc, with numbers for addresses, all of one family.
use libcocao.Base.{ℕ, Bool, true, false, some, List, [], ◌∷◌}
use libcocao.FdManager.{pos}
use libcocao.Socket.{Answers}
use libcocao.Socket.History.{
  Operation, to_bind, to_connect, to_reconnect, to_listen, to_close, to_transfer,
}

abbrev family_of : ℕ → ℕ
family_of a = 2

abbrev is_unix : ℕ → Bool
is_unix a = false

-- All calls succeed.
abbrev good : Answers ℕ
good = record {
  new_fd = some 5;
  accepted = some 6;
  connects = true;
  binds = true;
  listens = true;
  sock_name = some 1;
  peer_name = some 2;
  moved = pos 3;
}

-- The peer refuses.
abbrev refused : Answers ℕ
refused = record good { connects = false }

abbrev history : List (Operation ℕ)
history =
    to_connect refused 7
    ∷ to_reconnect good
    ∷ to_transfer good
    ∷ to_close
    ∷ to_bind good good 8
    ∷ to_listen good
    ∷ []
