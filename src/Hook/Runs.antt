-- ===== src/Hook/Runs.antt =====
-- Runs of the hooked calls of libcocao/hook.cc.
use libcocao.Base.{
  ℕ, ◌≡◌, refl, ◌⊎◌, ◌↔◌, true, false, none, some, List, [], ◌∷◌, ◌++◌, arith, if◌then◌else◌, set,
  replicate, All,
}
use libcocao.FdManager.{pos, FdCtx, System, no_limit, TimeoutType, get_timeout, Table, ok}
use libcocao.FdManager.Table.{at}
use libcocao.Hook.{
  Result, returns, fails, eintr, eagain, einprogress, refused, resumed, Round, called, add_timer,
  cancel_timer, add_event, yielded, Done, io_loop,
}
use libcocao.Hook.Io.{GoesOn, EndsWith, armed, Ended, io_loop_lem}
use libcocao.Hook.Calls.{do_io, Connecting, connect_with_timeout, socket, close}
use libcocao.Hook.Calls.Close.{close_lem}
use libcocao.Hook.Calls.Connect.{Connects, connect_lem}
use libcocao.Hook.Calls.Waits.{Blocking}
use libcocao.Hook.Options.{has_nonblock, fcntl_setfl, fcntl_getfl, so_reuseaddr, setsockopt}
use libcocao.Hook.Options.Flags.{StatusFlags, fcntl_roundtrip}
use libcocao.Hook.Options.Limits.{in_ms, is_changed, setsockopt_limits}

-- A blocking socket with a limit of a second for reading.
abbrev sock : FdCtx
sock = record {
  is_init = true;
  is_socket = true;
  sys_nonblock = true;
  user_nonblock = false;
  is_closed = false;
  fd = 3;
  recv_timeout = 1000;
  send_timeout = no_limit;
}

sock-Blocking : Blocking sock
sock-Blocking = record { unclosed = refl; socket = refl; blocks = refl }

abbrev table : Table
table = set (replicate 64 none) 3 (some sock)

abbrev sys : System
sys = record { fstat = λ _. some true; nonblocking = λ _. true }

-- Interrupted, then two waits for the event, then four bytes.
abbrev slow_read : List Round
slow_read =
    record { result = fails eintr; wait = resumed false }
    ∷ record { result = fails eagain; wait = resumed false }
    ∷ record { result = fails eagain; wait = resumed false }
    ∷ record { result = returns (pos 4); wait = resumed false }
    ∷ []

slow_read_result :
    io_loop 1000 slow_read
    ≡ some (record {
      result = returns (pos 4);
      effects =
          called ∷ called ∷ add_timer ∷ add_event ∷ yielded ∷ cancel_timer ∷ called ∷ add_timer
          ∷ add_event ∷ yielded ∷ cancel_timer ∷ called ∷ [];
    })
unfolding io_loop
slow_read_result = refl

io_loop_lem_example :
    (All (GoesOn 1000) slow_read × (io_loop 1000 slow_read ≡ none))
    ⊎ ((pre : List Round) × (r : Round) × (rest : List Round) × (x : Result) × (slow_read
          ≡ pre ++ r ∷ rest)
        × All (GoesOn 1000) pre
        × EndsWith 1000 r x
        × Ended (io_loop 1000 slow_read) x)
io_loop_lem_example = io_loop_lem 1000 slow_read

close_lem_example :
    ((close sys true true table (pos 3) ≡ ok (table, false))
      × ((t' : Table) × (socket sys true table (pos 3) ≡ ok t') × (at t' 3 ≡ some sock)))
    × ((t' : Table) × (close sys false true table (pos 3) ≡ ok (t', true)) × (at t' 3 ≡ none))
close_lem_example = close_lem sys sys true table 3 sock (omega arith) refl

-- The connection is in progress and addEvent fails.
abbrev stuck_connect : Connecting
stuck_connect = record {
  result = fails einprogress;
  wait = refused 2;
  getsockopt_errno = none;
  so_error = 0;
}

connect_lem_example :
    (d : Done) × (connect_with_timeout sys true table (pos 3) 5000 stuck_connect ≡ ok d)
    × (armed false d.effects ≡ some false)
    × ((d.result ≡ returns (pos 0)) ↔ Connects 5000 stuck_connect)
connect_lem_example = connect_lem sys table 3 5000 stuck_connect sock refl sock-Blocking

-- The kernel's flags are what was set last.
abbrev setfl : ℕ → ℕ → ℕ
setfl k a = a

abbrev getfl : ℕ → ℕ
getfl k = k

flags : StatusFlags setfl getfl
flags = record { sets_nonblock = λ k a. refl }

fcntl_roundtrip_example :
    (t' : Table) × (k' : ℕ) × (shown : ℕ) × (fcntl_setfl setfl getfl sys table (pos 3) 2 2050
      ≡ ok (t', k'))
    × (has_nonblock (getfl k') ≡ true)
    × (fcntl_getfl setfl getfl sys t' (pos 3) k' ≡ ok shown)
    × (has_nonblock shown ≡ has_nonblock 2)
fcntl_roundtrip_example =
    fcntl_roundtrip setfl getfl sys table 3 2 2050 sock flags (omega arith) refl refl refl refl

-- SO_REUSEADDR with the value 1, which is read as a timeval.
setsockopt_limits_example :
    (t' : Table) × (setsockopt sys true table (pos 3) so_reuseaddr (1, 0) ≡ ok t')
    × ((so : TimeoutType) (rs : List Round)
        → do_io sys true t' (pos 3) so rs
          ≡ ok (
              io_loop
                (if is_changed so_reuseaddr so then in_ms (1, 0) else get_timeout sock so)
                rs))
setsockopt_limits_example =
    setsockopt_limits sys table 3 so_reuseaddr (1, 0) sock (omega arith) refl sock-Blocking
