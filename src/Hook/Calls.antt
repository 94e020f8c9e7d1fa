-- ===== src/Hook/Calls.antt =====
-- The hooked calls of libcocao/hook.cc that wait: do_io, connect_with_timeout and the sleeps, with
-- socket, accept and close.
pub mod Connect
pub mod Close
mod Runs
pub mod Sleeps
pub mod Waits
use libcocao.Base.{
  ℕ, zero, suc, ◌+◌, ◌-◌, ◌*◌, ◌/◌, ◌%◌, ◌^◌, Bool, true, false, not, ◌&&◌, ◌||◌, Option, none,
  some, List, [], ◌∷◌, ◌++◌, ltb, ◌==◌, if◌then◌else◌,
}
use libcocao.FdManager.{
  ℤ, pos, negsuc, FdCtx, System, TimeoutType, rcvtimeo, get_timeout, Table, Outcome, ok, fault, get,
  del,
}
use libcocao.Hook.{
  Result, returns, fails, ebadf, etimedout, einprogress, Wait, refused, resumed, Round, Effect,
  called, add_timer, cancel_timer, add_event, yielded, Done, has_limit, arm, disarm, io_loop,
}

-- The conversion to int.
unfoldable pub to_int : ℤ → ℤ
to_int (pos n) = let r = n % 2 ^ 32 in if ltb r (2 ^ 31) then pos r else negsuc (2 ^ 32 - 1 - r)
to_int (negsuc n) = let r = n % 2 ^ 32 in if ltb r (2 ^ 31) then negsuc r else pos (2 ^ 32 - 1 - r)

as_int : Result → Result
unfolding to_int
as_int (returns n) = returns (to_int n)
as_int (fails e) = fails e

-- One call of the system's function, its result as it is or as an int.
pub plain : (Result → Result) → List Round → Option Done
plain f [] = none
plain f (r ∷ rs) = some (record { result = f r.result; effects = called ∷ [] })

-- do_io, where the hook is on, for the context in the table.
pub io_on : Option FdCtx → TimeoutType → List Round → Option Done
unfolding plain as_int io_loop
io_on none so rs = plain as_int rs
io_on (some c) so rs =
    if c.is_closed
    then some (record { result = fails ebadf; effects = [] })
    else if not c.is_socket || c.user_nonblock
    then plain (λ r. r) rs
    else io_loop (get_timeout c so) rs

-- do_io.
pub do_io : System → Bool → Table → ℤ → TimeoutType → List Round → Outcome (Option Done)
unfolding plain io_on
do_io s hook t fd so rs =
    if hook
    then elim (get s t fd false) [ fault ↦ fault | ok r ↦ ok (io_on r.1 so rs) ]
    else ok (plain (λ r. r) rs)

-- How connect goes: what connect_f returned, the wait, and what getsockopt said of SO_ERROR: `none`
-- if it failed with the errno, and else the error.
pub record Connecting : Type 0 where
  pub result : Result
  pub wait : Wait
  pub getsockopt_errno : Option ℕ
  pub so_error : ℕ

-- The end of connect_with_timeout.
pub connect_result : Connecting → Result
connect_result w = elim w.getsockopt_errno [
  | some e ↦ fails e
  | none ↦ if w.so_error == 0 then returns (pos 0) else fails w.so_error
]

-- The wait of connect_with_timeout. Where addEvent fails SO_ERROR is read all the same.
pub connect_wait : ℕ → Connecting → Done
unfolding connect_result has_limit arm disarm
connect_wait to w = elim w.wait [
  | refused e ↦ record {
    result = connect_result w;
    effects = called ∷ arm (has_limit to) ++ add_event ∷ disarm (has_limit to);
  }
  | resumed fired ↦ record {
    result = if has_limit to && fired then fails etimedout else connect_result w;
    effects = called ∷ arm (has_limit to) ++ add_event ∷ yielded ∷ disarm (has_limit to);
  }
]

connect_on : Option FdCtx → ℕ → Connecting → Done
unfolding connect_wait
connect_on none to w = record { result = fails ebadf; effects = [] }
connect_on (some c) to w =
    let once : Done = record { result = w.result; effects = called ∷ [] } in
    if c.is_closed
    then record { result = fails ebadf; effects = [] }
    else if not c.is_socket || c.user_nonblock
    then once
    else elim w.result [
      | returns n ↦ once
      | fails e ↦ if e == einprogress then connect_wait to w else once
    ]

pub connect_with_timeout : System → Bool → Table → ℤ → ℕ → Connecting → Outcome Done
unfolding connect_on
connect_with_timeout s hook t fd to w =
    if hook
    then elim (get s t fd false) [ fault ↦ fault | ok r ↦ ok (connect_on r.1 to w) ]
    else ok (record { result = w.result; effects = called ∷ [] })

-- s_connect_timeout after _HookIniter.
abbrev pub connect_timeout : ℕ
connect_timeout = 5000

pub connect : System → Bool → Table → ℤ → Connecting → Outcome Done
unfolding connect_with_timeout
connect s hook t fd w = connect_with_timeout s hook t fd connect_timeout w

-- socket: the table after socket_f has returned `fd`. The descriptor is in the result.
pub socket : System → Bool → Table → ℤ → Outcome Table
socket s hook t fd = if hook then elim (get s t fd true) [ fault ↦ fault | ok r ↦ ok r.0 ] else ok t

-- accept: the table is told of a descriptor that is returned.
pub accept : System → Bool → Table → ℤ → List Round → Outcome (Table × Option Done)
unfolding do_io
accept s hook t fd rs = elim (do_io s hook t fd rcvtimeo rs) [
  | fault ↦ fault
  | ok none ↦ ok (t, none)
  | ok (some d) ↦ elim d.result [
    | fails e ↦ ok (t, some d)
    | returns (negsuc n) ↦ ok (t, some d)
    | returns (pos n) ↦ elim (get s t (pos n) true) [ fault ↦ fault | ok r ↦ ok (r.0, some d) ]
  ]
]

-- close: the table afterwards, and whether IOManager::cancelAll is called for the descriptor. In any
-- case close_f is called.
pub close : System → Bool → Bool → Table → ℤ → Outcome (Table × Bool)
close s hook has_iomanager t fd = if hook then ok (t, false) else elim (get s t fd false) [
  | fault ↦ fault
  | ok (t', none) ↦ ok (t', false)
  | ok (t', some c) ↦ elim (del t' fd) [ fault ↦ fault | ok t'' ↦ ok (t'', has_iomanager) ]
]

-- The time in milliseconds of the timer that wakes the sleeper. `seconds * 1000` is an unsigned int.
pub sleep_ms : ℕ → ℕ
sleep_ms seconds = seconds * 1000 % 2 ^ 32

-- usec is an unsigned int.
pub usleep_ms : ℕ → ℕ
usleep_ms usec = usec / 1000

-- nanosleep keeps the time in an int and passes it on as a uint64_t.
pub nanosleep_ms : ℕ → ℕ → ℕ
nanosleep_ms sec nsec =
    let r = (sec * 1000 + nsec / 1000 / 1000) % 2 ^ 32 in
    if ltb r (2 ^ 31) then r else 2 ^ 64 - 2 ^ 32 + r
