-- ===== src/Hook/Calls/Connect.antt =====
-- connect of libcocao/hook.cc: when it succeeds, and its timer.
use libcocao.Base.{
  ℕ, ◌≡◌, ◌≢◌, refl, ◌⊎◌, ◌↔◌, inl, inr, Bool, true, false, ◌&&◌, Option, none, some, [], ◌∷◌, ◌++◌,
  ◌==◌, ==_iff, arith, Bool-cases,
}
use libcocao.FdManager.{pos, FdCtx, System, Table, ok}
use libcocao.FdManager.Table.{at, get_peek}
use libcocao.Hook.{
  Result, returns, fails, einprogress, Wait, refused, resumed, called, add_event, yielded, Done,
  has_limit, arm, disarm,
}
use libcocao.Hook.Io.{armed}
use libcocao.Hook.Calls.{Connecting, connect_result, connect_wait, connect_on, connect_with_timeout}
use libcocao.Hook.Calls.Waits.{Blocking}

-- Whether the timer of a limit has fired while connect waited.
pub timed_out : ℕ → Wait → Bool
timed_out to (refused e) = false
timed_out to (resumed fired) = has_limit to && fired

-- When connect succeeds.
abbrev pub Connects : ℕ → Connecting → Type 0
Connects to w =
    (w.result ≡ returns (pos 0))
    ⊎ ((w.result ≡ fails einprogress)
        × (timed_out to w.wait ≡ false)
        × (w.getsockopt_errno ≡ none)
        × (w.so_error ≡ 0))

abbrev Connected : ℕ → Connecting → Done → Type 0
Connected to w d =
    (armed false d.effects ≡ some false) × ((d.result ≡ returns (pos 0)) ↔ Connects to w)

abbrev connecting : Result → Wait → Option ℕ → ℕ → Connecting
connecting x y z n = record { result = x; wait = y; getsockopt_errno = z; so_error = n }

timers_lem :
    (b fired : Bool)
    → (armed false (called ∷ arm b ++ add_event ∷ disarm b) ≡ some false)
      × (armed false (called ∷ arm b ++ add_event ∷ yielded ∷ disarm b) ≡ some false)
unfolding arm disarm armed
timers_lem true fired = (refl, refl)
timers_lem false fired = (refl, refl)

wait_lem :
    (to : ℕ) (y : Wait) (z : Option ℕ) (n : ℕ)
    → Connected to
        (connecting (fails einprogress) y z n)
        (connect_wait to (connecting (fails einprogress) y z n))
unfolding connect_wait connect_result timed_out
wait_lem to (refused e) z n = ((timers_lem (has_limit to) false).0, ground arith)
wait_lem to (resumed fired) z n = ((timers_lem (has_limit to) fired).1, ground arith)

once_lem :
    (to : ℕ) (w : Connecting)
    → w.result ≢ fails einprogress
    → Connected to w (record { result = w.result; effects = called ∷ [] })
unfolding armed
once_lem to w h = (refl, ground (arith, h))

on_lem :
    (to : ℕ) (x : Result) (y : Wait) (z : Option ℕ) (n : ℕ) (c : FdCtx)
    → Blocking c
    → Connected to (connecting x y z n) (connect_on (some c) to (connecting x y z n))
unfolding connect_on
on_lem to (returns m) y z n c b =
    rw (b.unclosed, b.socket, b.blocks)
      (once_lem to (connecting (returns m) y z n) (λ q. ground arith))
on_lem to (fails e) y z n c b =
    rw (b.unclosed, b.socket, b.blocks)
      (elim (Bool-cases (e == einprogress)) [
        | inl q ↦ rw ((==_iff e einprogress).0 q) (wait_lem to y z n)
        | inr q ↦ rw q (once_lem to (connecting (fails e) y z n) (λ q'. ground arith))
      ])

-- connect on a blocking socket of the table. It returns, every timer it added is cancelled, and it
-- answers 0 exactly in these cases: connect_f has succeeded; or it is in progress, and SO_ERROR is
-- read as 0 after a wait in which no limit of time has run out, or at once where addEvent fails.
pub connect_lem :
    (s : System) (t : Table) (fd to : ℕ) (w : Connecting) (c : FdCtx)
    → at t fd ≡ some c
    → Blocking c
    → (d : Done) × (connect_with_timeout s true t (pos fd) to w ≡ ok d)
      × (armed false d.effects ≡ some false)
      × ((d.result ≡ returns (pos 0)) ↔ Connects to w)
unfolding connect_with_timeout
connect_lem s t fd to w c e b =
    let (timers, zero_iff) = on_lem to w.result w.wait w.getsockopt_errno w.so_error c b in
    (connect_on (some c) to w, rw (get_peek s t fd, e, connect_with_timeout) refl, timers, zero_iff)
