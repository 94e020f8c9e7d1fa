-- ===== src/Hook.antt =====
-- libcocao/hook.cc: the system calls that yield the fiber where they would block. The functions
-- behind the hooks, epoll and the scheduler are parameters. A call of do_io meets a script of rounds:
-- what each call of the system's function returned and how the wait after EAGAIN ended. The log is
-- left out.
pub mod Calls
pub mod Options
pub mod Io
mod Runs
use libcocao.Base.{
  ℕ, zero, suc, ◌+◌, ◌-◌, ◌*◌, ◌/◌, ◌%◌, ◌^◌, Bool, true, false, not, ◌&&◌, ◌||◌, Option, none,
  some, List, [], ◌∷◌, ◌++◌, ltb, ◌==◌, if◌then◌else◌,
}
use libcocao.FdManager.{
  ℤ, pos, negsuc, FdCtx, no_limit, TimeoutType, rcvtimeo, sndtimeo, set_timeout, get_timeout, Table,
  Outcome, ok, fault, get, del,
}

-- What a system function returned: `fails e` is -1 with the errno e.
pub data Result : Type 0 where
  returns : ℤ → Result
  fails : ℕ → Result

abbrev pub eintr : ℕ
eintr = 4

abbrev pub ebadf : ℕ
ebadf = 9

abbrev pub eagain : ℕ
eagain = 11

abbrev pub etimedout : ℕ
etimedout = 110

abbrev pub einprogress : ℕ
einprogress = 115

-- The wait after EAGAIN: addEvent returns -1 with an errno, or the fiber yields and is resumed.
-- The Boolean says whether the callback of a timer of this call has run by then.
pub data Wait : Type 0 where
  refused : ℕ → Wait
  resumed : Bool → Wait

-- One call of the system's function and the wait that follows if it would block.
pub record Round : Type 0 where
  pub result : Result
  pub wait : Wait

-- What the thread does on the way.
pub data Effect : Type 0 where
  called add_timer cancel_timer add_event yielded : Effect

-- errno is part of the result.
pub record Done : Type 0 where
  pub result : Result
  pub effects : List Effect

-- `to != (uint64_t)-1`.
pub has_limit : ℕ → Bool
has_limit to = not (to == no_limit)

before : List Effect → Option Done → Option Done
before es none = none
before es (some d) = some (record d { effects = es ++ d.effects })

arm : Bool → List Effect
arm limited = if limited then add_timer ∷ [] else []

disarm : Bool → List Effect
disarm limited = if limited then cancel_timer ∷ [] else []

-- What follows the result of a call: return it, call again, or wait. `rest` is what the next round
-- leads to.
pub after : ℕ → Round → Option Done → Option Done
unfolding has_limit before arm disarm
after to r rest = elim r.result [
  | returns n ↦ some (record { result = returns n; effects = called ∷ [] })
  | fails e ↦
      if e == eintr
      then before (called ∷ []) rest
      else if e == eagain
      then wait_for r.wait
      else some (record { result = fails e; effects = called ∷ [] })
]
  where
    wait_for : Wait → Option Done
    wait_for (refused e) = some (record {
      result = fails e;
      effects = called ∷ arm (has_limit to) ++ add_event ∷ disarm (has_limit to);
    })
    wait_for (resumed fired) =
        let waited = called ∷ arm (has_limit to) ++ add_event ∷ yielded ∷ disarm (has_limit to) in
        if has_limit to && fired
        then some (record { result = fails etimedout; effects = waited })
        else before waited rest

-- The loop of do_io from the label retry. `none` means that the script ends first.
pub io_loop : ℕ → List Round → Option Done
unfolding after
io_loop to [] = none
io_loop to (r ∷ rs) = after to r (io_loop to rs)
