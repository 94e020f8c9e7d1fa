-- ===== src/IoManager/Runs.antt =====
-- Runs of iomanager.cc at concrete inputs, and its theorems at these. Functions are numbers.

use mathlib.Core.Path.{fun_ext}
use libcocao.Base.{
  ℕ, ◌+◌, ◌≡◌, refl, ◌≢◌, Bool, true, false, not, ◌&&◌, ◌||◌, none, some, ◌++◌, arith, ◌==◌,
  if◌then◌else◌, get_elem?, All,
}
use libcocao.IoManager.{
  read, write, FdContext, Ctl, CtlOp, ctl_add, ctl_mod, ctl_del, IoManager, ok, crash, Caller,
  new_context, context_resize, new_manager, grown, add_event, register, add_at, get_event_context,
  put_event_context, join, cancel_all, deliver_at,
}
use libcocao.IoManager.Masks.{reports}
use libcocao.IoManager.Contexts.{event_armed, filled, registered}
use libcocao.IoManager.Inv.{Inv, new_manager-Inv, registered-Inv}
use libcocao.IoManager.Delivery.{add_call, added_at, add_event_lem}
use libcocao.IoManager.CancelAll.{one_if, tasks_if, both, both_context, Handled, cancel_all_lem}
use libcocao.IoManager.Idle.{acted, rearm_call, deliver_lem}
use libcocao.IoManager.Unregistered.{Epoll, here, only_grown, add_event_never_succeeds}

-- An epoll that accepts every call.
abbrev lenient : Ctl (Unit {0})
lenient s o fd v = (s, false)

abbrev worker : Caller
worker = record { scheduler = some 1; fiber = 9; running = true }

abbrev fresh : IoManager ℕ (Unit {0})
fresh = new_manager tt

abbrev reading : FdContext ℕ
reading = registered (new_context 5) read (filled worker none)

-- Fiber 9 waits to read from descriptor 5.
abbrev waiting : IoManager ℕ (Unit {0})
waiting = added_at fresh 5 read worker none (new_context 5)

fresh_found : get_elem? fresh.contexts 5 ≡ some (new_context 5)
unfolding new_manager context_resize
fresh_found = refl

waiting_found : get_elem? waiting.contexts 5 ≡ some reading
unfolding new_manager context_resize
waiting_found = refl

waiting-Inv : Inv waiting
waiting-Inv =
    registered-Inv fresh 5 read worker none (new_context 5) tt (new_manager-Inv tt) fresh_found
      (λ e. cc) refl refl

waits : add_event lenient fresh worker 5 read none ≡ ok (waiting, true)
unfolding add_event add_at register new_manager context_resize grown get_event_context
    put_event_context join
waits = refl

add_event_lem_example :
    let g = record waiting { contexts = grown waiting.contexts 40 } in
    (c : FdContext ℕ) × (get_elem? g.contexts 40 ≡ some c)
    × (add_event lenient waiting worker 40 write (some 3) ≡ (
        let r = add_call lenient g 40 write c in
        let m' = record g { epoll = r.0 } in
        if r.1
        then ok (m', false)
        else if event_armed c write
        then crash
        else ok (added_at m' 40 write worker (some 3) c, true)))
    × (event_armed c write ≡ false
        → Inv (
            added_at
              (record g { epoll = (add_call lenient g 40 write c).0 })
              40
              write
              worker
              (some 3)
              c))
add_event_lem_example =
    add_event_lem lenient waiting worker 40 write (some 3) waiting-Inv (omega arith) (λ e. cc) refl
      refl

cancel_all_lem_example :
    let r = lenient waiting.epoll ctl_del 5 0 in
    let m' = record waiting { epoll = r.0 } in
    (cancel_all lenient waiting 5 ≡ (
      if not (true || false)
      then ok (waiting, false)
      else if r.1
      then ok (m', false)
      else ok (both true false m' 5 reading, true)))
    × Handled waiting 5
        (tasks_if true reading read ++ tasks_if false reading write)
        (one_if false + one_if true)
        (both true false m' 5 reading)
        (both_context true false reading)
    × (((both_context true false reading).events == 0) ≡ true)
cancel_all_lem_example = cancel_all_lem lenient waiting 5 reading waiting-Inv waiting_found

-- EPOLLHUP alone, while a fiber waits to read.
deliver_lem_example :
    let x = acted false true true in
    let y = acted false true false in
    let r = rearm_call lenient waiting reading x y in
    let m' = record waiting { epoll = r.0 } in
    (deliver_at lenient waiting 5 (reports false false false true) reading
      ≡ (if not (x || y) then ok waiting else if r.1 then ok m' else ok (both x y m' 5 reading)))
    × Handled waiting 5
        (tasks_if x reading read ++ tasks_if y reading write)
        (one_if y + one_if x)
        (both x y m' 5 reading)
        (both_context x y reading)
deliver_lem_example =
    deliver_lem lenient waiting 5 reading false false false true waiting-Inv waiting_found (λ e. cc)
      (λ e. cc)

-- An epoll that keeps the set of the descriptors that it watches.
abbrev table_ctl : Ctl (ℕ → Bool)
table_ctl s ctl_add fd v = (λ x. (x == fd) || s x, false)
table_ctl s ctl_mod fd v = (s, not (s fd))
table_ctl s ctl_del fd v = (λ x. s x && not ((x == fd) && s fd), not (s fd))

table_failed :
    (s : ℕ → Bool) (o : CtlOp) (fd v : ℕ)
    → (table_ctl s o fd v).1 ≡ true
    → (table_ctl s o fd v).0 ≡ s
table_failed s ctl_add fd v h = absurd (ground arith)
table_failed s ctl_mod fd v h = refl
table_failed s ctl_del fd v h = fun_ext (λ x. ground arith)

abbrev table : Epoll (ℕ → Bool)
table = record {
  ctl = table_ctl;
  watched = λ s fd. s fd;
  del_unwatched = λ s fd v h. rw h;
  failed_same = table_failed;
}

-- The pipe is descriptor 3.
abbrev only_pipe : ℕ → Bool
only_pipe x = x == 3

only_pipe_lem : (fd : ℕ) → fd ≢ 3 → only_pipe fd ≡ false
only_pipe_lem fd n = ground arith

abbrev booted : IoManager ℕ (ℕ → Bool)
booted = new_manager only_pipe

add_event_never_succeeds_example :
    (add_event table_ctl booted worker 5 read none ≡ ok (only_grown table booted 5, false))
    × All (λ c. c.events ≡ 0) booted.contexts
add_event_never_succeeds_example =
    add_event_never_succeeds table 3 only_pipe booted worker 5 read none only_pipe_lem here
      (λ e. absurd (omega arith))
