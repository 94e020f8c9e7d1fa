-- ===== src/Scheduler/Counts.antt =====
-- The counters of libcocao/schedule.cc over whole runs, and what Scheduler::stopping promises.
pub mod Steps
mod Runs
use libcocao.Base.{
  ℕ, zero, suc, ◌+◌, ◌-◌, ◌≤◌, ◌<◌, ◌≡◌, refl, ◌∙◌, ap, sym, Bool, true, false, not, ◌&&◌, ◌||◌,
  Option, none, some, List, [], ◌∷◌, ◌++◌, arith, ◌==◌, ==_iff, if◌then◌else◌, List-cases, length,
  length-append, get_elem?, set, replicate, is_empty, is_some, Bool-cases, Option-cases, inl, inr,
}
use mathlib.Core.Option.{some-injective}
use libcocao.Scheduler.{
  FiberState, Work, ScheduleTask, Phase, looping, working, idling, exited, Scheduler, Found,
  has_work, schedule_no_lock, schedule, schedule_loop, schedule_range, find_task, is_stopping,
  go_on, begin_in, begin_round, end_in, end_round, stop,
}
use libcocao.Scheduler.Pick.{find_task_lem}

-- What happens to a scheduler.
pub data Move (C : Type 0) : Type 0 where
  schedules : ScheduleTask C → Move C
  schedules_range : List (Work C) → Move C
  begins : ℕ → (ℕ → FiberState) → Move C
  ends : ℕ → Move C
  stops : Move C

module _ {C : Type 0} where
  pub step : Scheduler C → Move C → Scheduler C
  step s (schedules t) = (schedule s t).0
  step s (schedules_range ws) = (schedule_range s ws).0
  step s (begins self st) = begin_round self st s
  step s (ends self) = end_round self s
  step s stops = stop s

  pub run : Scheduler C → List (Move C) → Scheduler C
  unfolding step
  run s [] = s
  run s (m ∷ ms) = run (step s m) ms

  -- A scheduler whose threads have just started.
  abbrev pub started : ℕ → Scheduler C
  started n = record {
    tasks = [];
    active_count = 0;
    idle_count = 0;
    stopping = false;
    threads = replicate n (looping false);
  }

  is_working : Phase C → ℕ
  is_working (looping b) = 0
  is_working (working b t) = 1
  is_working idling = 0
  is_working exited = 0

  is_idling : Phase C → ℕ
  is_idling (looping b) = 0
  is_idling (working b t) = 0
  is_idling idling = 1
  is_idling exited = 0

  pub count : (Phase C → ℕ) → List (Phase C) → ℕ
  count w [] = 0
  count w (p ∷ ps) = w p + count w ps

  pub workers : Scheduler C → ℕ
  unfolding count is_working
  workers s = count is_working s.threads

  pub idlers : Scheduler C → ℕ
  unfolding count is_idling
  idlers s = count is_idling s.threads

  -- The works of a range or a task that are added to the queue.
  pub one : Work C → ℕ
  unfolding has_work
  one w = if has_work w then 1 else 0

  pub total : List (Work C) → ℕ
  unfolding one
  total [] = 0
  total (w ∷ ws) = one w + total ws

  pub added : Move C → ℕ
  unfolding one total
  added (schedules t) = one t.work
  added (schedules_range ws) = total ws
  added (begins self st) = 0
  added (ends self) = 0
  added stops = 0

  -- Whether the move is a thread's return from a task.
  pub finishes : Scheduler C → Move C → ℕ
  unfolding is_working
  finishes s (schedules t) = 0
  finishes s (schedules_range ws) = 0
  finishes s (begins self st) = 0
  finishes s (ends self) = elim (get_elem? s.threads self) [ none ↦ 0 | some p ↦ is_working p ]
  finishes s stops = 0

  -- The tasks scheduled and the tasks returned from, over a run.
  pub scheduled : List (Move C) → ℕ
  unfolding added
  scheduled [] = 0
  scheduled (m ∷ ms) = added m + scheduled ms

  pub finished : Scheduler C → List (Move C) → ℕ
  unfolding finishes step
  finished s [] = 0
  finished s (m ∷ ms) = finishes s m + finished (step s m) ms

  -- The counters are right.
  abbrev pub Counted : Scheduler C → Type 0
  Counted s = (s.active_count ≡ workers s) × (s.idle_count ≡ idlers s)

  -- A step that keeps the counters right and loses no task.
  abbrev Kept : Scheduler C → Scheduler C → ℕ → ℕ → Type 0
  Kept s s' out in_ =
      Counted s' × (length s'.tasks + s'.active_count + out ≡ length s.tasks + s.active_count + in_)
