-- ===== src/Scheduler.antt =====
-- libcocao/schedule.h and libcocao/schedule.cc: the task queue and the threads that work on it. Fibers
-- are numbers, callbacks are opaque, and the state of a fiber is a parameter of each step. A step is
-- what one thread does between two points at which others can act: the section under the lock with
-- the choice that follows, or the return of what was resumed.
pub mod Pick
pub mod Counts
use libcocao.Base.{
  ℕ, zero, suc, ◌+◌, ◌-◌, Bool, true, false, not, ◌&&◌, ◌||◌, Option, none, some, List, [], ◌∷◌,
  ◌++◌, ◌==◌, if◌then◌else◌, is_some, is_empty, get_elem?, set,
}

-- Fiber::State.
pub data FiberState : Type 0 where
  ready running term : FiberState

pub is_running : FiberState → Bool
is_running running = true
is_running ready = false
is_running term = false

-- What a task holds: the two constructors of ScheduleTask, or nothing where the pointer is null.
pub data Work (C : Type 0) : Type 0 where
  nothing : Work C
  fiber : ℕ → Work C
  cb : C → Work C

-- ScheduleTask. `none` is the thread -1.
pub record ScheduleTask (C : Type 0) : Type 0 where
  pub work : Work C
  pub thread : Option ℕ

-- Where a thread is in Scheduler::run: at the top of the loop, in a task, or in the idle fiber. The
-- Boolean says whether the idle fiber has ended.
pub data Phase (C : Type 0) : Type 0 where
  looping : Bool → Phase C
  working : Bool → ScheduleTask C → Phase C
  idling exited : Phase C

-- m_tasks, m_activateThreadCount, m_idleThreadCount and m_stopping, with the threads.
pub record Scheduler (C : Type 0) : Type 0 where
  pub tasks : List (ScheduleTask C)
  pub active_count : ℕ
  pub idle_count : ℕ
  pub stopping : Bool
  pub threads : List (Phase C)

-- What the search for a task finds: the task if there is one, the tasks that stay, and `tickle_me`.
pub record Found (C : Type 0) : Type 0 where
  pub task : Option (ScheduleTask C)
  pub rest : List (ScheduleTask C)
  pub tickle_me : Bool

module _ {C : Type 0} where
  -- `task.fiber || task.cb`.
  pub has_work : Work C → Bool
  has_work nothing = false
  has_work (fiber f) = true
  has_work (cb c) = true

  -- Scheduler::scheduleNoLock: the queue, and whether to tickle.
  pub schedule_no_lock : List (ScheduleTask C) → ScheduleTask C → List (ScheduleTask C) × Bool
  unfolding has_work
  schedule_no_lock ts task = (if has_work task.work then ts ++ task ∷ [] else ts, is_empty ts)

  -- Scheduler::schedule of one task. The Boolean is the call of tickle.
  pub schedule : Scheduler C → ScheduleTask C → Scheduler C × Bool
  unfolding schedule_no_lock
  schedule s task =
      let (ts, need_tickle) = schedule_no_lock s.tasks task in
      (record s { tasks = ts }, need_tickle)

  -- The loop of Scheduler::schedule over a range.
  pub schedule_loop : List (ScheduleTask C) → List (Work C) → Bool → List (ScheduleTask C) × Bool
  unfolding schedule_no_lock
  schedule_loop ts [] need_tickle = (ts, need_tickle)
  schedule_loop ts (w ∷ ws) need_tickle =
      let (ts', empty) = schedule_no_lock ts (record { work = w; thread = none }) in
      schedule_loop ts' ws (empty || need_tickle)

  pub schedule_range : Scheduler C → List (Work C) → Scheduler C × Bool
  unfolding schedule_loop
  schedule_range s ws =
      let (ts, need_tickle) = schedule_loop s.tasks ws false in
      (record s { tasks = ts }, need_tickle)

  -- `it->thread != -1 && it->thread != GetThreadId()`.
  pub elsewhere : ℕ → ScheduleTask C → Bool
  elsewhere self task = elim task.thread [ none ↦ false | some t ↦ not (t == self) ]

  -- `it->fiber && it->fiber->getState() == Fiber::RUNNING`.
  pub is_busy : (ℕ → FiberState) → ScheduleTask C → Bool
  unfolding is_running
  is_busy st task = elim task.work [ nothing ↦ false | fiber f ↦ is_running (st f) | cb c ↦ false ]

  -- The search under the lock in Scheduler::run.
  pub find_task : ℕ → (ℕ → FiberState) → List (ScheduleTask C) → Found C
  unfolding elsewhere is_busy
  find_task self st [] = record { task = none; rest = []; tickle_me = false }
  find_task self st (t ∷ ts) =
      let later = find_task self st ts in
      if elsewhere self t
      then record { task = later.task; rest = t ∷ later.rest; tickle_me = true }
      else if is_busy st t
      then record later { rest = t ∷ later.rest }
      else record { task = some t; rest = ts; tickle_me = not (is_empty ts) }

  -- Scheduler::stopping.
  pub is_stopping : Scheduler C → Bool
  is_stopping s = s.stopping && is_empty s.tasks && s.active_count == 0

  -- The thread goes on with the task found, resumes the idle fiber, or leaves the loop.
  pub go_on : ℕ → Bool → Scheduler C → Option (ScheduleTask C) → Scheduler C
  go_on self idle_ended s (some t) = record s {
    active_count = s.active_count + 1;
    threads = set s.threads self (working idle_ended t);
  }
  go_on self true s none = record s { threads = set s.threads self exited }
  go_on self false s none = record s {
    idle_count = s.idle_count + 1;
    threads = set s.threads self idling;
  }

  -- One round of Scheduler::run from the top of the loop to the next resume or the end, for a thread
  -- in the given phase.
  pub begin_in : ℕ → (ℕ → FiberState) → Scheduler C → Option (Phase C) → Scheduler C
  unfolding go_on find_task
  begin_in self st s (some (looping idle_ended)) =
      let found = find_task self st s.tasks in
      go_on self idle_ended (record s { tasks = found.rest }) found.task
  begin_in self st s (some (working b t)) = s
  begin_in self st s (some idling) = s
  begin_in self st s (some exited) = s
  begin_in self st s none = s

  pub begin_round : ℕ → (ℕ → FiberState) → Scheduler C → Scheduler C
  unfolding begin_in
  begin_round self st s = begin_in self st s (get_elem? s.threads self)

  -- What was resumed yields or ends. The idle fiber is resumed once around the loop of
  -- Scheduler::idle, and ends where stopping answers true.
  pub end_in : ℕ → Scheduler C → Option (Phase C) → Scheduler C
  unfolding is_stopping
  end_in self s (some (working idle_ended t)) = record s {
    active_count = s.active_count - 1;
    threads = set s.threads self (looping idle_ended);
  }
  end_in self s (some idling) = record s {
    idle_count = s.idle_count - 1;
    threads = set s.threads self (looping (is_stopping s));
  }
  end_in self s (some (looping b)) = s
  end_in self s (some exited) = s
  end_in self s none = s

  pub end_round : ℕ → Scheduler C → Scheduler C
  unfolding end_in
  end_round self s = end_in self s (get_elem? s.threads self)

  -- Scheduler::stop, before it waits for the threads.
  pub stop : Scheduler C → Scheduler C
  unfolding is_stopping
  stop s = if is_stopping s then s else record s { stopping = true }
