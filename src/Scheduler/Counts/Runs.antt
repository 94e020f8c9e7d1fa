-- ===== src/Scheduler/Counts/Runs.antt =====
-- Runs of the scheduler of libcocao/schedule.cc.
use libcocao.Base.{ℕ, ◌≡◌, refl, ◌⊎◌, true, Option, none, some, List, [], ◌∷◌, ◌==◌, if◌then◌else◌}
use libcocao.Scheduler.{
  FiberState, ready, running, Work, nothing, fiber, cb, ScheduleTask, find_task, begin_round,
  end_round, stop, schedule_range, is_stopping,
}
use libcocao.Scheduler.Pick.{Taken, NotTaken, find_task_lem}
use libcocao.Scheduler.Counts.{
  Move, schedules_range, begins, ends, stops, run, started, workers, scheduled, finished,
}
use libcocao.Scheduler.Counts.Steps.{is_stopping_all_done}

-- Fiber 7 runs on another thread.
abbrev states : ℕ → FiberState
states f = if f == 7 then running else ready

abbrev task : Work ℕ → Option ℕ → ScheduleTask ℕ
task w t = record { work = w; thread = t }

abbrev queue : List (ScheduleTask ℕ)
queue = task (fiber 7) none ∷ task (cb 1) (some 2) ∷ task (cb 2) (some 1) ∷ task (cb 3) none ∷ []

-- Thread 1 passes by the running fiber and the task for thread 2.
found : find_task 1 states queue ≡ record {
  task = some (task (cb 2) (some 1));
  rest = task (fiber 7) none ∷ task (cb 1) (some 2) ∷ task (cb 3) none ∷ [];
  tickle_me = true;
}
unfolding find_task
found = refl

find_task_lem_example :
    NotTaken 1 states queue (find_task 1 states queue)
    ⊎ Taken 1 states queue (find_task 1 states queue)
find_task_lem_example = find_task_lem 1 states queue

-- Two threads run two tasks; a null callback is dropped.
abbrev moves : List (Move ℕ)
moves =
    schedules_range (cb 1 ∷ nothing ∷ cb 2 ∷ [])
    ∷ begins 0 states
    ∷ begins 1 states
    ∷ stops
    ∷ ends 1
    ∷ begins 1 states
    ∷ ends 0
    ∷ ends 1
    ∷ []

is_stopping_all_done_example :
    ((run (started 2) moves).tasks ≡ [])
    × (workers (run (started 2) moves) ≡ 0)
    × (finished (started 2) moves ≡ scheduled moves)
unfolding run is_stopping end_round begin_round stop schedule_range
is_stopping_all_done_example = is_stopping_all_done 2 moves refl
