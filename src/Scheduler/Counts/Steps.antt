-- ===== src/Scheduler/Counts/Steps.antt =====
-- The counters of libcocao/schedule.cc are right in every state, and stopping tells the truth.
use libcocao.Base.{
  ℕ, zero, suc, ◌+◌, ◌≤◌, ◌≡◌, refl, ◌∙◌, ap, sym, Bool, true, false, ◌||◌, Option, none, some,
  List, [], ◌∷◌, ◌++◌, arith, if◌then◌else◌, List-cases, length, length-append, get_elem?, set,
  replicate, is_empty, is_some, Bool-cases, inl, inr,
}
use mathlib.Core.Option.{some-injective}
use libcocao.Scheduler.{
  FiberState, Work, ScheduleTask, Phase, looping, working, idling, exited, Scheduler, has_work,
  schedule_no_lock, schedule, schedule_loop, schedule_range, find_task, is_stopping, go_on,
  begin_in, begin_round, end_in, end_round, stop,
}
use libcocao.Scheduler.Pick.{find_task_lem}
use libcocao.Scheduler.Counts.{
  Move, schedules, schedules_range, begins, ends, stops, step, run, started, is_working, is_idling,
  count, workers, idlers, one, total, added, finishes, scheduled, finished, Counted, Kept,
}

module _ {C : Type 0} where
  count-set :
      (w : Phase C → ℕ) (ps : List (Phase C)) (i : ℕ) (p q : Phase C)
      → get_elem? ps i ≡ some p
      → count w (set ps i q) + w p ≡ count w ps + w q
  unfolding count
  count-set w [] i p q e = absurd (ground arith)
  count-set w (x ∷ ps) zero p q e = omega (arith, ap w (some-injective _ _ e))
  count-set w (x ∷ ps) (suc i) p q e = omega (arith, count-set w ps i p q e)

  length-schedule_loop :
      (ts : List (ScheduleTask C)) (ws : List (Work C)) (b : Bool)
      → length (schedule_loop ts ws b).0 ≡ length ts + total ws
  unfolding schedule_loop schedule_no_lock total one
  length-schedule_loop ts [] b = ground arith
  length-schedule_loop ts (w ∷ ws) b = elim (Bool-cases (has_work w)) [
    | inl h ↦
        let next : ScheduleTask C = record { work = w; thread = none } in
        rw (h, schedule_loop)
          (omega (
            arith,
            length-schedule_loop (ts ++ next ∷ []) ws (is_empty ts || b),
            length-append ts (next ∷ []),
          ))
    | inr h ↦ rw (h, schedule_loop) (omega (arith, length-schedule_loop ts ws (is_empty ts || b)))
  ]

  length-schedule :
      (s : Scheduler C) (t : ScheduleTask C)
      → length (schedule s t).0.tasks ≡ length s.tasks + one t.work
  unfolding schedule schedule_no_lock one
  length-schedule s t = ground (arith, length-append s.tasks (t ∷ []))

  go_on-Kept :
      (self : ℕ) (b : Bool) (s : Scheduler C) (x : Option (ScheduleTask C))
      → Counted s
      → get_elem? s.threads self ≡ some (looping b)
      → Kept s (go_on self b s x) 0 (if is_some x then 1 else 0)
  unfolding go_on workers idlers is_working is_idling
  go_on-Kept self b s (some t) c e = omega (
    arith,
    c.0,
    c.1,
    count-set is_working s.threads self (looping b) (working b t) e,
    count-set is_idling s.threads self (looping b) (working b t) e,
  )
  go_on-Kept self true s none c e = omega (
    arith,
    c.0,
    c.1,
    count-set is_working s.threads self (looping true) exited e,
    count-set is_idling s.threads self (looping true) exited e,
  )
  go_on-Kept self false s none c e = omega (
    arith,
    c.0,
    c.1,
    count-set is_working s.threads self (looping false) idling e,
    count-set is_idling s.threads self (looping false) idling e,
  )

  find_task-length :
      (self : ℕ) (st : ℕ → FiberState) (ts : List (ScheduleTask C))
      → length (find_task self st ts).rest + (if is_some (find_task self st ts).task then 1 else 0)
        ≡ length ts
  find_task-length self st ts = elim (find_task_lem self st ts) [
    | inl (all, q) ↦ rw q (omega arith)
    | inr (pre, t, post, split, all, free, q) ↦
        rw (q, split) (omega (arith, length-append pre post, length-append pre (t ∷ post)))
  ]

  begin_in-Kept :
      (self : ℕ) (st : ℕ → FiberState) (s : Scheduler C) (p : Option (Phase C))
      → Counted s
      → get_elem? s.threads self ≡ p
      → Kept s (begin_in self st s p) 0 0
  unfolding begin_in workers idlers
  begin_in-Kept self st s (some (looping b)) c e =
      let found = find_task self st s.tasks in
      let s' = record s { tasks = found.rest } in
      let (counted, size) = go_on-Kept self b s' found.task c e in
      (counted, omega (arith, size, find_task-length self st s.tasks))
  begin_in-Kept self st s (some (working b t)) c e = (c, omega arith)
  begin_in-Kept self st s (some idling) c e = (c, omega arith)
  begin_in-Kept self st s (some exited) c e = (c, omega arith)
  begin_in-Kept self st s none c e = (c, omega arith)

  count_one :
      (w : Phase C → ℕ) (ps : List (Phase C)) (i : ℕ) (p : Phase C)
      → get_elem? ps i ≡ some p
      → w p ≤ count w ps
  unfolding count
  count_one w [] i p e = absurd (ground arith)
  count_one w (x ∷ ps) zero p e = omega (arith, ap w (some-injective _ _ e))
  count_one w (x ∷ ps) (suc i) p e = omega (arith, count_one w ps i p e)

  end_in-Kept :
      (self : ℕ) (s : Scheduler C) (p : Option (Phase C))
      → Counted s
      → get_elem? s.threads self ≡ p
      → Kept s (end_in self s p) (elim p [ none ↦ 0 | some q ↦ is_working q ]) 0
  unfolding end_in workers idlers is_working is_idling
  end_in-Kept self s (some (working b t)) c e =
      let moved = count-set is_working s.threads self (working b t) (looping b) e in
      let kept = count-set is_idling s.threads self (working b t) (looping b) e in
      let here = count_one is_working s.threads self (working b t) e in
      ((omega (arith, c.0, moved), omega (arith, c.1, kept)), omega (arith, c.0, here))
  end_in-Kept self s (some idling) c e =
      let next : Phase C = looping (is_stopping s) in
      let moved = count-set is_working s.threads self idling next e in
      let kept = count-set is_idling s.threads self idling next e in
      ((omega (arith, c.0, moved), omega (arith, c.1, kept)), omega arith)
  end_in-Kept self s (some (looping b)) c e = (c, omega arith)
  end_in-Kept self s (some exited) c e = (c, omega arith)
  end_in-Kept self s none c e = (c, omega arith)

  step-Kept :
      (s : Scheduler C) (m : Move C) → Counted s → Kept s (step s m) (finishes s m) (added m)
  unfolding step finishes added schedule workers idlers schedule_range begin_round begin_in
      end_round end_in stop
  step-Kept s (schedules t) c = (c, omega (arith, length-schedule s t))
  step-Kept s (schedules_range ws) c = (c, omega (arith, length-schedule_loop s.tasks ws false))
  step-Kept s (begins self st) c = begin_in-Kept self st s (get_elem? s.threads self) c refl
  step-Kept s (ends self) c = end_in-Kept self s (get_elem? s.threads self) c refl
  step-Kept s stops c = elim (Bool-cases (is_stopping s)) [
    | inl h ↦ rw (h, stop) (c, omega arith)
    | inr h ↦ rw (h, stop) (c, omega arith)
  ]

  run-Kept :
      (s : Scheduler C) (ms : List (Move C))
      → Counted s
      → Kept s (run s ms) (finished s ms) (scheduled ms)
  unfolding run finished scheduled
  run-Kept s [] c = (c, omega arith)
  run-Kept s (m ∷ ms) c =
      let (c1, size1) = step-Kept s m c in
      let (c2, size2) = run-Kept (step s m) ms c1 in (c2, omega (arith, size1, size2))

  count-replicate :
      (w : Phase C → ℕ)
      → w (looping false) ≡ 0
      → (n : ℕ) → count w (replicate n (looping false)) ≡ 0
  unfolding count
  count-replicate w q zero = refl
  count-replicate w q (suc n) = omega (arith, q, count-replicate w q n)

  start-Counted :
      (s : Scheduler C) (n : ℕ)
      → s.threads ≡ replicate n (looping false)
      → s.active_count ≡ 0
      → s.idle_count ≡ 0
      → Counted s
  unfolding workers idlers is_working is_idling
  start-Counted s n e a i = (
    a ∙ sym (rw e (count-replicate is_working refl n)),
    i ∙ sym (rw e (count-replicate is_idling refl n)),
  )

  -- After any history of calls of schedule and stop and of steps of n threads, in any order, the two
  -- counters are the numbers of threads in a task and in the idle fiber, and every task scheduled
  -- is in the queue, with a thread, or returned from.
  run-Counted :
      (n : ℕ) (ms : List (Move C))
      → let s = run (started n) ms in
        Counted s × (length s.tasks + workers s + finished (started n) ms ≡ scheduled ms)
  run-Counted n ms =
      let (c, size) = run-Kept (started n) ms (start-Counted (started n) n refl refl refl) in
      (c, omega (arith, size, c.0))

  drained : (s : Scheduler C) → is_stopping s ≡ true → (s.tasks ≡ []) × (s.active_count ≡ 0)
  unfolding is_stopping
  drained s h = ground (arith, List-cases s.tasks)

  -- When stopping answers true, as many tasks have been returned from as were scheduled: the queue is
  -- empty and no thread is in a task.
  pub is_stopping_all_done :
      (n : ℕ) (ms : List (Move C))
      → is_stopping (run (started n) ms) ≡ true
      → ((run (started n) ms).tasks ≡ [])
        × (workers (run (started n) ms) ≡ 0)
        × (finished (started n) ms ≡ scheduled ms)
  is_stopping_all_done n ms h =
      let (c, size) = run-Counted n ms in
      let (empty, zero_active) = drained (run (started n) ms) h in
      (
        empty,
        omega (arith, c.0, zero_active),
        omega (arith, c.0, zero_active, size, ap length empty),
      )
