-- ===== src/Scheduler/Pick.antt =====
-- The search for a task in Scheduler::run of libcocao/schedule.cc.
use libcocao.Base.{
  ℕ, ◌≡◌, refl, ap, Bool, true, false, not, ◌||◌, none, some, List, [], ◌∷◌, ◌++◌, is_empty, ◌⊎◌,
  inl, inr, Bool-cases, All,
}
use libcocao.Scheduler.{FiberState, ScheduleTask, Found, elsewhere, is_busy, find_task}

module _ {C : Type 0} where
  -- The tasks that a thread passes by.
  abbrev pub Skipped : ℕ → (ℕ → FiberState) → ScheduleTask C → Type 0
  Skipped self st t = (elsewhere self t || is_busy st t) ≡ true

  pub any_elsewhere : ℕ → List (ScheduleTask C) → Bool
  any_elsewhere self [] = false
  any_elsewhere self (t ∷ ts) = elsewhere self t || any_elsewhere self ts

  abbrev pub Taken : ℕ → (ℕ → FiberState) → List (ScheduleTask C) → Found C → Type 0
  Taken self st ts r =
      (pre : List (ScheduleTask C)) × (t : ScheduleTask C) × (post : List (ScheduleTask C)) × (ts
        ≡ pre ++ t ∷ post)
      × All (Skipped self st) pre
      × ((elsewhere self t || is_busy st t) ≡ false)
      × (r ≡ record {
        task = some t;
        rest = pre ++ post;
        tickle_me = any_elsewhere self pre || not (is_empty post);
      })

  abbrev pub NotTaken : ℕ → (ℕ → FiberState) → List (ScheduleTask C) → Found C → Type 0
  NotTaken self st ts r =
      All (Skipped self st) ts
      × (r ≡ record { task = none; rest = ts; tickle_me = any_elsewhere self ts })

  -- A thread takes the first task that is not meant for another thread and whose fiber is not running
  -- elsewhere; the others stay in their order. It tickles where it passed by a task for another
  -- thread or where tasks follow the one taken.
  pub find_task_lem :
      (self : ℕ) (st : ℕ → FiberState) (ts : List (ScheduleTask C))
      → NotTaken self st ts (find_task self st ts) ⊎ Taken self st ts (find_task self st ts)
  unfolding find_task any_elsewhere
  find_task_lem self st [] = inl (tt, refl)
  find_task_lem self st (t ∷ ts) = elim (Bool-cases (elsewhere self t)) [
    | inl e ↦ elim (find_task_lem self st ts) [
      | inl (all, q) ↦ inl ((rw e refl, all), rw (e, q) refl)
      | inr (pre, x, post, split, all, free, q) ↦
          inr (t ∷ pre, x, post, ap (λ l. t ∷ l) split, (rw e refl, all), free, rw (e, q) refl)
    ]
    | inr e ↦ elim (Bool-cases (is_busy st t)) [
      | inl b ↦ elim (find_task_lem self st ts) [
        | inl (all, q) ↦ inl ((rw (e, b) refl, all), rw (e, b, q) refl)
        | inr (pre, x, post, split, all, free, q) ↦ inr (
          t ∷ pre,
          x,
          post,
          ap (λ l. t ∷ l) split,
          (rw (e, b) refl, all),
          free,
          rw (e, b, q) refl,
        )
      ]
      | inr b ↦ inr ([], t, ts, refl, tt, rw (e, b) refl, rw (e, b) refl)
    ]
  ]
