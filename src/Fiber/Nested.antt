-- ===== src/Fiber/Nested.antt =====
-- A scheduler that uses its caller, in libcocao/fiber.cc and libcocao/schedule.cc: a root fiber in which
-- Scheduler::run gives other fibers their turns. Whether its end brings back the caller.
use libcocao.Base.{
  ℕ, ◌≡◌, refl, ◌∙◌, ◌≢◌, ap, false, Option, none, some, List, [], ◌∷◌, ◌==◌, ==_self,
  if◌then◌else◌, All, arith, is_empty,
}
use libcocao.Scheduler.{term}
use libcocao.Fiber.{Thread, update, base_fiber, resume, main_func_end}
use libcocao.Fiber.Switch.{turn, turn_lem, resume_lem, yield_lem, base_fiber-Switched}

module _ {C : Type 0} where
  -- The turns of some fibers, as Scheduler::run gives them.
  pub turns : List ℕ → Thread C → Option (Thread C)
  turns [] s = some s
  turns (f ∷ fs) s = elim (turn f s) [ none ↦ none | some s' ↦ turns fs s' ]

  -- The root fiber: resumed by the caller in Scheduler::stop, with the turns of the others, to the end
  -- of its MainFunc.
  pub nested : ℕ → List ℕ → Thread C → Option (Thread C)
  unfolding turns
  nested root fs s = elim (resume root s) [
    | none ↦ none
    | some s1 ↦ elim (turns fs s1) [ none ↦ none | some s2 ↦ main_func_end root s2 ]
  ]

  -- Fibers that are resumed from the given one and are not the one watched.
  abbrev pub Work : ℕ → ℕ → Thread C → ℕ → Type 0
  Work base watched s f = (base_fiber f s ≡ some base) × (base ≢ f) × (watched ≢ f)

  Work-same :
      (base watched : ℕ) (s s' : Thread C) (fs : List ℕ)
      → ((i : ℕ) → base_fiber i s' ≡ base_fiber i s)
      → All (Work base watched s) fs
      → All (Work base watched s') fs
  Work-same base watched s s' [] h w = tt
  Work-same base watched s s' (f ∷ fs) h (w, ws) =
      ((h f ∙ w.0, w.1, w.2), Work-same base watched s s' fs h ws)

  turns_lem :
      (base watched : ℕ) (s : Thread C) (fs : List ℕ)
      → All (Work base watched s) fs
      → (s' : Thread C) × (turns fs s ≡ some s')
        × (s'.flow ≡ s.flow)
        × ((i : ℕ) → base_fiber i s' ≡ base_fiber i s)
        × ((s'.fibers base).context ≡ (if is_empty fs then (s.fibers base).context else s.flow))
        × (watched ≢ base → (s'.fibers watched).context ≡ (s.fibers watched).context)
  unfolding turns
  turns_lem base watched s [] w = (s, refl, refl, λ i. refl, refl, λ n. refl)
  turns_lem base watched s (f ∷ fs) (w, ws) =
      let (s1, q1, flow1, own1, base1, others1, same1) = turn_lem f base s w.0 w.1 in
      let (s2, q2, flow2, same2, base2, watched2) =
        turns_lem base watched s1 fs (Work-same base watched s s1 fs same1 ws) in
      (
        s2,
        rw (q1, turns) q2,
        flow2 ∙ flow1,
        λ i. same2 i ∙ same1 i,
        last fs s1 s2 base2 base1 flow1,
        λ n. watched2 n ∙ ap (λ x. x.context) (others1 watched w.2 n),
      )
    where
      last :
          (fs : List ℕ) (s1 s2 : Thread C)
          → (s2.fibers base).context ≡ (if is_empty fs then (s1.fibers base).context else s1.flow)
          → (s1.fibers base).context ≡ s.flow
          → s1.flow ≡ s.flow
          → (s2.fibers base).context ≡ s.flow
      last [] s1 s2 p q r = p ∙ q
      last (g ∷ fs) s1 s2 p q r = p ∙ r

  end_lem :
      (root t : ℕ) (s : Thread C)
      → base_fiber root s ≡ some t
      → t ≢ root
      → (s' : Thread C) × (main_func_end root s ≡ some s') × (s'.flow ≡ (s.fibers t).context)
  unfolding main_func_end update base_fiber
  end_lem root t s e n =
      let ended = record (s.fibers root) { state = term; cb = none } in
      let s0 : Thread C = record s { fibers = update s.fibers root ended } in
      let (s', q, w) = yield_lem root t s0 (base_same ∙ e) n in (s', q, w.0 ∙ rw (apart n) refl)
    where
      apart : t ≢ root → (t == root) ≡ false
      apart n = ground (arith, n)

      base_same :
          base_fiber root (record s {
            fibers = update s.fibers root (record (s.fibers root) { state = term; cb = none });
          })
          ≡ base_fiber root s
      base_same = rw (==_self root) refl

  -- A root fiber that is resumed from the fiber t, and in which at least one other fiber has its turn
  -- before it ends, the others resumed from t too. The end of the root fiber then continues its own
  -- flow and not the caller.
  pub nested_lost :
      (root t f : ℕ) (fs : List ℕ) (s : Thread C)
      → base_fiber root s ≡ some t
      → t ≢ root
      → All (Work t root s) (f ∷ fs)
      → (s' : Thread C) × (nested root (f ∷ fs) s ≡ some s') × (s'.flow ≡ (s.fibers root).context)
  unfolding nested
  nested_lost root t f fs s e n w =
      let (s1, q1, w1) = resume_lem root t s e n in
      let same1 = λ (i : ℕ). base_fiber-Switched t root i s s1 w1 in
      let (s2, q2, flow2, same2, base2, watched2) =
        turns_lem t root s1 (f ∷ fs) (Work-same t root s s1 (f ∷ fs) same1 w) in
      let (s3, q3, flow3) = end_lem root t s2 (same2 root ∙ same1 root ∙ e) n in
      (s3, rw (q1, q2, nested) q3, flow3 ∙ base2 ∙ w1.0)

  -- A root fiber that is resumed from the fiber t, and in which other fibers have their turns before it
  -- ends, the others resumed from the root fiber. The end of the root fiber continues the caller.
  nested_returns :
      (root t : ℕ) (fs : List ℕ) (s : Thread C)
      → base_fiber root s ≡ some t
      → t ≢ root
      → All (Work root t s) fs
      → (s' : Thread C) × (nested root fs s ≡ some s') × (s'.flow ≡ s.flow)
  unfolding nested
  nested_returns root t fs s e n w =
      let (s1, q1, w1) = resume_lem root t s e n in
      let same1 = λ (i : ℕ). base_fiber-Switched t root i s s1 w1 in
      let (s2, q2, flow2, same2, base2, watched2) =
        turns_lem root t s1 fs (Work-same root t s s1 fs same1 w) in
      let (s3, q3, flow3) = end_lem root t s2 (same2 root ∙ same1 root ∙ e) n in
      (s3, rw (q1, q2, nested) q3, flow3 ∙ watched2 n ∙ w1.1)
