-- ===== src/Fiber/Switch.antt =====
-- What a switch to a fiber and back of libcocao/fiber.cc brings.
use libcocao.Base.{
  ℕ, ◌≡◌, refl, ◌∙◌, ◌≢◌, false, Option, none, some, ◌==◌, ==_iff, ==_self, ◌⊎◌, sym, ap,
  Bool-cases, arith, inl, inr,
}
use libcocao.Scheduler.{FiberState, ready, running}
use libcocao.Fiber.{Thread, update, swap_context, base_fiber, set_state, resume, yield}

module _ {C : Type 0} where
  -- The state of a fiber and its other fields after a switch.
  abbrev pub Switched : ℕ → ℕ → Thread C → Thread C → Type 0
  Switched from to s s' =
      (s'.flow ≡ (s.fibers to).context)
      × ((s'.fibers from).context ≡ s.flow)
      × ((s'.fibers to).context ≡ (s.fibers to).context)
      × ((i : ℕ) → (s'.fibers i).run_in_scheduler ≡ (s.fibers i).run_in_scheduler)
      × ((i : ℕ) → i ≢ from → i ≢ to → s'.fibers i ≡ s.fibers i)
      × (s'.thread_fiber ≡ s.thread_fiber)
      × (s'.scheduler_fiber ≡ s.scheduler_fiber)

  set_state-context :
      (g i : ℕ) (new : FiberState) (s : Thread C)
      → (((set_state g new s).fibers i).context ≡ (s.fibers i).context)
        × (((set_state g new s).fibers i).run_in_scheduler ≡ (s.fibers i).run_in_scheduler)
        × (i ≢ g → (set_state g new s).fibers i ≡ s.fibers i)
  unfolding set_state update
  set_state-context g i new s = elim (Bool-cases (i == g)) [
    | inl q ↦
        let same = sym ((==_iff i g).0 q) in
        (
          rw q (ap (λ j. (s.fibers j).context) same),
          rw q (ap (λ j. (s.fibers j).run_in_scheduler) same),
          λ n. absurd (n ((==_iff i g).0 q)),
        )
    | inr q ↦ (rw q refl, rw q refl, λ n. rw q refl)
  ]

  swap_context-Switched :
      (from to g : ℕ) (new : FiberState) (s : Thread C) (this : Option ℕ)
      → from ≢ to
      → (g ≡ from) ⊎ (g ≡ to)
      → Switched from to s (swap_context from to (set_state g new (record s { this = this })))
  unfolding swap_context update set_state
  swap_context-Switched from to g new s this n which =
      let s0 : Thread C = record s { this = this } in
      (
        (set_state-context g to new s0).0,
        rw (==_self from) refl,
        rw (apart to (λ q. n (sym q))) (set_state-context g to new s0).0,
        λ i. elim (Bool-cases (i == from)) [
          | inl q ↦ rw q (
              (set_state-context g from new s0).1
              ∙ ap (λ j. (s.fibers j).run_in_scheduler) (sym ((==_iff i from).0 q)))
          | inr q ↦ rw q (set_state-context g i new s0).1
        ],
        λ i p q. rw (apart i p) ((set_state-context g i new s0).2 (other i p q which)),
        refl,
        refl,
      )
    where
      apart : (i : ℕ) → i ≢ from → (i == from) ≡ false
      apart i p = ground (arith, p)

      other : (i : ℕ) → i ≢ from → i ≢ to → (g ≡ from) ⊎ (g ≡ to) → i ≢ g
      other i p q (inl e) r = p (r ∙ e)
      other i p q (inr e) r = q (r ∙ e)

  pub resume_lem :
      (f base : ℕ) (s : Thread C)
      → base_fiber f s ≡ some base
      → base ≢ f
      → (s' : Thread C) × (resume f s ≡ some s') × Switched base f s s'
  unfolding resume swap_context
  resume_lem f base s e n = (
    swap_context base f (set_state f running (record s { this = some f })),
    rw (e, resume) refl,
    swap_context-Switched base f f running s (some f) n (inr refl),
  )

  pub yield_lem :
      (f base : ℕ) (s : Thread C)
      → base_fiber f s ≡ some base
      → base ≢ f
      → (s' : Thread C) × (yield f s ≡ some s') × Switched f base s s'
  unfolding yield swap_context
  yield_lem f base s e n = (
    swap_context f base (set_state f ready (record s { this = s.thread_fiber })),
    rw (e, yield) refl,
    swap_context-Switched f base f ready s s.thread_fiber (λ q. n (sym q)) (inl refl),
  )

  pub base_fiber-Switched :
      (from to f : ℕ) (s s' : Thread C) → Switched from to s s' → base_fiber f s' ≡ base_fiber f s
  unfolding base_fiber
  base_fiber-Switched from to f s s' (flow, c1, c2, run, rest, t, m) = rw (run f, t, m) refl

  -- A fiber's turn: it is resumed, runs, and yields.
  pub turn : ℕ → Thread C → Option (Thread C)
  unfolding resume yield
  turn f s = elim (resume f s) [ none ↦ none | some s' ↦ yield f s' ]

  -- After a fiber's turn the flow that resumed it runs again, and the fiber's context is as before. The
  -- context of the fiber it was resumed from has become that flow, and no other context has changed.
  pub turn_lem :
      (f base : ℕ) (s : Thread C)
      → base_fiber f s ≡ some base
      → base ≢ f
      → (s' : Thread C) × (turn f s ≡ some s')
        × (s'.flow ≡ s.flow)
        × ((s'.fibers f).context ≡ (s.fibers f).context)
        × ((s'.fibers base).context ≡ s.flow)
        × ((i : ℕ) → i ≢ f → i ≢ base → s'.fibers i ≡ s.fibers i)
        × ((i : ℕ) → base_fiber i s' ≡ base_fiber i s)
  unfolding turn
  turn_lem f base s e n =
      let (s1, q1, w1) = resume_lem f base s e n in
      let same1 = λ (i : ℕ). base_fiber-Switched base f i s s1 w1 in
      let (s2, q2, w2) = yield_lem f base s1 (same1 f ∙ e) n in
      (
        s2,
        rw (q1, turn) q2,
        w2.0 ∙ w1.1,
        w2.1 ∙ w1.0,
        w2.2 ∙ w1.1,
        λ i p q. w2.4 i p q ∙ w1.4 i q p,
        λ i. base_fiber-Switched f base i s1 s2 w2 ∙ same1 i,
      )
