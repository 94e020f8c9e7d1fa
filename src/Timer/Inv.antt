-- ===== src/Timer/Inv.antt =====
-- The invariant of the timer manager (libcocao/timer.cc): the set is sorted, and a timer is in it
-- exactly while it has a callback. What each operation returns and changes follows from it.
use libcocao.Base.{
  ℕ, ◌≡◌, refl, ◌∙◌, ap, inl, inr, Bool, true, false, not, ◌&&◌, Option, none, some, List, [], ◌∷◌,
  arith, ◌==◌, ==_self, if◌then◌else◌, Bool-cases, Option-cases, All, is_some,
}
use libcocao.Timer.{
  Timer, Heap, update, comparator, ok, Manager, new_timer, new_manager, add_timer, cancel, refresh,
  reset, add64, sub64, set_erase, set_insert,
}
use libcocao.Timer.Set.{
  mem, Before, Sorted, set_find-mem, set_insert-Sorted, mem-set_insert, set_erase-Sorted,
  mem-set_erase, Sorted-update,
}

module _ {ℓ} {C : Type ℓ} where
  abbrev pub cb_of : Heap C → ℕ → Option C
  cb_of h a = (h a).cb

  pub record Inv (m : Manager C) : Type 0 where
    pub sorted : Sorted m.heap m.timers
    pub armed : (a : ℕ) → mem a m.timers ≡ is_some (cb_of m.heap a)

  abbrev pub disarm : Heap C → ℕ → Heap C
  disarm h a = update h a (record (h a) { cb = none })

  comparator-disarm :
      (h : Heap C) (k a b : ℕ)
      → comparator (disarm h k) (some a) (some b) ≡ comparator h (some a) (some b)
  unfolding comparator
  comparator-disarm h k a b = ground arith

  All-disarm :
      (h : Heap C) (k w : ℕ) (xs : List ℕ) → All (Before h w) xs → All (Before (disarm h k) w) xs
  All-disarm h k w [] s = tt
  All-disarm h k w (x ∷ xs) s = (comparator-disarm h k w x ∙ s.0, All-disarm h k w xs s.1)

  -- The order does not look at the callbacks.
  pub Sorted-disarm : (h : Heap C) (k : ℕ) (xs : List ℕ) → Sorted h xs → Sorted (disarm h k) xs
  Sorted-disarm h k [] s = tt
  Sorted-disarm h k (x ∷ xs) s = (All-disarm h k x xs s.0, Sorted-disarm h k xs s.1)

  pub new_manager-Inv :
      (h : Heap C) (now : ℕ) → ((a : ℕ) → cb_of h a ≡ none) → Inv (new_manager h now)
  unfolding new_manager
  new_manager-Inv h now free = record { sorted = tt; armed = λ a. rw (free a) }

  add_timer-armed :
      (m : Manager C) (a now ms : ℕ) (c : C) (r : Bool)
      → Inv m
      → (b : ℕ)
      → mem b (add_timer m a now ms (some c) r).0.timers
        ≡ is_some (cb_of (add_timer m a now ms (some c) r).0.heap b)
  unfolding add_timer
  add_timer-armed m a now ms c r v b = ground (
    arith,
    v.armed b,
    mem-set_insert (update m.heap a (new_timer now ms (some c) r)) b a m.timers,
  )

  pub add_timer-Inv :
      (m : Manager C) (a now ms : ℕ) (c : C) (r : Bool)
      → Inv m
      → cb_of m.heap a ≡ none
      → Inv (add_timer m a now ms (some c) r).0
  unfolding add_timer
  add_timer-Inv m a now ms c r v free = record {
    sorted =
        set_insert-Sorted _ a m.timers
          (Sorted-update m.heap a _ m.timers (rw (v.armed a, free)) v.sorted);
    armed = add_timer-armed m a now ms c r v;
  }

  -- What a successful cancel leaves.
  abbrev pub cancelled : Manager C → ℕ → Manager C
  cancelled m a = record m {
    heap = disarm m.heap a;
    timers = set_erase (disarm m.heap a) a m.timers;
  }

  -- cancel never erases end(): it succeeds exactly on an armed timer.
  pub cancel_cases :
      (m : Manager C) (a : ℕ)
      → Inv m
      → cancel m a ≡ (if is_some (cb_of m.heap a) then ok (cancelled m a, true) else ok (m, false))
  unfolding cancel
  cancel_cases m a v = ground (
    arith,
    v.armed a,
    set_find-mem (disarm m.heap a) a m.timers (Sorted-disarm m.heap a m.timers v.sorted),
  )

  mem-cancelled :
      (m : Manager C) (a b : ℕ)
      → Inv m
      → mem b (cancelled m a).timers ≡ mem b m.timers && not (b == a)
  mem-cancelled m a b v =
      mem-set_erase (disarm m.heap a) b a m.timers (Sorted-disarm m.heap a m.timers v.sorted)

  pub cancelled-Inv : (m : Manager C) (a : ℕ) → Inv m → Inv (cancelled m a)
  cancelled-Inv m a v = record {
    sorted = set_erase-Sorted _ a m.timers (Sorted-disarm m.heap a m.timers v.sorted);
    armed = λ b. ground (arith, mem-cancelled m a b v, v.armed b);
  }

  -- Erasing a timer and putting it back with another time keeps the set sorted and its members.
  abbrev retimed : Manager C → ℕ → Timer C → Heap C
  retimed m a t = update m.heap a t

  abbrev moved : Manager C → ℕ → Timer C → List ℕ
  moved m a t = set_insert (retimed m a t) a (set_erase m.heap a m.timers)

  mem-erased_self : (m : Manager C) (a : ℕ) → Inv m → mem a (set_erase m.heap a m.timers) ≡ false
  mem-erased_self m a v = ground (arith, mem-set_erase m.heap a a m.timers v.sorted, ==_self a)

  moved-Sorted :
      (m : Manager C) (a : ℕ) (t : Timer C) → Inv m → Sorted (retimed m a t) (moved m a t)
  moved-Sorted m a t v = set_insert-Sorted _ a _ (
      Sorted-update m.heap a t _ (mem-erased_self m a v)
        (set_erase-Sorted m.heap a m.timers v.sorted))

  mem-moved :
      (m : Manager C) (a : ℕ) (t : Timer C) (b : ℕ)
      → Inv m
      → mem a m.timers ≡ true
      → mem b (moved m a t) ≡ mem b m.timers
  mem-moved m a t b v h = ground (
    arith,
    mem-set_insert (retimed m a t) b a (set_erase m.heap a m.timers),
    mem-set_erase m.heap b a m.timers v.sorted,
  )

  moved-armed :
      (m : Manager C) (a : ℕ) (t : Timer C) (b : ℕ)
      → Inv m
      → t.cb ≡ cb_of m.heap a
      → is_some (cb_of m.heap a) ≡ true
      → mem b (moved m a t) ≡ is_some (cb_of (retimed m a t) b)
  moved-armed m a t b v e h =
      ground (arith, mem-moved m a t b v, v.armed a, v.armed b, ap is_some e)

  pub refresh-Inv : (m : Manager C) (now a : ℕ) → Inv m → Inv (refresh m now a).0
  unfolding refresh
  refresh-Inv m now a v = elim (Bool-cases (is_some (cb_of m.heap a))) [
    | inl e ↦
        rw (e, set_find-mem m.heap a m.timers v.sorted, v.armed a, e)
          (record { sorted = moved-Sorted m a _ v; armed = λ b. moved-armed m a _ b v refl e })
    | inr e ↦ rw e v
  ]

  -- When the period of a reset timer begins.
  abbrev pub reset_start : Manager C → ℕ → ℕ → Bool → ℕ
  reset_start m now a from_now = if from_now then now else sub64 (m.heap a).next (m.heap a).ms

  pub reset-Inv :
      (m : Manager C) (now a ms : ℕ) (from_now : Bool) → Inv m → Inv (reset m now a ms from_now).0
  unfolding reset
  reset-Inv m now a ms from_now v = elim (Bool-cases ((ms == (m.heap a).ms) && not from_now)) [
    | inl same ↦ rw same v
    | inr other ↦ rw other (elim (Bool-cases (is_some (cb_of m.heap a))) [
      | inl e ↦
          rw (e, set_find-mem m.heap a m.timers v.sorted, v.armed a, e)
            (record { sorted = moved-Sorted m a _ v; armed = λ b. moved-armed m a _ b v refl e })
      | inr e ↦ rw e v
    ])
  ]

  -- refresh answers true exactly on an armed timer. An armed timer is then due its period after
  -- `now`, no other timer changes, and the set keeps its members.
  refresh_lem :
      (m : Manager C) (now a : ℕ)
      → Inv m
      → let r = refresh m now a in
        (r.1 ≡ is_some (cb_of m.heap a))
        × (r.1 ≡ true → (r.0.heap a).next ≡ add64 now (m.heap a).ms)
        × ((b : ℕ) → (b == a) ≡ false → r.0.heap b ≡ m.heap b)
        × ((b : ℕ) → mem b r.0.timers ≡ mem b m.timers)
  unfolding refresh
  refresh_lem m now a v = elim (Bool-cases (is_some (cb_of m.heap a))) [
    | inl e ↦
        rw (e, set_find-mem m.heap a m.timers v.sorted, v.armed a, e)
          (refl, λ _. rw (==_self a), λ b n. rw n, λ b. mem-moved m a _ b v (v.armed a ∙ e))
    | inr e ↦ rw e (refl, λ h. cc, λ b n. refl, λ b. refl)
  ]

  -- reset answers false exactly on a disarmed timer whose period or start was to change. Where it
  -- changes an armed timer, the period is `ms` and the timer is due `ms` after the start, which is
  -- `now` or the time at which the old period began.
  reset_lem :
      (m : Manager C) (now a ms : ℕ) (from_now : Bool)
      → Inv m
      → let r = reset m now a ms from_now in
        let same = (ms == (m.heap a).ms) && not from_now in
        (r.1 ≡ (if same then true else is_some (cb_of m.heap a)))
        × (same ≡ false
            → r.1 ≡ true
            → ((r.0.heap a).ms ≡ ms)
              × ((r.0.heap a).next ≡ add64 (reset_start m now a from_now) ms))
        × ((b : ℕ) → (b == a) ≡ false → r.0.heap b ≡ m.heap b)
        × ((b : ℕ) → mem b r.0.timers ≡ mem b m.timers)
  unfolding reset
  reset_lem m now a ms from_now v = elim (Bool-cases ((ms == (m.heap a).ms) && not from_now)) [
    | inl same ↦ rw same (refl, λ h. cc, λ b n. refl, λ b. refl)
    | inr other ↦ rw other (elim (Bool-cases (is_some (cb_of m.heap a))) [
      | inl e ↦
          rw (e, set_find-mem m.heap a m.timers v.sorted, v.armed a, e)
            (
              refl,
              λ _ _. (rw (==_self a), rw (==_self a)),
              λ b n. rw n,
              λ b. mem-moved m a _ b v (v.armed a ∙ e),
            )
      | inr e ↦ rw e (refl, λ _ h. cc, λ b n. refl, λ b. refl)
    ])
  ]

  cancelled_self : (m : Manager C) (a : ℕ) → cb_of (cancelled m a).heap a ≡ none
  cancelled_self m a = ground arith

  cancel_disarmed : (m : Manager C) (a : ℕ) → cb_of m.heap a ≡ none → cancel m a ≡ ok (m, false)
  unfolding cancel
  cancel_disarmed m a e = rw e

  -- cancel answers whether the timer was armed, and keeps the invariant. Afterwards the timer is not
  -- armed, no other timer has changed, exactly it has left the set, and a second cancel answers
  -- false.
  pub cancel_lem :
      (m : Manager C) (a : ℕ)
      → Inv m
      → (m' : Manager C) × (cancel m a ≡ ok (m', is_some (cb_of m.heap a)))
        × Inv m'
        × (cb_of m'.heap a ≡ none)
        × ((b : ℕ) → (b == a) ≡ false → m'.heap b ≡ m.heap b)
        × ((b : ℕ) → mem b m'.timers ≡ mem b m.timers && not (b == a))
        × (cancel m' a ≡ ok (m', false))
  cancel_lem m a v = elim (Option-cases (cb_of m.heap a)) [
    | inl e ↦ (
      m,
      rw e (cancel_disarmed m a e),
      v,
      e,
      λ b n. refl,
      λ b. ground (arith, v.armed a, v.armed b),
      cancel_disarmed m a e,
    )
    | inr (c, e) ↦ (
      cancelled m a,
      ground (arith, cancel_cases m a v),
      cancelled-Inv m a v,
      cancelled_self m a,
      λ b n. rw n,
      λ b. mem-cancelled m a b v,
      cancel_disarmed (cancelled m a) a (cancelled_self m a),
    )
  ]
