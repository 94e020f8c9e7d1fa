-- ===== src/Timer/Expiry.antt =====
-- TimerManager::listExpiredCb (libcocao/timer.cc): which timers it takes and what
-- becomes of them.
use mathlib.Core.List.{append-nil, append_assoc}
use libcocao.Base.{
  ℕ, ◌<◌, ◌≡◌, refl, sym, ◌∙◌, ap, subst, inl, inr, Bool, true, false, not, ◌&&◌, List, [], ◌∷◌,
  ◌++◌, arith, ◌==◌, ==_self, Bool-cases, List-cases, All,
}
use libcocao.Timer.{
  Heap, update, comparator, Manager, clock_rollover, key_timer, before_key, skip_due, fire,
  split_expired, take_expired, expire_first, list_expired_cb,
}
use libcocao.Timer.Set.{mem}
use libcocao.Timer.Inv.{Inv}
use libcocao.Timer.Fire.{fire-Inv, Pending-split}

module _ {C : Type 0} where
  before_key-append :
      (h : Heap C) (k : ℕ) (xs : List ℕ) → (before_key h k xs).0 ++ (before_key h k xs).1 ≡ xs
  unfolding before_key
  before_key-append h k [] = refl
  before_key-append h k (x ∷ xs) = ground (arith, before_key-append h k xs)

  skip_due-append :
      (h : Heap C) (now : ℕ) (xs : List ℕ) → (skip_due h now xs).0 ++ (skip_due h now xs).1 ≡ xs
  unfolding skip_due
  skip_due-append h now [] = refl
  skip_due-append h now (x ∷ xs) = ground (arith, skip_due-append h now xs)

  split_expired-append :
      (h : Heap C) (r : Bool) (now k : ℕ) (xs : List ℕ)
      → (split_expired h r now k xs).0 ++ (split_expired h r now k xs).1 ≡ xs
  unfolding split_expired
  split_expired-append h true now k xs = append-nil xs
  split_expired-append h false now k xs =
      let key = before_key (update h k (key_timer now)) k xs in
      append_assoc key.0 (skip_due h now key.1).0 (skip_due h now key.1).1
      ∙ ap (λ l. key.0 ++ l) (skip_due-append h now key.1)
      ∙ before_key-append (update h k (key_timer now)) k xs

  take_expired-Inv :
      (m : Manager C) (now k a : ℕ) (ts : List ℕ)
      → Inv m
      → m.timers ≡ a ∷ ts
      → Inv (take_expired m now k a ts).0
  unfolding take_expired
  take_expired-Inv m now k a ts v e =
      let r = clock_rollover m.previous_time now in
      elim (Bool-cases (not r && ((m.heap a).next == now))) [
        | inl h ↦ rw h (record { sorted = v.sorted; armed = v.armed })
        | inr h ↦ rw h (
            fire-Inv _ now _ (
              Pending-split m now (split_expired m.heap r now k (a ∷ ts)).0 _ v
                (split_expired-append m.heap r now k (a ∷ ts) ∙ sym e)))
      ]

  list_expired_cb_nil :
      (m : Manager C) (now k : ℕ) → m.timers ≡ [] → list_expired_cb m now k ≡ (m, [])
  unfolding list_expired_cb
  list_expired_cb_nil m now k e = ap (λ l. expire_first l m now k) e

  list_expired_cb_cons :
      (m : Manager C) (now k a : ℕ) (ts : List ℕ)
      → m.timers ≡ a ∷ ts
      → list_expired_cb m now k ≡ take_expired m now k a ts
  unfolding list_expired_cb
  list_expired_cb_cons m now k a ts e = ap (λ l. expire_first l m now k) e

  pub list_expired_cb-Inv : (m : Manager C) (now k : ℕ) → Inv m → Inv (list_expired_cb m now k).0
  list_expired_cb-Inv m now k v = elim (List-cases m.timers) [
    | inl e ↦ rw (list_expired_cb_nil m now k e) v
    | inr (a, ts, e) ↦ rw (list_expired_cb_cons m now k a ts e) (take_expired-Inv m now k a ts v e)
  ]

  key_first :
      (m : Manager C) (now k a : ℕ) (ts : List ℕ)
      → (a == k) ≡ false
      → 0 < (m.heap a).next
      → before_key (update m.heap k (key_timer now)) k (a ∷ ts) ≡ ([], a ∷ ts)
  unfolding before_key comparator key_timer
  key_first m now k a ts n p = ground (arith, ==_self k)

  -- The loop that steps over the timers due now stays where it is, since the first is not due.
  split_idle :
      (m : Manager C) (now k a : ℕ) (ts : List ℕ)
      → (a == k) ≡ false
      → 0 < (m.heap a).next
      → ((m.heap a).next == now) ≡ false
      → split_expired m.heap false now k (a ∷ ts) ≡ ([], a ∷ ts)
  unfolding split_expired skip_due
  split_idle m now k a ts n p h = rw (key_first m now k a ts n p) (rw h refl)

  take_expired_idle :
      (m : Manager C) (now k a : ℕ) (ts : List ℕ)
      → (a == k) ≡ false
      → 0 < (m.heap a).next
      → m.timers ≡ a ∷ ts
      → clock_rollover m.previous_time now ≡ false
      → let r = take_expired m now k a ts in
        (r.1 ≡ []) × (r.0.timers ≡ m.timers) × (r.0.heap ≡ m.heap)
  unfolding take_expired fire
  take_expired_idle m now k a ts n p e roll = rw roll (elim (Bool-cases ((m.heap a).next == now)) [
    | inl h ↦ rw h (refl, refl, refl)
    | inr h ↦ rw (h, split_idle m now k a ts n p h) (refl, sym e, refl)
  ])

  -- Without a jump of the clock back by more than an hour listExpiredCb fires nothing, however long the timers are
  -- overdue: `now_timer` is built by Timer(uint64_t), which drops its argument and so has the time
  -- 0, and no timer due after 0 comes before it. The set and every timer stay as they are. (The key's
  -- address `k` is that of no timer in the set.)
  pub never_expires :
      (m : Manager C) (now k : ℕ)
      → mem k m.timers ≡ false
      → All (λ a. 0 < (m.heap a).next) m.timers
      → clock_rollover m.previous_time now ≡ false
      → let r = list_expired_cb m now k in
        (r.1 ≡ []) × (r.0.timers ≡ m.timers) × (r.0.heap ≡ m.heap)
  never_expires m now k n p roll = elim (List-cases m.timers) [
    | inl e ↦ rw (list_expired_cb_nil m now k e) (refl, refl, refl)
    | inr (a, ts, e) ↦ rw (list_expired_cb_cons m now k a ts e) (
        take_expired_idle m now k a ts (ground (arith, ap (mem k) e)) (subst All-late e p).0 e roll)
  ]
    where
      All-late : List ℕ → Type 0
      All-late = All (λ a. 0 < (m.heap a).next)
