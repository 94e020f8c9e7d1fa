-- ===== src/Timer/History.antt =====
-- The timer manager (libcocao/timer.cc) over any history of calls, and what getNextTimer and
-- onTimerInsertAtFront tell the poller.
use libcocao.Base.{
  ℕ, ◌-◌, ◌≤◌, ◌≡◌, refl, sym, subst, ◌∙◌, ◌≢◌, Bool, true, false, not, ◌&&◌, none, some, List, [],
  ◌∷◌, arith, ltb, ==_self, if◌then◌else◌, is_some,
}
use libcocao.Timer.{
  Heap, comparator, ok, Manager, new_manager, insert_timer, add_timer, cancel, refresh, reset,
  get_next_timer, time_left, no_timeout, list_expired_cb, at_begin, set_insert,
}
use libcocao.Timer.Set.{mem, Before, Sorted, All-mem}
use libcocao.Timer.Inv.{
  cb_of, Inv, new_manager-Inv, add_timer-Inv, cancel_lem, refresh-Inv, reset-Inv,
}
use libcocao.Timer.Expiry.{list_expired_cb-Inv}

module _ {C : Type 0} where
  -- One call on the manager, at any time and with any arguments. addTimer stores a new object, so
  -- its address is that of no armed timer, and is given a callback.
  pub data Step : Manager C → Manager C → Type 0 where
    adds :
        (m : Manager C) (a now ms : ℕ) (c : C) (r : Bool)
        → cb_of m.heap a ≡ none
        → Step m (add_timer m a now ms (some c) r).0
    cancels : (m m' : Manager C) (a : ℕ) (b : Bool) → cancel m a ≡ ok (m', b) → Step m m'
    refreshes : (m : Manager C) (now a : ℕ) → Step m (refresh m now a).0
    resets : (m : Manager C) (now a ms : ℕ) (f : Bool) → Step m (reset m now a ms f).0
    polls : (m : Manager C) (now : ℕ) → Step m (get_next_timer m now).0
    expires : (m : Manager C) (now k : ℕ) → Step m (list_expired_cb m now k).0

  pub data Reach (m : Manager C) : Manager C → Type 0 where
    here : Reach m m
    next : {n p : Manager C} → Reach m n → Step n p → Reach m p

  cancel-Inv : (m m' : Manager C) (a : ℕ) (b : Bool) → Inv m → cancel m a ≡ ok (m', b) → Inv m'
  cancel-Inv m m' a b v e = let t = cancel_lem m a v in subst Inv (cc (sym t.1 ∙ e)) t.2

  Step-Inv : {m n : Manager C} → Step m n → Inv m → Inv n
  Step-Inv (adds m a now ms c r free) v = add_timer-Inv m a now ms c r v free
  Step-Inv (cancels m m' a b e) v = cancel-Inv m m' a b v e
  Step-Inv (refreshes m now a) v = refresh-Inv m now a v
  Step-Inv (resets m now a ms f) v = reset-Inv m now a ms f v
  Step-Inv (polls m now) v = unfold get_next_timer in record { sorted = v.sorted; armed = v.armed }
  Step-Inv (expires m now k) v = list_expired_cb-Inv m now k v

  Reach-Inv : {m n : Manager C} → Inv m → Reach m n → Inv n
  Reach-Inv v here = v
  Reach-Inv v (next r s) = Step-Inv s (Reach-Inv v r)

  -- After any history of calls on a new manager, whose heap holds no armed timer, the set is
  -- sorted by time and address and a timer is in the set exactly while it has a callback.
  pub history-Inv :
      (h : Heap C) (now : ℕ) (m : Manager C)
      → ((a : ℕ) → cb_of h a ≡ none)
      → Reach (new_manager h now) m
      → Inv m
  history-Inv h now m free r = Reach-Inv (new_manager-Inv h now free) r

  -- After any such history cancel does not reach the erase(end()) of its code: it returns, and it
  -- answers whether the timer had a callback.
  cancel_returns :
      (h : Heap C) (now : ℕ) (m : Manager C) (a : ℕ)
      → ((a : ℕ) → cb_of h a ≡ none)
      → Reach (new_manager h now) m
      → (m' : Manager C) × (cancel m a ≡ ok (m', is_some (cb_of m.heap a)))
  cancel_returns h now m a free r =
      let t = cancel_lem m a (history-Inv h now m free r) in (t.0, t.1)

  -- The time that a timer still has; 0 once it is overdue.
  abbrev pub remaining : Heap C → ℕ → ℕ → ℕ
  remaining h now a = if ltb (h a).next now then 0 else (h a).next - now

  Before-remaining :
      (h : Heap C) (now a b : ℕ) → Before h a b → remaining h now a ≤ remaining h now b
  unfolding comparator
  Before-remaining h now a b p = ground arith

  time_left_cons :
      (h : Heap C) (now a : ℕ) (ts : List ℕ)
      → Sorted h (a ∷ ts)
      → (b : ℕ) → mem b (a ∷ ts) ≡ true
      → time_left h now (a ∷ ts) ≤ remaining h now b
  unfolding time_left
  time_left_cons h now a ts s b e = ground (arith, All-mem h a b ts s.0, Before-remaining h now a b)

  least :
      (h : Heap C) (now : ℕ) (ts : List ℕ)
      → Sorted h ts
      → (ts ≡ [] → time_left h now ts ≡ no_timeout)
        × ((b : ℕ) → mem b ts ≡ true → time_left h now ts ≤ remaining h now b)
        × (ts ≢ [] → (b : ℕ) × (mem b ts ≡ true) × (time_left h now ts ≡ remaining h now b))
  unfolding time_left
  least h now [] s = (λ e. refl, λ b e. absurd (ground arith), λ n. absurd (n refl))
  least h now (a ∷ ts) s =
      (λ e. absurd (ground arith), time_left_cons h now a ts s, λ n. (a, rw (==_self a), refl))

  -- getNextTimer returns ~0ull for an empty set, and else the least time that a timer of the set
  -- still has: no timer has less, and one has just that. It clears m_tickled.
  pub get_next_timer_least :
      (m : Manager C) (now : ℕ)
      → Inv m
      → let r = get_next_timer m now in
        (r.0.tickled ≡ false)
        × (m.timers ≡ [] → r.1 ≡ no_timeout)
        × ((b : ℕ) → mem b m.timers ≡ true → r.1 ≤ remaining m.heap now b)
        × (m.timers ≢ [] → (b : ℕ) × (mem b m.timers ≡ true) × (r.1 ≡ remaining m.heap now b))
  unfolding get_next_timer
  get_next_timer_least m now v = let t = least m.heap now m.timers v.sorted in (refl, t.0, t.1, t.2)

  -- addTimer calls onTimerInsertAtFront exactly when m_tickled was clear and the new timer is first
  -- in the set, and sets m_tickled with it: until getNextTimer clears that, no insertion calls it
  -- again.
  one_tickle :
      (m : Manager C) (a b : ℕ)
      → let r = insert_timer m a in
        (r.1 ≡ at_begin a (set_insert m.heap a m.timers) && not m.tickled)
        × (r.1 ≡ true → (insert_timer r.0 b).1 ≡ false)
        × (m.tickled ≡ true → (r.1 ≡ false) × (r.0.tickled ≡ true))
  unfolding insert_timer
  one_tickle m a b = ground arith
