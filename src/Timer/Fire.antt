-- ===== src/Timer/Fire.antt =====
-- The closing loop of TimerManager::listExpiredCb (libcocao/timer.cc), and the timers that it treats.

use libcocao.Base.{
  ℕ, ◌≡◌, refl, sym, ◌∙◌, ap, Bool, true, false, ◌||◌, none, List, [], ◌∷◌, ◌++◌, map, arith, ◌==◌,
  ==_self, if◌then◌else◌, All, is_some,
}
use libcocao.Timer.{Timer, Heap, Manager, fire_one, fire, add64}
use libcocao.Timer.Set.{
  mem, Before, Sorted, not-mem, set_insert-Sorted, mem-set_insert, Sorted-update,
}
use libcocao.Timer.Inv.{cb_of, Inv, Sorted-disarm}

abbrev pub Distinct : List ℕ → Type 0
Distinct [] = Unit {0}
Distinct (x ∷ xs) = (mem x xs ≡ false) × Distinct xs

pub mem-append : (b : ℕ) (xs ys : List ℕ) → mem b (xs ++ ys) ≡ mem b xs || mem b ys
mem-append b [] ys = refl
mem-append b (x ∷ xs) ys = ground (arith, mem-append b xs ys)

module _ {C : Type 0} where
  -- The state of the closing loop: `ts` are the expired timers that it still has to treat.
  pub record Pending (m : Manager C) (ts : List ℕ) : Type 0 where
    pub sorted : Sorted m.heap m.timers
    pub distinct : Distinct ts
    pub apart : (b : ℕ) → mem b ts ≡ true → mem b m.timers ≡ false
    pub armed : (b : ℕ) → (mem b ts || mem b m.timers) ≡ is_some (cb_of m.heap b)

  -- A timer that fires: armed again a period later, or disarmed.
  abbrev pub rearm : ℕ → Timer C → Timer C
  rearm now t = if t.recurring then record t { next = add64 now t.ms } else record t { cb = none }

  pub fire_one-Pending :
      (r : Bool) (m : Manager C) (now a : ℕ) (ts : List ℕ)
      → Pending m (a ∷ ts)
      → Pending (fire_one r m now a) ts
  unfolding fire_one
  fire_one-Pending true m now a ts p = record {
    sorted =
        set_insert-Sorted _ a m.timers
          (Sorted-update m.heap a _ m.timers (p.apart a (rw (==_self a))) p.sorted);
    distinct = p.distinct.1;
    apart = λ b e.
        ground (
          arith,
          mem-set_insert (fire_one true m now a).heap b a m.timers,
          p.apart b,
          p.distinct.0,
        );
    armed = λ b.
        ground
          (arith, mem-set_insert (fire_one true m now a).heap b a m.timers, p.armed b, p.armed a);
  }
  fire_one-Pending false m now a ts p = record {
    sorted = Sorted-disarm m.heap a m.timers p.sorted;
    distinct = p.distinct.1;
    apart = λ b e. ground (arith, p.apart b);
    armed = λ b. ground (arith, p.armed b, p.apart a, p.distinct.0);
  }

  pub fire-Inv : (m : Manager C) (now : ℕ) (ts : List ℕ) → Pending m ts → Inv (fire m now ts).0
  unfolding fire
  fire-Inv m now [] p = record { sorted = p.sorted; armed = p.armed }
  fire-Inv m now (a ∷ ts) p =
      fire-Inv (fire_one (m.heap a).recurring m now a) now ts
        (fire_one-Pending (m.heap a).recurring m now a ts p)

  pub fire_one_heap :
      (r : Bool) (m : Manager C) (now a b : ℕ)
      → (m.heap a).recurring ≡ r
      → (fire_one r m now a).heap b ≡ (if b == a then rearm now (m.heap b) else m.heap b)
  unfolding fire_one
  fire_one_heap true m now a b e = ground arith
  fire_one_heap false m now a b e = ground arith

  pub map-fire_one :
      (r : Bool) (m : Manager C) (now a : ℕ) (ts : List ℕ)
      → (m.heap a).recurring ≡ r
      → mem a ts ≡ false
      → map (cb_of (fire_one r m now a).heap) ts ≡ map (cb_of m.heap) ts
  map-fire_one r m now a [] h e = refl
  map-fire_one r m now a (x ∷ xs) h e =
      ground (arith, map-fire_one r m now a xs h, fire_one_heap r m now a x h)

  -- The loop runs the callbacks that the timers had at its start, in order.
  pub fire_callbacks :
      (m : Manager C) (now : ℕ) (ts : List ℕ)
      → Distinct ts
      → (fire m now ts).1 ≡ map (cb_of m.heap) ts
  unfolding fire
  fire_callbacks m now [] d = refl
  fire_callbacks m now (a ∷ ts) d =
      ap (λ l. cb_of m.heap a ∷ l)
        (fire_callbacks (fire_one (m.heap a).recurring m now a) now ts d.1
          ∙ map-fire_one (m.heap a).recurring m now a ts refl d.0)

  -- Exactly the timers of the loop change: a recurring one is due a period later, any other is
  -- disarmed.
  pub fire_heap :
      (m : Manager C) (now : ℕ) (ts : List ℕ) (b : ℕ)
      → Distinct ts
      → (fire m now ts).0.heap b ≡ (if mem b ts then rearm now (m.heap b) else m.heap b)
  unfolding fire
  fire_heap m now [] b d = refl
  fire_heap m now (a ∷ ts) b d = ground (
    arith,
    fire_heap (fire_one (m.heap a).recurring m now a) now ts b d.1,
    fire_one_heap (m.heap a).recurring m now a b refl,
  )

  pub All-append-right :
      (h : Heap C) (w : ℕ) (xs ys : List ℕ) → All (Before h w) (xs ++ ys) → All (Before h w) ys
  All-append-right h w [] ys a = a
  All-append-right h w (x ∷ xs) ys a = All-append-right h w xs ys a.1

  -- The parts of a sorted set.
  pub Sorted-append-right : (h : Heap C) (xs ys : List ℕ) → Sorted h (xs ++ ys) → Sorted h ys
  Sorted-append-right h [] ys s = s
  Sorted-append-right h (x ∷ xs) ys s = Sorted-append-right h xs ys s.1

  pub Sorted-Distinct : (h : Heap C) (xs ys : List ℕ) → Sorted h (xs ++ ys) → Distinct xs
  Sorted-Distinct h [] ys s = tt
  Sorted-Distinct h (x ∷ xs) ys s =
      (ground (arith, not-mem h x (xs ++ ys) s.0, mem-append x xs ys), Sorted-Distinct h xs ys s.1)

  pub Sorted-apart :
      (h : Heap C) (xs ys : List ℕ) (b : ℕ)
      → Sorted h (xs ++ ys)
      → mem b xs ≡ true
      → mem b ys ≡ false
  Sorted-apart h [] ys b s e = absurd (ground arith)
  Sorted-apart h (x ∷ xs) ys b s e =
      ground (arith, not-mem h x (xs ++ ys) s.0, mem-append x xs ys, Sorted-apart h xs ys b s.1)

  -- Cutting the set in two leaves the loop's state.
  pub Pending-split :
      (m : Manager C) (now : ℕ) (xs ys : List ℕ)
      → Inv m
      → xs ++ ys ≡ m.timers
      → Pending (record m { timers = ys; previous_time = now }) xs
  Pending-split m now xs ys v e =
      let s : Sorted m.heap (xs ++ ys) = rw e v.sorted in
      record {
        sorted = Sorted-append-right m.heap xs ys s;
        distinct = Sorted-Distinct m.heap xs ys s;
        apart = λ b h. Sorted-apart m.heap xs ys b s h;
        armed = λ b. sym (mem-append b xs ys) ∙ rw e (v.armed b);
      }
