-- ===== src/Timer/Set.antt =====
-- The std::set of timer.h: its order, and what find, insert and erase do to a sorted set.
use libcocao.Base.{
  ℕ, ◌≡◌, refl, ◌≢◌, inl, inr, Bool, true, false, not, ◌&&◌, ◌||◌, some, List, [], ◌∷◌, arith, ◌==◌,
  Bool-cases, All,
}
use libcocao.Timer.{Timer, Heap, update, comparator, set_insert, set_find, set_erase}

abbrev pub mem : ℕ → List ℕ → Bool
mem a [] = false
mem a (x ∷ xs) = (a == x) || mem a xs

module _ {ℓ} {C : Type ℓ} where
  abbrev pub Before : Heap C → ℕ → ℕ → Type 0
  Before h a b = comparator h (some a) (some b) ≡ true

  -- Each timer comes before all that follow it.
  abbrev pub Sorted : Heap C → List ℕ → Type 0
  Sorted h [] = Unit {0}
  Sorted h (x ∷ xs) = All (Before h x) xs × Sorted h xs

  pub comparator_irrefl : (h : Heap C) (a : ℕ) → comparator h (some a) (some a) ≡ false
  unfolding comparator
  comparator_irrefl h a = ground arith

  pub comparator_asymm :
      (h : Heap C) (a b : ℕ) → Before h a b → comparator h (some b) (some a) ≡ false
  unfolding comparator
  comparator_asymm h a b p = ground arith

  pub comparator_trans : (h : Heap C) (a b c : ℕ) → Before h a b → Before h b c → Before h a c
  unfolding comparator
  comparator_trans h a b c p q = ground arith

  -- Two timers that neither comes before the other are one.
  pub comparator_connex :
      (h : Heap C) (a b : ℕ)
      → comparator h (some a) (some b) ≡ false
      → comparator h (some b) (some a) ≡ false
      → a ≡ b
  unfolding comparator
  comparator_connex h a b p q = ground arith

  pub comparator-update :
      (h : Heap C) (k : ℕ) (t : Timer C) (a b : ℕ)
      → a ≢ k
      → b ≢ k
      → comparator (update h k t) (some a) (some b) ≡ comparator h (some a) (some b)
  unfolding comparator
  comparator-update h k t a b p q = ground arith

  pub All-mem :
      (h : Heap C) (x y : ℕ) (xs : List ℕ) → All (Before h x) xs → mem y xs ≡ true → Before h x y
  All-mem h x y [] a m = absurd (ground arith)
  All-mem h x y (z ∷ zs) a m = ground (arith, All-mem h x y zs)

  All-Before :
      (h : Heap C) (w x : ℕ) (xs : List ℕ)
      → Before h w x
      → All (Before h x) xs
      → All (Before h w) xs
  All-Before h w x [] p a = tt
  All-Before h w x (z ∷ zs) p a = (comparator_trans h w x z p a.0, All-Before h w x zs p a.1)

  -- A timer before the head of a sorted set is not in it, and the head is not in the tail.
  pub not-mem : (h : Heap C) (a : ℕ) (xs : List ℕ) → All (Before h a) xs → mem a xs ≡ false
  not-mem h a xs p = elim (Bool-cases (mem a xs)) [
    | inl e ↦ ground (arith, All-mem h a a xs p e, comparator_irrefl h a)
    | inr e ↦ e
  ]

  pub set_find-mem : (h : Heap C) (a : ℕ) (xs : List ℕ) → Sorted h xs → set_find h a xs ≡ mem a xs
  unfolding set_find
  set_find-mem h a [] s = refl
  set_find-mem h a (x ∷ xs) s = ground (
    arith,
    set_find-mem h a xs s.1,
    comparator_irrefl h x,
    comparator_connex h a x,
    not-mem h a xs,
    All-Before h a x xs,
  )

  All-set_insert :
      (h : Heap C) (w a : ℕ) (xs : List ℕ)
      → Before h w a
      → All (Before h w) xs
      → All (Before h w) (set_insert h a xs)
  unfolding set_insert
  All-set_insert h w a [] p s = (p, tt)
  All-set_insert h w a (x ∷ xs) p s = ground (arith, All-set_insert h w a xs p s.1)

  pub set_insert-Sorted :
      (h : Heap C) (a : ℕ) (xs : List ℕ) → Sorted h xs → Sorted h (set_insert h a xs)
  unfolding set_insert
  set_insert-Sorted h a [] s = (tt, tt)
  set_insert-Sorted h a (x ∷ xs) s =
      ground (arith, set_insert-Sorted h a xs s.1, All-Before h a x xs, All-set_insert h x a xs)

  pub mem-set_insert :
      (h : Heap C) (b a : ℕ) (xs : List ℕ) → mem b (set_insert h a xs) ≡ (b == a) || mem b xs
  unfolding set_insert
  mem-set_insert h b a [] = refl
  mem-set_insert h b a (x ∷ xs) = ground (arith, mem-set_insert h b a xs, comparator_connex h a x)

  All-set_erase :
      (h : Heap C) (w a : ℕ) (xs : List ℕ)
      → All (Before h w) xs
      → All (Before h w) (set_erase h a xs)
  unfolding set_erase
  All-set_erase h w a [] s = tt
  All-set_erase h w a (x ∷ xs) s = ground (arith, All-set_erase h w a xs s.1)

  pub set_erase-Sorted :
      (h : Heap C) (a : ℕ) (xs : List ℕ) → Sorted h xs → Sorted h (set_erase h a xs)
  unfolding set_erase
  set_erase-Sorted h a [] s = tt
  set_erase-Sorted h a (x ∷ xs) s =
      ground (arith, set_erase-Sorted h a xs s.1, All-set_erase h x a xs s.0)

  pub mem-set_erase :
      (h : Heap C) (b a : ℕ) (xs : List ℕ)
      → Sorted h xs
      → mem b (set_erase h a xs) ≡ mem b xs && not (b == a)
  unfolding set_erase
  mem-set_erase h b a [] s = refl
  mem-set_erase h b a (x ∷ xs) s = ground (
    arith,
    mem-set_erase h b a xs s.1,
    comparator_irrefl h x,
    comparator_connex h a x,
    not-mem h a xs,
    All-Before h a x xs,
  )

  All-update :
      (h : Heap C) (k : ℕ) (t : Timer C) (w : ℕ) (xs : List ℕ)
      → w ≢ k
      → mem k xs ≡ false
      → All (Before h w) xs
      → All (Before (update h k t) w) xs
  All-update h k t w [] n m s = tt
  All-update h k t w (x ∷ xs) n m s =
      ground (arith, All-update h k t w xs n, comparator-update h k t w x n)

  -- Writing to a timer outside the set leaves it sorted.
  pub Sorted-update :
      (h : Heap C) (k : ℕ) (t : Timer C) (xs : List ℕ)
      → mem k xs ≡ false
      → Sorted h xs
      → Sorted (update h k t) xs
  Sorted-update h k t [] m s = tt
  Sorted-update h k t (x ∷ xs) m s = ground (arith, Sorted-update h k t xs, All-update h k t x xs)
