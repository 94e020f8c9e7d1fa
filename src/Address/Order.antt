-- ===== src/Address/Order.antt =====
-- operator<, operator== and operator!= of libcocao/address.cc as an order of addresses.

use libcocao.Base.{
  ℕ, ◌≡◌, refl, subst, ◌↔◌, inl, inr, Bool, true, false, not, ◌&&◌, ◌||◌, List, [], ◌∷◌, ltb, ◌==◌,
  ==_iff, if◌then◌else◌, Bool-cases, length, arith,
}
use libcocao.Address.{memcmp, less, equal}

-- The first elements decide, or the rest.
abbrev by_head : ℕ → ℕ → Bool → Bool
by_head x y rest = if ltb x y then true else if x == y then rest else false

abbrev same_head : ℕ → ℕ → Bool → Bool
same_head x y rest = if x == y then rest else false

less-cons : (x y : ℕ) (a b : List ℕ) → less (x ∷ a) (y ∷ b) ≡ by_head x y (less a b)
unfolding less memcmp
less-cons x y a b = elim (Bool-cases (ltb (length a) (length b))) [
  | inl e ↦ ground (arith, e)
  | inr e ↦ ground (arith, e)
]

equal-cons : (x y : ℕ) (a b : List ℕ) → equal (x ∷ a) (y ∷ b) ≡ same_head x y (equal a b)
unfolding equal memcmp
equal-cons x y a b = ground arith

equal_cons_nil : (x : ℕ) (a : List ℕ) → equal (x ∷ a) [] ≡ false
unfolding equal
equal_cons_nil x a = ground arith

equal_nil_cons : (x : ℕ) (a : List ℕ) → equal [] (x ∷ a) ≡ false
unfolding equal
equal_nil_cons x a = ground arith

less-nil : (a : List ℕ) → less a [] ≡ false
unfolding less memcmp
less-nil [] = refl
less-nil (x ∷ a) = ground arith

nil-less : (x : ℕ) (a : List ℕ) → less [] (x ∷ a) ≡ true
unfolding less memcmp
nil-less x a = ground arith

equal_self : (a : List ℕ) → equal a a ≡ true
unfolding equal memcmp
equal_self [] = refl
equal_self (x ∷ a) = ground (arith, equal-cons x x a a, equal_self a)

less_other : (a b : List ℕ) → less b a ≡ not (less a b || equal a b)
less_other [] [] = rw (less-nil [], equal_self []) refl
less_other [] (y ∷ b) = ground (arith, less-nil (y ∷ b), nil-less y b)
less_other (x ∷ a) [] = ground (arith, less-nil (x ∷ a), nil-less x a, equal_cons_nil x a)
less_other (x ∷ a) (y ∷ b) =
    ground (arith, less-cons x y a b, less-cons y x b a, equal-cons x y a b, less_other a b)

equal_sound : (a b : List ℕ) → equal a b ≡ true → a ≡ b
equal_sound [] [] h = refl
equal_sound [] (y ∷ b) h = absurd (ground (arith, equal_nil_cons y b))
equal_sound (x ∷ a) [] h = absurd (ground (arith, equal_cons_nil x a))
equal_sound (x ∷ a) (y ∷ b) h = elim (Bool-cases (x == y)) [
  | inl e ↦ cc ((==_iff x y).0 e, equal_sound a b (ground (arith, equal-cons x y a b)))
  | inr e ↦ absurd (ground (arith, equal-cons x y a b))
]

less_trans : (a b c : List ℕ) → less a b ≡ true → less b c ≡ true → less a c ≡ true
less_trans a [] c p q = absurd (ground (arith, less-nil a))
less_trans [] (y ∷ b) [] p q = absurd (ground (arith, less-nil (y ∷ b)))
less_trans [] (y ∷ b) (z ∷ c) p q = nil-less z c
less_trans (x ∷ a) (y ∷ b) [] p q = absurd (ground (arith, less-nil (y ∷ b)))
less_trans (x ∷ a) (y ∷ b) (z ∷ c) p q =
    ground (arith, less-cons x y a b, less-cons y z b c, less-cons x z a c, less_trans a b c)

-- The order of addresses is strict and total: of two addresses, either they are the same bytes and
-- compare equal, or just one is less, and what is less than a lesser one is less.
pub order_lem :
    (a b c : List ℕ)
    → (less b a ≡ not (less a b || equal a b))
      × ((equal a b ≡ true) ↔ (a ≡ b))
      × ((less a b && less b c && not (less a c)) ≡ false)
order_lem a b c = (
  less_other a b,
  (equal_sound a b, λ e. subst (λ d. equal a d ≡ true) e (equal_self a)),
  elim (Bool-cases (less a b)) [
    | inl p ↦ elim (Bool-cases (less b c)) [
      | inl q ↦ rw (p, q, less_trans a b c p q) refl
      | inr q ↦ rw (p, q) refl
    ]
    | inr p ↦ rw p refl
  ],
)
