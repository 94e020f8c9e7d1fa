-- ===== src/Http/Cuts.antt =====
-- The search for a character in the texts of libcocao/http.
use libcocao.Base.{
  ℕ, ◌+◌, ◌≡◌, ◌≢◌, refl, inl, inr, none, some, List, [], ◌∷◌, ◌++◌, Option-cases, All, length,
  arith,
}
use libcocao.Http.{cut}

pub cut-append : (c : ℕ) (a b : List ℕ) → All (λ x. x ≢ c) a → cut c (a ++ c ∷ b) ≡ some (a, b)
unfolding cut
cut-append c [] b h = ground arith
cut-append c (x ∷ a) b h = ground (arith, cut-append c a b h.1)

pub cut-none : (c : ℕ) (a : List ℕ) → All (λ x. x ≢ c) a → cut c a ≡ none
unfolding cut
cut-none c [] h = refl
cut-none c (x ∷ a) h = ground (arith, cut-none c a h.1)

-- What is cut and the character are the whole text.
pub length-cut :
    (c : ℕ) (s a b : List ℕ) → cut c s ≡ some (a, b) → length a + length b + 1 ≡ length s
unfolding cut
length-cut c [] a b e = absurd (ground arith)
length-cut c (x ∷ s) a b e = elim (Option-cases (cut c s)) [
  | inl f ↦ ground (arith, f)
  | inr ((p, q), f) ↦ ground (arith, f, length-cut c s p q f)
]
