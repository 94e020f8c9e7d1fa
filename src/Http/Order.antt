-- ===== src/Http/Order.antt =====
-- The order of the keys of the maps of libcocao/http/http.h, CaseInsensitiveLess.
use native.Mathlib.Decide.{dec_lt}
use libcocao.Base.{ℕ, ◌≡◌, refl, ap, sym, ◌∙◌, ◌⊎◌, inl, inr, true, false, List, [], ◌∷◌, arith}
use libcocao.Log.{text_eq}
use libcocao.Log.Pattern.{text_eq_self}
use libcocao.Http.{fold, text_less, key_less, same_key}

-- How two texts lie in the order.
record IsBefore (s t : List ℕ) : Type 0 where
  is_less : text_less s t ≡ true
  not_greater : text_less t s ≡ false
  differs : text_eq s t ≡ false
  differs_back : text_eq t s ≡ false

text_cases : (s t : List ℕ) → IsBefore s t ⊎ IsBefore t s ⊎ (s ≡ t)
unfolding text_less
text_cases [] [] = inr (inr refl)
text_cases [] (y ∷ t) =
    inl (record { is_less = refl; not_greater = refl; differs = refl; differs_back = refl })
text_cases (x ∷ s) [] =
    inr (inl (record { is_less = refl; not_greater = refl; differs = refl; differs_back = refl }))
text_cases (x ∷ s) (y ∷ t) = elim (dec_lt x y) [
  | yes p ↦ inl (record {
    is_less = ground arith;
    not_greater = ground arith;
    differs = ground arith;
    differs_back = ground arith;
  })
  | no p ↦ elim (dec_lt y x) [
    | yes q ↦ inr (
        inl (record {
          is_less = ground arith;
          not_greater = ground arith;
          differs = ground arith;
          differs_back = ground arith;
        }))
    | no q ↦
        let same : x ≡ y = omega arith in
        elim (text_cases s t) [
          | inl b ↦ inl (record {
            is_less = ground (arith, b.is_less);
            not_greater = ground (arith, b.not_greater);
            differs = ground (arith, b.differs);
            differs_back = ground (arith, b.differs_back);
          })
          | inr (inl b) ↦ inr (
              inl (record {
                is_less = ground (arith, b.is_less);
                not_greater = ground (arith, b.not_greater);
                differs = ground (arith, b.differs);
                differs_back = ground (arith, b.differs_back);
              }))
          | inr (inr e) ↦ inr (inr (cc (same, e)))
        ]
  ]
]

text_less_self : (s : List ℕ) → text_less s s ≡ false
unfolding text_less
text_less_self [] = refl
text_less_self (x ∷ s) = ground (arith, text_less_self s)

text_less_trans :
    (s t u : List ℕ) → text_less s t ≡ true → text_less t u ≡ true → text_less s u ≡ true
unfolding text_less
text_less_trans s [] [] p q = absurd (ground arith)
text_less_trans s (y ∷ t) [] p q = absurd (ground arith)
text_less_trans [] [] (z ∷ u) p q = q
text_less_trans [] (y ∷ t) (z ∷ u) p q = refl
text_less_trans (x ∷ s) [] (z ∷ u) p q = absurd (ground arith)
text_less_trans (x ∷ s) (y ∷ t) (z ∷ u) p q = ground (arith, text_less_trans s t u)

-- How two keys lie: a proof of what every test of them answers.
pub data Place (j k : List ℕ) : Type 0 where
  before :
      key_less j k ≡ true
      → key_less k j ≡ false
      → same_key j k ≡ false
      → same_key k j ≡ false
      → Place j k
  behind :
      key_less j k ≡ false
      → key_less k j ≡ true
      → same_key j k ≡ false
      → same_key k j ≡ false
      → Place j k
  same : fold j ≡ fold k → Place j k

pub place : (j k : List ℕ) → Place j k
unfolding key_less same_key
place j k = elim (text_cases (fold j) (fold k)) [
  | inl b ↦ before b.is_less b.not_greater b.differs b.differs_back
  | inr (inl b) ↦ behind b.not_greater b.is_less b.differs_back b.differs
  | inr (inr e) ↦ same e
]

pub record IsSame (j k : List ℕ) : Type 0 where
  pub not_less : key_less j k ≡ false
  pub not_greater : key_less k j ≡ false
  pub is_equal : same_key j k ≡ true
  pub equal_back : same_key k j ≡ true

pub fold-IsSame : (j k : List ℕ) → fold j ≡ fold k → IsSame j k
unfolding key_less same_key
fold-IsSame j k e = record {
  not_less = ap (text_less (fold j)) (sym e) ∙ text_less_self (fold j);
  not_greater = ap (text_less (fold k)) e ∙ text_less_self (fold k);
  is_equal = ap (text_eq (fold j)) (sym e) ∙ text_eq_self (fold j);
  equal_back = ap (text_eq (fold k)) e ∙ text_eq_self (fold k);
}

pub same_key-left : (i j k : List ℕ) → fold i ≡ fold j → same_key i k ≡ same_key j k
unfolding same_key
same_key-left i j k e = ap (λ s. text_eq s (fold k)) e

pub same_key-right : (i j k : List ℕ) → fold i ≡ fold j → same_key k i ≡ same_key k j
unfolding same_key
same_key-right i j k e = ap (text_eq (fold k)) e

pub key_less_trans :
    (i j k : List ℕ) → key_less i j ≡ true → key_less j k ≡ true → key_less i k ≡ true
unfolding key_less
key_less_trans i j k = text_less_trans (fold i) (fold j) (fold k)

pub key_less-left : (i j k : List ℕ) → fold i ≡ fold j → key_less i k ≡ key_less j k
unfolding key_less
key_less-left i j k e = ap (λ s. text_less s (fold k)) e
