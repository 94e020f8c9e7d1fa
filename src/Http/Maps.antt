-- ===== src/Http/Maps.antt =====
-- What the operations of std::map do to the maps of libcocao/http/http.h.

use libcocao.Base.{
  ℕ, ◌≡◌, refl, sym, ◌∙◌, ◌⊎◌, inl, inr, Bool, true, false, Option, none, some, List, [], ◌∷◌,
  if◌then◌else◌, Bool-cases, All, arith,
}
use libcocao.Log.Pattern.{text_eq_sound}
use libcocao.Http.{fold, key_less, same_key, Headers, find, put, insert, erase}
use libcocao.Http.Order.{
  place, before, behind, same, fold-IsSame, same_key-left, same_key-right, key_less_trans,
}

-- find looks at the first entry, or at the rest.
find-cons :
    (j k v : List ℕ) (m : Headers)
    → find j ((k, v) ∷ m) ≡ (if same_key k j then some v else find j m)
unfolding find
find-cons j k v m = elim (place k j) [
  | before a b c d ↦ rw (a, c, find) refl
  | behind a b c d ↦ rw (a, b, c, find) refl
  | same e ↦ let f = fold-IsSame k j e in rw (f.not_less, f.not_greater, f.is_equal, find) refl
]

-- All keys are greater than k.
abbrev pub Below : List ℕ → Headers → Type 0
Below k = All (λ e. key_less k e.0 ≡ true)

-- The order of the keys, each of which is there once.
abbrev pub Sorted : Headers → Type 0
Sorted [] = Unit {0}
Sorted ((k, v) ∷ m) = Below k m × Sorted m

Below-trans : (i k : List ℕ) (m : Headers) → key_less i k ≡ true → Below k m → Below i m
Below-trans i k [] p h = tt
Below-trans i k ((j, v) ∷ m) p h = (key_less_trans i k j p h.0, Below-trans i k m p h.1)

find-Below : (i k : List ℕ) (m : Headers) → fold i ≡ fold k → Below k m → find i m ≡ none
unfolding find
find-Below i k [] e h = refl
find-Below i k ((j, v) ∷ m) e h = elim (place j i) [
  | before a b c d ↦ rw (a, find) (find-Below i k m e h.1)
  | behind a b c d ↦ rw (a, b, find) (find-Below i k m e h.1)
  | same f ↦ let g = fold-IsSame k j (sym e ∙ sym f) in absurd (ground (arith, g.not_less, h.0))
]

-- Keys that differ are not both the same as a third.
apart_keys :
    (i j k : List ℕ) → same_key k i ≡ false → (same_key i j ≡ false) ⊎ (same_key k j ≡ false)
apart_keys i j k c = elim (place i j) [
  | before p q r t ↦ inl r
  | behind p q r t ↦ inl r
  | same e ↦ inr (sym (same_key-right i j k e) ∙ c)
]

swap_tests :
    (p q : Bool) (x y z : Option (List ℕ))
    → (p ≡ false) ⊎ (q ≡ false)
    → (if p then x else (if q then y else z)) ≡ (if q then y else (if p then x else z))
swap_tests true true x y z h = absurd (ground arith)
swap_tests true false x y z h = refl
swap_tests false true x y z h = refl
swap_tests false false x y z h = refl

test_twice :
    (p : Bool) (x y z : Option (List ℕ))
    → (if p then x else z) ≡ (if p then x else (if p then y else z))
test_twice true x y z = refl
test_twice false x y z = refl

-- find behind `m[key] = val`.
pub find-put :
    (j k v : List ℕ) (m : Headers)
    → find j (put k v m) ≡ (if same_key k j then some v else find j m)
unfolding put
find-put j k v [] = find-cons j k v []
find-put j k v ((i, w) ∷ m) = elim (place k i) [
  | before a b c d ↦ rw (a, put) (find-cons j k v ((i, w) ∷ m))
  | behind a b c d ↦
      rw (a, b, find-cons j i w m, put)
        (find-cons j i w (put k v m)
          ∙ rw (find-put j k v m)
              (swap_tests (same_key i j) (same_key k j) _ _ _ (apart_keys i j k c)))
  | same e ↦
      let f = fold-IsSame k i e in
      rw (f.not_less, f.not_greater, find-cons j i w m, put)
        (find-cons j i v m ∙ rw (same_key-left i k j (sym e)) (test_twice (same_key k j) _ _ _))
]

pub find-nil : (k : List ℕ) → find k [] ≡ none
unfolding find
find-nil k = refl

-- find behind `m.insert(make_pair(key, val))`.
pub find-insert :
    (j k v : List ℕ) (m : Headers)
    → Sorted m
    → find j (insert k v m)
      ≡ (if same_key k j then elim (find k m) [ none ↦ some v | some w ↦ some w ] else find j m)
unfolding insert
find-insert j k v [] h = rw (find-nil k) (find-cons j k v [])
find-insert j k v ((i, w) ∷ m) h = elim (place k i) [
  | before a b c d ↦
      let no_key : find k ((i, w) ∷ m) ≡ none =
        find-Below k k ((i, w) ∷ m) refl (a, Below-trans k i m a h.0) in
      rw (a, no_key, insert) (find-cons j k v ((i, w) ∷ m))
  | behind a b c d ↦
      let later : find k ((i, w) ∷ m) ≡ find k m = find-cons k i w m ∙ rw d refl in
      rw (a, b, later, find-cons j i w m, insert)
        (find-cons j i w (insert k v m)
          ∙ rw (find-insert j k v m h.1)
              (swap_tests (same_key i j) (same_key k j) _ _ _ (apart_keys i j k c)))
  | same e ↦
      let f = fold-IsSame k i e in
      let here : find k ((i, w) ∷ m) ≡ some w = find-cons k i w m ∙ rw f.equal_back refl in
      rw (f.not_less, f.not_greater, here, find-cons j i w m, insert)
        (rw (same_key-left i k j (sym e)) (test_twice (same_key k j) _ _ _))
]

same_key_sound : (j k : List ℕ) → same_key j k ≡ true → fold j ≡ fold k
unfolding same_key
same_key_sound j k = text_eq_sound (fold j) (fold k)

pub find-same : (j k : List ℕ) (m : Headers) → same_key k j ≡ true → find k m ≡ find j m
find-same j k [] e = find-nil k ∙ sym (find-nil j)
find-same j k ((i, w) ∷ m) e =
    let either : same_key i k ≡ same_key i j = same_key-right k j i (same_key_sound k j e) in
    find-cons k i w m ∙ rw (either, find-same j k m e) (sym (find-cons j i w m))

-- find behind `m.erase(key)`.
pub find-erase :
    (j k : List ℕ) (m : Headers)
    → Sorted m
    → find j (erase k m) ≡ (if same_key k j then none else find j m)
unfolding erase
find-erase j k [] h = elim (Bool-cases (same_key k j)) [
  | inl e ↦ rw e (find-nil j)
  | inr e ↦ rw e refl
]
find-erase j k ((i, w) ∷ m) h = elim (place i k) [
  | before a b c d ↦
      rw (a, find-cons j i w m, erase)
        (find-cons j i w (erase k m)
          ∙ rw (find-erase j k m h.1)
              (swap_tests (same_key i j) (same_key k j) _ _ _ (apart_keys i j k d)))
  | behind a b c d ↦
      rw (a, b, find-cons j i w m, erase)
        (find-cons j i w (erase k m)
          ∙ rw (find-erase j k m h.1)
              (swap_tests (same_key i j) (same_key k j) _ _ _ (apart_keys i j k d)))
  | same e ↦
      let f = fold-IsSame i k e in
      let left : same_key i j ≡ same_key k j = same_key-left i k j e in
      rw (f.not_less, f.not_greater, find-cons j i w m, left, erase)
        (elim (Bool-cases (same_key k j)) [
          | inl q ↦ rw q (find-Below j i m (sym (e ∙ same_key_sound k j q)) h.0)
          | inr q ↦ rw q refl
        ])
]

module _ (i k v : List ℕ) where
  Below-put : (m : Headers) → key_less i k ≡ true → Below i m → Below i (put k v m)
  unfolding put
  Below-put [] p h = (p, tt)
  Below-put ((j, w) ∷ m) p (q, h) = elim (place k j) [
    | before a b c d ↦ rw (a, put) (p, (q, h))
    | behind a b c d ↦ rw (a, b, put) (q, Below-put m p h)
    | same e ↦ let f = fold-IsSame k j e in rw (f.not_less, f.not_greater, put) (q, h)
  ]

  Below-insert : (m : Headers) → key_less i k ≡ true → Below i m → Below i (insert k v m)
  unfolding insert
  Below-insert [] p h = (p, tt)
  Below-insert ((j, w) ∷ m) p (q, h) = elim (place k j) [
    | before a b c d ↦ rw (a, insert) (p, (q, h))
    | behind a b c d ↦ rw (a, b, insert) (q, Below-insert m p h)
    | same e ↦ let f = fold-IsSame k j e in rw (f.not_less, f.not_greater, insert) (q, h)
  ]

Below-erase : (i k : List ℕ) (m : Headers) → Below i m → Below i (erase k m)
unfolding erase
Below-erase i k [] h = tt
Below-erase i k ((j, w) ∷ m) (q, h) = elim (place j k) [
  | before a b c d ↦ rw (a, erase) (q, Below-erase i k m h)
  | behind a b c d ↦ rw (a, b, erase) (q, Below-erase i k m h)
  | same e ↦ let f = fold-IsSame j k e in rw (f.not_less, f.not_greater, erase) h
]

Sorted-put : (k v : List ℕ) (m : Headers) → Sorted m → Sorted (put k v m)
unfolding put
Sorted-put k v [] h = (tt, tt)
Sorted-put k v ((j, w) ∷ m) (b, h) = elim (place k j) [
  | before a b' c d ↦ rw (a, put) ((a, Below-trans k j m a b), (b, h))
  | behind a b' c d ↦ rw (a, b', put) (Below-put j k v m b' b, Sorted-put k v m h)
  | same e ↦ let f = fold-IsSame k j e in rw (f.not_less, f.not_greater, put) (b, h)
]

Sorted-insert : (k v : List ℕ) (m : Headers) → Sorted m → Sorted (insert k v m)
unfolding insert
Sorted-insert k v [] h = (tt, tt)
Sorted-insert k v ((j, w) ∷ m) (b, h) = elim (place k j) [
  | before a b' c d ↦ rw (a, insert) ((a, Below-trans k j m a b), (b, h))
  | behind a b' c d ↦ rw (a, b', insert) (Below-insert j k v m b' b, Sorted-insert k v m h)
  | same e ↦ let f = fold-IsSame k j e in rw (f.not_less, f.not_greater, insert) (b, h)
]

Sorted-erase : (k : List ℕ) (m : Headers) → Sorted m → Sorted (erase k m)
unfolding erase
Sorted-erase k [] h = tt
Sorted-erase k ((j, w) ∷ m) (b, h) = elim (place j k) [
  | before a b' c d ↦ rw (a, erase) (Below-erase j k m b, Sorted-erase k m h)
  | behind a b' c d ↦ rw (a, b', erase) (Below-erase j k m b, Sorted-erase k m h)
  | same e ↦ let f = fold-IsSame j k e in rw (f.not_less, f.not_greater, erase) h
]

-- On a map in order, `m[key] = val`, insert and erase keep the order, and a lookup afterwards, with a key in any
-- case, gives the new value, the value that was there before or else the new one, and none; all
-- other keys have the value that they had.
pub maps_lem :
    (j k v : List ℕ) (m : Headers)
    → Sorted m
    → Sorted (put k v m)
      × Sorted (insert k v m)
      × Sorted (erase k m)
      × (find j (put k v m) ≡ (if same_key k j then some v else find j m))
      × (find j (insert k v m) ≡ (
          if same_key k j then elim (find k m) [ none ↦ some v | some w ↦ some w ] else find j m))
      × (find j (erase k m) ≡ (if same_key k j then none else find j m))
maps_lem j k v m h = (
  Sorted-put k v m h,
  Sorted-insert k v m h,
  Sorted-erase k m h,
  find-put j k v m,
  find-insert j k v m h,
  find-erase j k m h,
)
