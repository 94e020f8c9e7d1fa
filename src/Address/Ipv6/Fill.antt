-- ===== src/Address/Ipv6/Fill.antt =====
-- The loops of IPv6Address in libcocao/address.cc that fill the bytes behind or before a prefix.
use native.Mathlib.Decide.{dec_lt}
use libcocao.Base.{
  ℕ, zero, suc, ◌+◌, ◌-◌, ◌≤◌, ◌<◌, ◌≡◌, refl, ◌∙◌, none, some, List, [], ◌∷◌, ltb, ◌==◌,
  if◌then◌else◌, length, get_elem?, set, replicate, get_elem?-set_self, get_elem?-set_ne,
  length-set, get_elem?-replicate, arith,
}
use libcocao.Address.Ipv6.{fill}

pub get_elem?-past : (bs : List ℕ) (i : ℕ) → length bs ≤ i → get_elem? bs i ≡ none
get_elem?-past [] i h = refl
get_elem?-past (b ∷ bs) zero h = absurd (omega arith)
get_elem?-past (b ∷ bs) (suc i) h = get_elem?-past bs i (omega arith)

length-fill : (n i v : ℕ) (bs : List ℕ) → length (fill n i v bs) ≡ length bs
unfolding fill
length-fill zero i v bs = refl
length-fill (suc n) i v bs = length-fill n (suc i) v (set bs i v) ∙ length-set bs i v

get-fill_before :
    (n i v : ℕ) (bs : List ℕ) (j : ℕ) → j < i → get_elem? (fill n i v bs) j ≡ get_elem? bs j
unfolding fill
get-fill_before zero i v bs j h = refl
get-fill_before (suc n) i v bs j h =
    get-fill_before n (suc i) v (set bs i v) j (omega arith)
    ∙ get_elem?-set_ne bs i j v (λ e. omega arith)

get-fill_in :
    (n i v : ℕ) (bs : List ℕ) (j : ℕ)
    → i ≤ j
    → j < i + n
    → i + n ≤ length bs
    → get_elem? (fill n i v bs) j ≡ some v
unfolding fill
get-fill_in zero i v bs j h l w = absurd (omega arith)
get-fill_in (suc n) i v bs j h l w = elim (dec_lt i j) [
  | yes later ↦
      get-fill_in n (suc i) v (set bs i v) j later (omega arith) (omega (arith, length-set bs i v))
  | no first ↦
      let same : j ≡ i = omega arith in
      rw same (
        get-fill_before n (suc i) v (set bs i v) i (omega arith)
        ∙ get_elem?-set_self bs i v (omega arith))
]

get-fill_past :
    (n i v : ℕ) (bs : List ℕ) (j : ℕ) → i + n ≤ j → get_elem? (fill n i v bs) j ≡ get_elem? bs j
unfolding fill
get-fill_past zero i v bs j h = refl
get-fill_past (suc n) i v bs j h =
    get-fill_past n (suc i) v (set bs i v) j (omega arith)
    ∙ get_elem?-set_ne bs i j v (λ e. omega arith)

-- The byte at i is written, and those behind it are filled.
pub tail_bytes :
    (bs : List ℕ) (i x v j : ℕ)
    → length bs ≡ 16
    → i < 16
    → j < 16
    → get_elem? (fill (16 - (i + 1)) (i + 1) v (set bs i x)) j
      ≡ (if ltb j i then get_elem? bs j else if j == i then some x else some v)
tail_bytes bs i x v j full h l = elim (dec_lt i j) [
  | yes later ↦
      ground (arith, get-fill_in (16 - (i + 1)) (i + 1) v (set bs i x) j, length-set bs i x)
  | no below ↦ elim (dec_lt j i) [
    | yes sooner ↦ ground (
      arith,
      get-fill_before (16 - (i + 1)) (i + 1) v (set bs i x) j,
      get_elem?-set_ne bs i j x (λ e. omega arith),
    )
    | no here ↦
        let same : j ≡ i = omega arith in
        rw same (
          ground (
            arith,
            get-fill_before (16 - (i + 1)) (i + 1) v (set bs i x) i,
            get_elem?-set_self bs i x,
          ))
  ]
]

-- The bytes before i are filled, and the byte at i is written.
pub prefix_bytes :
    (i x v j : ℕ)
    → i < 16
    → j < 16
    → get_elem? (fill i 0 v (set (replicate 16 0) i x)) j
      ≡ (if ltb j i then some v else if j == i then some x else some 0)
prefix_bytes i x v j h l = elim (dec_lt j i) [
  | yes sooner ↦
      ground
        (arith, get-fill_in i 0 v (set (replicate 16 0) i x) j, length-set (replicate 16 0) i x)
  | no other ↦ elim (dec_lt i j) [
    | yes later ↦ ground (
      arith,
      get-fill_past i 0 v (set (replicate 16 0) i x) j,
      get_elem?-set_ne (replicate 16 0) i j x (λ e. omega arith),
      get_elem?-replicate {A = ℕ} 16 0 j,
    )
    | no here ↦
        let same : j ≡ i = omega arith in
        rw same (
          ground (
            arith,
            get-fill_past i 0 v (set (replicate 16 0) i x) i,
            get_elem?-set_self (replicate 16 0) i x,
          ))
  ]
]
