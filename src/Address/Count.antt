-- ===== src/Address/Count.antt =====
-- CountBytes of libcocao/address.cc against the binary digits of its argument.
use Prim.Native.Nat.{bit_and}
use libcocao.Base.{
  ℕ, zero, suc, ◌+◌, ◌-◌, ◌*◌, ◌/◌, ◌%◌, ◌^◌, ◌≤◌, ◌<◌, ◌≡◌, refl, ap, ◌∙◌, inl, inr, some, ◌==◌,
  ==_iff, Bool-cases, arith,
}
use native.Mathlib.Nat.{pow-suc}
use libcocao.Base.Bits.{bit_and-halves}
use libcocao.Address.{count_bytes}

-- The binary digits of w places that are one.
pub ones : ℕ → ℕ → ℕ
ones zero v = 0
ones (suc w) v = v % 2 + ones w (v / 2)

bit_and_self : (n a : ℕ) → a ≤ n → bit_and a a ≡ a
bit_and_self zero zero h = refl
bit_and_self zero (suc a) h = absurd (omega arith)
bit_and_self (suc n) zero h = refl
bit_and_self (suc n) (suc a) h =
    omega (arith, bit_and-halves (suc a) (suc a), bit_and_self n (suc a / 2) (omega arith))

-- `value & (value - 1)` is smaller and has one digit one less.
bit_and-pred :
    (w v : ℕ)
    → 0 < v
    → v < 2 ^ w
    → (bit_and v (v - 1) < v) × (ones w (bit_and v (v - 1)) + 1 ≡ ones w v)
unfolding ones
bit_and-pred zero v h l = absurd (omega arith)
bit_and-pred (suc w) v h l = elim (Bool-cases (v % 2 == 0)) [
  | inl even ↦
      let below : (v - 1) / 2 ≡ v / 2 - 1 = ground arith in
      let r : ℕ = bit_and (v / 2) (v / 2 - 1) in
      let ih : (r < v / 2) × (ones w r + 1 ≡ ones w (v / 2)) =
        bit_and-pred w (v / 2) (ground arith) (omega (arith, pow-suc 2 w)) in
      let whole : bit_and v (v - 1) ≡ r * 2 =
        ground (arith, bit_and-halves v (v - 1), ap (bit_and (v / 2)) below) in
      let half : bit_and v (v - 1) / 2 ≡ r = omega arith in
      (ground arith, ground (arith, ap (ones w) half))
  | inr odd ↦
      let below : (v - 1) / 2 ≡ v / 2 = ground arith in
      let whole : bit_and v (v - 1) ≡ v / 2 * 2 = ground (
        arith,
        bit_and-halves v (v - 1),
        ap (bit_and (v / 2)) below,
        bit_and_self (v / 2) (v / 2),
      ) in
      let half : bit_and v (v - 1) / 2 ≡ v / 2 = omega arith in
      (ground arith, ground (arith, ap (ones w) half))
]

ones-zero : (w : ℕ) → ones w 0 ≡ 0
unfolding ones
ones-zero zero = refl
ones-zero (suc w) = omega (arith, ones-zero w)

count_bytes_from :
    (w fuel v result : ℕ)
    → v < 2 ^ w
    → ones w v < fuel
    → count_bytes fuel v result ≡ some (result + ones w v)
unfolding count_bytes
count_bytes_from w zero v result h l = absurd (omega arith)
count_bytes_from w (suc fuel) v result h l = elim (Bool-cases (v == 0)) [
  | inl e ↦ rw e (ap some (ground (arith, ap (ones w) ((==_iff v 0).0 e), ones-zero w)))
  | inr e ↦
      let next = bit_and-pred w v (ground arith) h in
      rw e (
        count_bytes_from w fuel (bit_and v (v - 1)) (result + 1) (omega arith) (omega arith)
        ∙ ap some (omega (arith, next.1)))
]

ones-le : (w v : ℕ) → ones w v ≤ w
unfolding ones
ones-le zero v = omega arith
ones-le (suc w) v = omega (arith, ones-le w (v / 2))

-- For a value of w bits the loop ends within w + 1 rounds, and its result is the number of ones among
-- the binary digits of the value.
pub count_bytes_lem :
    (w fuel value : ℕ) → value < 2 ^ w → w < fuel → count_bytes fuel value 0 ≡ some (ones w value)
count_bytes_lem w fuel value h l =
    count_bytes_from w fuel value 0 h (omega (arith, ones-le w value)) ∙ ap some (omega arith)
