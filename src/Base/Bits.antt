-- ===== src/Base/Bits.antt =====
-- Bitwise operations at variables, one binary digit at a time, and the masks of lower and upper bits.
use Prim.Native.Nat.{
  ℕ, zero, suc, ◌+◌, ◌-◌, ◌*◌, ◌/◌, ◌%◌, ◌^◌, ◌≤◌, ◌<◌, min, max, bit_and, bit_or, digits,
  bit_and-bitwise, bit_or-bitwise,
}
use mathlib.Core.Path.{◌≡◌, refl, ◌∙◌, ap, sym}
use native.Mathlib.Nat.{pow-suc, div-div-eq-div-mul, div-add-mod', mod-eq_of_lt}
use native.Mathlib.Omega.{arith}

-- A bitwise operation: `last` is its result once the left number has no digit left, `digit` is its
-- result at one digit, and `computes` its definition.
module _ (last : ℕ → ℕ) (digit : ℕ → ℕ → ℕ) (bits : ℕ → ℕ → ℕ)
    (computes : (x y : ℕ) → bits x y ≡ digits last digit x x y) where
  -- One round more than the left number needs changes nothing.
  one_round_more : (x y k : ℕ) → x ≤ k → digits last digit (suc k) x y ≡ digits last digit k x y
  one_round_more zero y zero h = refl
  one_round_more zero y (suc k) h = refl
  one_round_more (suc x) y zero h = absurd (omega arith)
  one_round_more (suc x) y (suc k) h =
      ap (λ high. high * 2 + digit (suc x % 2) (y % 2))
        (one_round_more (suc x / 2) (y / 2) k (omega arith))

  rounds_more :
      (more total x y : ℕ)
      → total ≡ more + x
      → digits last digit total x y ≡ digits last digit x x y
  rounds_more zero total x y e = ap (λ n. digits last digit n x y) (omega (arith, e))
  rounds_more (suc more) zero x y e = absurd (omega arith)
  rounds_more (suc more) (suc total) x y e =
      one_round_more x y total (omega arith) ∙ rounds_more more total x y (omega arith)

  lowest_digit :
      (x y : ℕ) → bits (suc x) y ≡ bits (suc x / 2) (y / 2) * 2 + digit (suc x % 2) (y % 2)
  lowest_digit x y =
      computes (suc x) y
      ∙ ap (λ high. high * 2 + digit (suc x % 2) (y % 2))
          (rounds_more (x - suc x / 2) x (suc x / 2) (y / 2) (omega arith)
            ∙ sym (computes (suc x / 2) (y / 2)))

nothing-bit_and : (y : ℕ) → bit_and 0 y ≡ 0
nothing-bit_and = bit_and-bitwise 0

nothing-bit_or : (y : ℕ) → bit_or 0 y ≡ y
nothing-bit_or = bit_or-bitwise 0

pub bit_and-halves : (x y : ℕ) → bit_and x y ≡ bit_and (x / 2) (y / 2) * 2 + min (x % 2) (y % 2)
bit_and-halves zero y = nothing-bit_and y ∙ omega (arith, nothing-bit_and (y / 2))
bit_and-halves (suc x) y = lowest_digit (λ y. zero) min bit_and bit_and-bitwise x y

pub bit_or-halves : (x y : ℕ) → bit_or x y ≡ bit_or (x / 2) (y / 2) * 2 + max (x % 2) (y % 2)
bit_or-halves zero y = nothing-bit_or y ∙ omega (arith, nothing-bit_or (y / 2))
bit_or-halves (suc x) y = lowest_digit (λ y. y) max bit_or bit_or-bitwise x y

pub pow_pos : (k : ℕ) → 0 < 2 ^ k
pow_pos zero = omega arith
pow_pos (suc k) = omega (arith, pow-suc 2 k, pow_pos k)

double : (q p : ℕ) → q * (p * 2) ≡ q * p * 2
double q p = grind arith

half_mask : (p : ℕ) → 0 < p → (p * 2 - 1) / 2 ≡ p - 1
half_mask p h = omega arith

or_double :
    (a q p : ℕ)
    → 0 < p
    → bit_or (a / 2) (p - 1) ≡ q * p + (p - 1)
    → bit_or a (p * 2 - 1) ≡ q * (p * 2) + (p * 2 - 1)
or_double a q p h e =
    omega (arith, bit_or-halves a (p * 2 - 1), ap (bit_or (a / 2)) (half_mask p h), double q p, e)

half_div : (a p : ℕ) → a / 2 / p ≡ a / (p * 2)
half_div a p = div-div-eq-div-mul a 2 p ∙ ap (λ (m : ℕ). a / m) (omega arith)

and_double :
    (a r p : ℕ) → 0 < p → bit_and (a / 2) (p - 1) ≡ r → bit_and a (p * 2 - 1) ≡ r * 2 + a % 2
and_double a r p h e =
    omega (arith, bit_and-halves a (p * 2 - 1), ap (bit_and (a / 2)) (half_mask p h), e)

low_digits : (a p : ℕ) → a / 2 % p * 2 + a % 2 ≡ a % (p * 2)
low_digits a p = omega (
  arith,
  div-add-mod' a (p * 2),
  div-add-mod' (a / 2) p,
  ap (λ q. q * (p * 2)) (half_div a p),
  double (a / 2 / p) p,
)

and_clear :
    (a q n p : ℕ) → bit_and (a / 2) (n - p) ≡ q * p → bit_and a (n * 2 - p * 2) ≡ q * (p * 2)
and_clear a q n p e =
    let half : (n * 2 - p * 2) / 2 ≡ n - p = omega arith in
    omega (arith, bit_and-halves a (n * 2 - p * 2), ap (bit_and (a / 2)) half, double q p, e)

-- With nothing on the right: by a bound on the left number.
or_zero : (bound x : ℕ) → x ≤ bound → bit_or x 0 ≡ x
or_zero bound zero h = nothing-bit_or 0
or_zero zero (suc x) h = absurd (omega arith)
or_zero (suc bound) (suc x) h =
    bit_or-halves (suc x) 0 ∙ omega (arith, or_zero bound (suc x / 2) (omega arith))

and_zero : (bound x : ℕ) → x ≤ bound → bit_and x 0 ≡ 0
and_zero bound zero h = nothing-bit_and 0
and_zero zero (suc x) h = absurd (omega arith)
and_zero (suc bound) (suc x) h =
    bit_and-halves (suc x) 0 ∙ omega (arith, and_zero bound (suc x / 2) (omega arith))

-- A mask of the k lower bits.
pub bit_or-low_mask : (k a : ℕ) → bit_or a (2 ^ k - 1) ≡ a / 2 ^ k * 2 ^ k + (2 ^ k - 1)
bit_or-low_mask zero a = omega (arith, or_zero a a (omega arith))
bit_or-low_mask (suc k) a =
    let e : bit_or a (2 ^ k * 2 - 1) ≡ a / 2 / 2 ^ k * (2 ^ k * 2) + (2 ^ k * 2 - 1) =
      or_double a (a / 2 / 2 ^ k) (2 ^ k) (pow_pos k) (bit_or-low_mask k (a / 2)) in
    rw (pow-suc 2 k) (e ∙ ap (λ q. q * (2 ^ k * 2) + (2 ^ k * 2 - 1)) (half_div a (2 ^ k)))

-- A mask of the k lower bits alone.
pub bit_and-low_mask : (k a : ℕ) → bit_and a (2 ^ k - 1) ≡ a % 2 ^ k
bit_and-low_mask zero a = omega (arith, and_zero a a (omega arith))
bit_and-low_mask (suc k) a =
    let e : bit_and a (2 ^ k * 2 - 1) ≡ a / 2 % 2 ^ k * 2 + a % 2 =
      and_double a (a / 2 % 2 ^ k) (2 ^ k) (pow_pos k) (bit_and-low_mask k (a / 2)) in
    rw (pow-suc 2 k) (e ∙ low_digits a (2 ^ k))

-- A mask of all of n bits but the k lower ones.
pub bit_and-high_mask :
    (n k a : ℕ) → k ≤ n → a < 2 ^ n → bit_and a (2 ^ n - 2 ^ k) ≡ a / 2 ^ k * 2 ^ k
bit_and-high_mask n zero a h p = omega (arith, bit_and-low_mask n a, mod-eq_of_lt p)
bit_and-high_mask zero (suc k) a h p = absurd (omega arith)
bit_and-high_mask (suc n) (suc k) a h p =
    let e : bit_and a (2 ^ n * 2 - 2 ^ k * 2) ≡ a / 2 / 2 ^ k * (2 ^ k * 2) =
      and_clear a (a / 2 / 2 ^ k) (2 ^ n) (2 ^ k)
        (bit_and-high_mask n k (a / 2) (omega arith) (omega (arith, pow-suc 2 n))) in
    rw (pow-suc 2 k, pow-suc 2 n) (e ∙ ap (λ q. q * (2 ^ k * 2)) (half_div a (2 ^ k)))
