-- ===== src/Address.antt =====
-- libcocao/address.cc and the byte orders of libcocao/endian.h: masks, the count of their bits, and the order of addresses by
-- their memory. Its children hold the classes of addresses. The host is little endian.
pub mod Ipv4
mod Runs
pub mod Ipv6
pub mod Lookup
pub mod Unix
pub mod Order
pub mod Count
use Prim.Native.Nat.{Ordering, compare, bit_and}
use libcocao.Base.{
  ℕ, zero, suc, ◌+◌, ◌-◌, ◌^◌, ◌%◌, Bool, true, false, not, ◌&&◌, Option, none, some, List, [], ◌∷◌,
  ltb, ◌==◌, if◌then◌else◌, length,
}

-- byteswapOnLittleEndian, which hands its argument on in both branches of the `#if`.
abbrev pub byteswap_on_little_endian : ℕ → ℕ
byteswap_on_little_endian t = t

-- A call that gives a pointer: `undefined` is undefined behaviour.
pub data Made {ℓ} (A : Type ℓ) : Type ℓ where
  made : A → Made A
  null undefined : Made A

-- CreateMask for a type of w bits. The shift has an `int` on its left: from 31 on it or the subtraction
-- overflows, and more bits than the type has wrap the shift's width.
pub create_mask : ℕ → ℕ → Option ℕ
create_mask w bits =
    if ltb w bits
    then none
    else if ltb 30 (w - bits)
    then none
    else some ((2 ^ (w - bits) - 1) % 2 ^ w)

-- CountBytes with fuel.
pub count_bytes : ℕ → ℕ → ℕ → Option ℕ
count_bytes zero value result = none
count_bytes (suc fuel) value result =
    let rest = count_bytes fuel (bit_and value (value - 1)) (result + 1) in
    if value == 0 then some result else rest

-- memcmp of n bytes: the order of the first two that differ.
pub memcmp : ℕ → List ℕ → List ℕ → Ordering
memcmp zero xs ys = Ordering.eq
memcmp (suc n) [] ys = Ordering.eq
memcmp (suc n) (x ∷ xs) [] = Ordering.eq
memcmp (suc n) (x ∷ xs) (y ∷ ys) =
    let rest = memcmp n xs ys in
    elim (compare x y) [
      | Ordering.lt ↦ Ordering.lt
      | Ordering.gt ↦ Ordering.gt
      | Ordering.eq ↦ rest
    ]

-- operator<, of the getAddrLen() bytes at getAddr().
pub less : List ℕ → List ℕ → Bool
unfolding memcmp
less a b =
    let shorter : Bool = ltb (length a) (length b) in
    elim (memcmp (if shorter then length a else length b) a b) [
      | Ordering.lt ↦ true
      | Ordering.gt ↦ false
      | Ordering.eq ↦ shorter
    ]

-- operator==.
pub equal : List ℕ → List ℕ → Bool
unfolding memcmp
equal a b = length a == length b && elim (memcmp (length a) a b) [
  | Ordering.eq ↦ true
  | Ordering.lt ↦ false
  | Ordering.gt ↦ false
]

-- operator!=.
pub not_equal : List ℕ → List ℕ → Bool
unfolding equal
not_equal a b = not (equal a b)
