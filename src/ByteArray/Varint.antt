-- ===== src/ByteArray/Varint.antt =====
-- Round trips of the codecs of libcocao/bytearray.cc.
use libcocao.Base.{
  ℕ, zero, suc, ◌+◌, ◌-◌, ◌*◌, ◌/◌, ◌%◌, ◌^◌, ◌≤◌, ◌<◌, ◌≡◌, ◌↔◌, refl, ◌∙◌, ap, false, none, some,
  List, [], ◌∷◌, ◌++◌, ltb, arith, Bool-cases, inl, inr,
}
use libcocao.FdManager.{ℤ, pos, negsuc}
use native.Mathlib.Nat.{pow-suc}
use libcocao.ByteArray.{
  encode_zigzag, signed, decode_zigzag, varint_bytes, write_uint32, write_uint64, read_loop,
  read_uint32, read_int32,
}

-- The numbers of w bits with a sign.
unfoldable pub InRange : ℕ → ℤ → Type 0
InRange w (pos n) = n < 2 ^ (w - 1)
InRange w (negsuc n) = n < 2 ^ (w - 1)

zigzag32_roundtrip : (v : ℤ) → InRange 32 v → decode_zigzag 32 (encode_zigzag 32 v) ≡ v
unfolding InRange decode_zigzag encode_zigzag signed
zigzag32_roundtrip (pos n) h = ground arith
zigzag32_roundtrip (negsuc n) h = ground arith

zigzag64_roundtrip : (v : ℤ) → InRange 64 v → decode_zigzag 64 (encode_zigzag 64 v) ≡ v
unfolding InRange decode_zigzag encode_zigzag signed
zigzag64_roundtrip (pos n) h = ground arith
zigzag64_roundtrip (negsuc n) h = ground arith

stuck : (room value : ℕ) → 128 ≤ value → varint_bytes (λ v. v) room value ≡ none
unfolding varint_bytes
stuck zero value h = refl
stuck (suc room) value h = rw (big, stuck room value h, varint_bytes) refl
  where
    big : ltb value 128 ≡ false
    big = ground arith

-- Seven bits and the rest of a number, at their places.
places : (q m p : ℕ) → m * p + q * (p * 128) ≡ (q * 128 + m) * p
places q m p = grind arith

split_bits : (v p : ℕ) → v % 128 * p + v / 128 * (p * 128) ≡ v * p
split_bits v p = places (v / 128) (v % 128) p ∙ ap (λ x. x * p) (omega arith)

pow_seven : (i : ℕ) → 2 ^ (i + 7) ≡ 2 ^ i * 128
pow_seven i = rw steps (omega arith)
  where
    steps : i + 7 ≡ suc (suc (suc (suc (suc (suc (suc i))))))
    steps = omega arith

mod_small : (a m : ℕ) → a < m → a % m ≡ a
mod_small a m h = grind arith

-- What the rounds left read of the bytes that the room left takes.
loop_roundtrip :
    (w room i r v : ℕ) (rest : List ℕ)
    → v < 128 ^ room
    → 1 ≤ room + v
    → v * 2 ^ i < 2 ^ w
    → (bs : List ℕ) × (varint_bytes (λ x. x / 128) room v ≡ some bs)
      × (read_loop w room i r (bs ++ rest) ≡ some (r + v * 2 ^ i, rest))
unfolding varint_bytes read_loop
loop_roundtrip w zero i r v rest h g k = absurd (omega arith)
loop_roundtrip w (suc room) i r v rest h g k = elim (Bool-cases (ltb v 128)) [
  | inl q ↦ (v ∷ [], rw q refl, rw (q, mod_small (v * 2 ^ i) (2 ^ w) k, read_loop) refl)
  | inr q ↦
      let r' = r + (v % 128 + 128) % 128 * 2 ^ i % 2 ^ w in
      let (bs, wrote, read) =
        loop_roundtrip w room (i + 7) r' (v / 128) rest (fits h) (ground (arith, q))
          (rw (pow_seven i) high) in
      (
        (v % 128 + 128) ∷ bs,
        rw (q, wrote, varint_bytes) refl,
        rw (marked, read_loop) (read ∙ rw (total) refl),
      )
]
  where
    fits : v < 128 ^ suc room → v / 128 < 128 ^ room
    fits h = omega (arith, pow-suc 128 room)

    low : (v % 128 + 128) % 128 ≡ v % 128
    low = omega arith

    marked : ltb (v % 128 + 128) 128 ≡ false
    marked = ground arith

    high : v / 128 * (2 ^ i * 128) < 2 ^ w
    high = omega (arith, split_bits v (2 ^ i), k)

    total : r + (v % 128 + 128) % 128 * 2 ^ i % 2 ^ w + v / 128 * 2 ^ (i + 7) ≡ r + v * 2 ^ i
    total =
        rw
          (
            low,
            mod_small (v % 128 * 2 ^ i) (2 ^ w) (omega (arith, split_bits v (2 ^ i), k)),
            pow_seven i,
          )
          (omega (arith, split_bits v (2 ^ i)))

-- Every 32-bit number that writeUint32_t writes fits its array, and readUint32 reads it back and takes
-- just its bytes, whatever follows.
pub varint32_roundtrip :
    (v : ℕ) (rest : List ℕ)
    → v < 2 ^ 32
    → (bs : List ℕ) × (write_uint32 v ≡ some bs) × (read_uint32 (bs ++ rest) ≡ some (v, rest))
unfolding write_uint32 read_uint32
varint32_roundtrip v rest h =
    let (bs, wrote, read) =
      loop_roundtrip 32 5 0 0 v rest (omega arith) (omega arith) (omega arith) in
    (bs, wrote, read ∙ ap (λ x. some (x, rest)) (omega arith))

encode_zigzag32_lt : (v : ℤ) → encode_zigzag 32 v < 2 ^ 32
unfolding encode_zigzag
encode_zigzag32_lt (pos n) = omega arith
encode_zigzag32_lt (negsuc n) = omega arith

-- For every int32_t, readInt32 reads back the number from the varint of its zigzag code, and takes
-- just its bytes.
int32_roundtrip :
    (v : ℤ) (rest : List ℕ)
    → InRange 32 v
    → (bs : List ℕ) × (write_uint32 (encode_zigzag 32 v) ≡ some bs)
      × (read_int32 (bs ++ rest) ≡ some (v, rest))
unfolding read_int32
int32_roundtrip v rest h =
    let (bs, wrote, read) = varint32_roundtrip (encode_zigzag 32 v) rest (encode_zigzag32_lt v) in
    (bs, wrote, rw (read, zigzag32_roundtrip v h, read_int32) refl)

-- writeUint64_t writes just the byte of the number for the numbers below 128. For all others it writes
-- past the end of its array of ten bytes.
write_uint64_lem :
    (v : ℕ) → ((write_uint64 v ≡ none) ↔ (128 ≤ v)) × ((write_uint64 v ≡ some (v ∷ [])) ↔ (v < 128))
unfolding write_uint64 varint_bytes
write_uint64_lem v = elim (Bool-cases (ltb v 128)) [
  | inl q ↦ rw (q, write_uint64) (ground (arith, q))
  | inr q ↦ rw (stuck 10 v (ground (arith, q)), write_uint64) (ground (arith, q))
]
