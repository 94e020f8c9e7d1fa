-- ===== src/ByteArray/Fixed/RoundTrip.antt =====
-- Round trips of the codecs of fixed width and of strings in libcocao/bytearray.cc.
use mathlib.Core.List.{reverse, reverse-cons, reverse-reverse, append_assoc}
use native.Mathlib.Nat.{pow-suc, mod-eq_of_lt}
use libcocao.Base.{
  ℕ, zero, suc, ◌+◌, ◌-◌, ◌*◌, inl, inr, Bool-cases, ◌/◌, ◌%◌, ◌^◌, ◌<◌, ◌≡◌, refl, ◌∙◌, ap, sym,
  subst, Bool, true, false, some, List, [], ◌∷◌, ◌++◌, ltb, length, drop, length-append, All, arith,
}
use libcocao.ByteArray.{signed, read_uint64}
use libcocao.ByteArray.Blocks.Copy.{take-append, take_all, drop-append_past, All-append}
use libcocao.ByteArray.Fixed.{
  le_bytes, of_le, byteswap, in_order, write_fixed, read_bytes, read_number, read_fixed,
  to_unsigned, write_string, read_string, write_string_vint, read_string_vint,
}

of_le-le_bytes : (w v : ℕ) → v < 256 ^ w → of_le (le_bytes w v) ≡ v
unfolding of_le le_bytes
of_le-le_bytes zero v h = omega arith
of_le-le_bytes (suc w) v h =
    omega (arith, of_le-le_bytes w (v / 256) (omega (arith, h, pow-suc 256 w)))

abbrev IsByte : ℕ → Type 0
IsByte b = b < 256

le_bytes-of_le : (bs : List ℕ) → All IsByte bs → le_bytes (length bs) (of_le bs) ≡ bs
unfolding of_le le_bytes
le_bytes-of_le [] h = refl
le_bytes-of_le (b ∷ bs) (h, hs) = rw (low, high) (ap (λ l. b ∷ l) (le_bytes-of_le bs hs))
  where
    low : (b + 256 * of_le bs) % 256 ≡ b
    low = omega (arith, h)

    high : (b + 256 * of_le bs) / 256 ≡ of_le bs
    high = omega (arith, h)

length-le_bytes : (w v : ℕ) → length (le_bytes w v) ≡ w
unfolding le_bytes
length-le_bytes zero v = refl
length-le_bytes (suc w) v = ap suc (length-le_bytes w (v / 256))

le_bytes-IsByte : (w v : ℕ) → All IsByte (le_bytes w v)
unfolding le_bytes
le_bytes-IsByte zero v = tt
le_bytes-IsByte (suc w) v = (omega arith, le_bytes-IsByte w (v / 256))

length-reverse : (bs : List ℕ) → length (reverse bs) ≡ length bs
length-reverse [] = refl
length-reverse (b ∷ bs) =
    ap length (reverse-cons b bs)
    ∙ omega (arith, length-append (reverse bs) (b ∷ []), length-reverse bs)

reverse-IsByte : (bs : List ℕ) → All IsByte bs → All IsByte (reverse bs)
reverse-IsByte [] h = tt
reverse-IsByte (b ∷ bs) (h, hs) =
    rw (reverse-cons b bs) (All-append IsByte (reverse bs) (b ∷ []) (reverse-IsByte bs hs) (h, tt))

-- The memory of a swapped number is the reversed memory.
le_bytes-byteswap : (w v : ℕ) → le_bytes w (byteswap w v) ≡ reverse (le_bytes w v)
unfolding byteswap
le_bytes-byteswap w v =
    ap (λ n. le_bytes n (byteswap w v)) (sym (length-reverse (le_bytes w v) ∙ length-le_bytes w v))
    ∙ le_bytes-of_le (reverse (le_bytes w v)) (reverse-IsByte (le_bytes w v) (le_bytes-IsByte w v))

byteswap_twice : (w v : ℕ) → v < 256 ^ w → byteswap w (byteswap w v) ≡ v
unfolding byteswap
byteswap_twice w v h =
    ap (λ l. of_le (reverse l)) (le_bytes-byteswap w v)
    ∙ ap of_le (reverse-reverse (le_bytes w v))
    ∙ of_le-le_bytes w v h

read_bytes-append : (xs ys : List ℕ) → read_bytes (length xs) (xs ++ ys) ≡ some (xs, ys)
unfolding read_bytes
read_bytes-append xs ys =
    rw (enough, take-append (length xs) xs ys (omega arith), take_all xs, dropped, read_bytes) refl
  where
    enough : ltb (length (xs ++ ys)) (length xs) ≡ false
    enough = ground (arith, length-append xs ys)

    dropped : drop (length xs) (xs ++ ys) ≡ ys
    dropped = drop-append_past (length xs) 0 xs ys (omega arith)

-- The number without a sign that is read is the one that was written, in both byte orders.
read_number-write_fixed :
    (b : Bool) (w v : ℕ) (rest : List ℕ)
    → v < 256 ^ w
    → read_number b w (write_fixed b w v ++ rest) ≡ some (v, rest)
unfolding read_number write_fixed in_order
read_number-write_fixed b w v rest h = both b
  where
    swapped : byteswap w (of_le (le_bytes w (byteswap w v))) ≡ v
    swapped = ap (λ l. byteswap w (of_le l)) (le_bytes-byteswap w v) ∙ byteswap_twice w v h

    one : (x : ℕ) → read_bytes w (le_bytes w x ++ rest) ≡ some (le_bytes w x, rest)
    one x =
        subst (λ n. read_bytes n (le_bytes w x ++ rest) ≡ some (le_bytes w x, rest))
          (length-le_bytes w x) (read_bytes-append (le_bytes w x) rest)

    both : (b : Bool) → read_number b w (write_fixed b w v ++ rest) ≡ some (v, rest)
    both true =
        rw (one v, read_number, write_fixed, in_order)
          (ap (λ x. some (x, rest)) (of_le-le_bytes w v h))
    both false =
        rw (one (byteswap w v), read_number, write_fixed, in_order)
          (ap (λ x. some (x, rest)) swapped)

-- A number of w bytes comes back from its bytes with a sign: as it was written if it is below half of
-- 256 ^ w, and as a negative number else. In big endian its bytes stand in the reverse of their order
-- in little endian.
fixed_roundtrip :
    (is_little_endian : Bool) (w v : ℕ) (rest : List ℕ)
    → v < 256 ^ w
    → (read_fixed is_little_endian w (write_fixed is_little_endian w v ++ rest)
        ≡ some (signed (8 * w) v, rest))
      × (write_fixed false w v ≡ reverse (write_fixed true w v))
unfolding read_fixed write_fixed in_order
fixed_roundtrip b w v rest h =
    (rw (read_number-write_fixed b w v rest h, read_fixed) refl, le_bytes-byteswap w v)

pow-eight : (w : ℕ) → 2 ^ (8 * w) ≡ 256 ^ w
pow-eight zero = refl
pow-eight (suc w) =
    let more : 8 * suc w ≡ suc (suc (suc (suc (suc (suc (suc (suc (8 * w)))))))) = omega arith in
    ap (λ n. 2 ^ n) more ∙ omega (arith, pow-eight w, pow-suc 256 w)

to_unsigned-signed : (w v : ℕ) → v < 256 ^ w → to_unsigned w (signed (8 * w) v) ≡ v
unfolding to_unsigned signed
to_unsigned-signed w v h = elim (Bool-cases (ltb v (2 ^ (8 * w - 1)))) [
  | inl e ↦ rw (e, signed, to_unsigned) (mod-eq_of_lt h)
  | inr e ↦ rw (e, pow-eight w, mod-eq_of_lt small, signed, to_unsigned) (omega (arith, h))
]
  where
    small : 256 ^ w - 1 - v < 256 ^ w
    small = omega (arith, h)

-- A string shorter than its length type can tell is read back as it was written, and just its bytes
-- are taken.
string_roundtrip :
    (is_little_endian : Bool) (w : ℕ) (s rest : List ℕ)
    → length s < 256 ^ w
    → read_string is_little_endian w (write_string is_little_endian w s ++ rest) ≡ some (s, rest)
unfolding read_string write_string read_fixed
string_roundtrip b w s rest h =
    rw
      (
        mod-eq_of_lt h,
        append_assoc (write_fixed b w (length s)) s rest,
        read_number-write_fixed b w (length s) (s ++ rest) h,
        to_unsigned-signed w (length s) h,
        read_string,
        read_fixed,
        write_string,
      )
      (read_bytes-append s rest)

-- A length as writeStringVint writes it in big endian begins with a zero byte.
vint_head :
    (n : ℕ) → n < 2 ^ 56 → (bs : List ℕ) × (write_fixed false 8 n ≡ 0 ∷ bs) × (length bs ≡ 7)
unfolding write_fixed in_order le_bytes
vint_head n h =
    let tail = drop 1 (reverse (le_bytes 8 n)) in
    let zero_byte : n / 256 / 256 / 256 / 256 / 256 / 256 / 256 % 256 ≡ 0 = omega (arith, h) in
    (tail, le_bytes-byteswap 8 n ∙ ap (λ b. b ∷ tail) zero_byte, refl)

-- In the byte order that a byte array begins with, a string of less than 2^56 bytes that
-- writeStringVint has written is read as the empty string by readStringVint, and the other seven
-- bytes of its length and its own bytes are left.
pub string_vint_lost :
    (s : List ℕ)
    → length s < 2 ^ 56
    → (left : List ℕ) × (length left ≡ 7)
      × (read_string_vint (write_string_vint false s) ≡ some ([], left ++ s))
unfolding read_string_vint write_string_vint read_uint64
string_vint_lost s h =
    let (bs, head, long) = vint_head (length s) h in
    (
      bs,
      long,
      rw (mod-eq_of_lt short, head, read_string_vint, write_string_vint)
          (read_bytes-append [] (bs ++ s)),
    )
  where
    short : length s < 256 ^ 8
    short = omega (arith, h)
