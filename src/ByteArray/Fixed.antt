-- ===== src/ByteArray/Fixed.antt =====
-- libcocao/bytearray.cc: the codecs of integers of fixed width and of strings, on the sequence of bytes.
-- The host is little endian. bswap_16, bswap_32 and bswap_64 reverse the bytes of a number.
pub mod RoundTrip
mod Runs
use mathlib.Core.List.{reverse}
use libcocao.Base.{
  ℕ, zero, suc, ◌+◌, ◌-◌, ◌*◌, ◌/◌, ◌%◌, ◌^◌, Bool, true, false, Option, none, some, List, [], ◌∷◌,
  ◌++◌, ltb, if◌then◌else◌, ◌>>=◌, length, take, drop,
}
use libcocao.FdManager.{ℤ, pos, negsuc}
use libcocao.ByteArray.{signed, read_uint64}

-- The memory of a number of w bytes, and the number of some bytes in memory.
unfoldable pub le_bytes : ℕ → ℕ → List ℕ
le_bytes zero v = []
le_bytes (suc w) v = v % 256 ∷ le_bytes w (v / 256)

unfoldable pub of_le : List ℕ → ℕ
of_le [] = 0
of_le (b ∷ bs) = b + 256 * of_le bs

-- byteswap of libcocao/endian.h, for w bytes.
pub byteswap : ℕ → ℕ → ℕ
unfolding le_bytes of_le
byteswap w v = of_le (reverse (le_bytes w v))

-- `if (m_endian != LIBCOCAO_BYTE_ORDER) value = byteswap(value)`.
pub in_order : Bool → ℕ → ℕ → ℕ
unfolding byteswap
in_order is_little_endian w v = if is_little_endian then v else byteswap w v

-- writeFint16, writeFuint16 and so on up to writeFuint64 (w = 2, 4, 8), for the number without a sign.
pub write_fixed : Bool → ℕ → ℕ → List ℕ
unfolding in_order le_bytes
write_fixed is_little_endian w v = le_bytes w (in_order is_little_endian w v)

-- What ByteArray::read does to the bytes from the position on, where the blocks have memory: `none` is
-- the exception. The blocks themselves stand in ByteArray.Blocks.
pub read_bytes : ℕ → List ℕ → Option (List ℕ × List ℕ)
read_bytes n bs = if ltb (length bs) n then none else some (take n bs, drop n bs)

-- The macro XX in the reading functions: the number without a sign that its `v` has.
pub read_number : Bool → ℕ → List ℕ → Option (ℕ × List ℕ)
unfolding read_bytes in_order of_le
read_number is_little_endian w bs = do
  r ← read_bytes w bs
  some (in_order is_little_endian w (of_le r.0), r.1)

-- readFint16, readFuint16 and so on up to readFuint64 (w = 2, 4, 8). All six have a result with a sign,
-- also readFuint16, readFuint32 and readFuint64.
pub read_fixed : Bool → ℕ → List ℕ → Option (ℤ × List ℕ)
unfolding read_number signed
read_fixed is_little_endian w bs = do
  r ← read_number is_little_endian w bs
  some (signed (8 * w) r.0, r.1)

-- The conversion to a number of w bytes without a sign.
pub to_unsigned : ℕ → ℤ → ℕ
to_unsigned w (pos n) = n % 256 ^ w
to_unsigned w (negsuc n) = 256 ^ w - 1 - n % 256 ^ w

-- writeStringF16, writeStringF32 and writeStringF64 (w = 2, 4, 8): the length is cut to its type.
pub write_string : Bool → ℕ → List ℕ → List ℕ
unfolding write_fixed
write_string is_little_endian w s = write_fixed is_little_endian w (length s % 256 ^ w) ++ s

-- readStringF16, readStringF32 and readStringF64: the length goes through the result of readFuint16,
-- readFuint32 or readFuint64 and is converted back.
pub read_string : Bool → ℕ → List ℕ → Option (List ℕ × List ℕ)
unfolding read_fixed read_bytes to_unsigned
read_string is_little_endian w bs = do
  r ← read_fixed is_little_endian w bs
  read_bytes (to_unsigned w r.0) r.1

-- writeStringVint, which writes the length with writeFuint64.
pub write_string_vint : Bool → List ℕ → List ℕ
write_string_vint is_little_endian s = write_fixed is_little_endian 8 (length s % 256 ^ 8) ++ s

-- readStringVint.
pub read_string_vint : List ℕ → Option (List ℕ × List ℕ)
unfolding read_bytes
read_string_vint bs = do r ← read_uint64 bs; read_bytes r.0 r.1
