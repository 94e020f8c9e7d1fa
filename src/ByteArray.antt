-- ===== src/ByteArray.antt =====
-- libcocao/bytearray.cc: the codecs of integers of varying length. A byte is a number below 256; the
-- bytes that are read are a list, and `none` is the exception at its end.
pub mod Blocks
pub mod Fixed
pub mod Varint
mod Runs
use libcocao.Base.{
  ℕ, zero, suc, ◌+◌, ◌-◌, ◌*◌, ◌/◌, ◌%◌, ◌^◌, Bool, true, false, Option, none, some, List, [], ◌∷◌,
  ltb, ◌==◌, if◌then◌else◌, ◌>>=◌,
}
use libcocao.FdManager.{ℤ, pos, negsuc}

-- EncodeZigzag32 (w = 32) and EncodeZigzag64 (w = 64), computed in w bits: negsuc n is -(n + 1).
pub encode_zigzag : ℕ → ℤ → ℕ
encode_zigzag w (pos n) = n * 2 % 2 ^ w
encode_zigzag w (negsuc n) = ((n + 1) * 2 + (2 ^ w - 1)) % 2 ^ w

-- The conversion from w bits without a sign to w bits with one.
pub signed : ℕ → ℕ → ℤ
signed w n = if ltb n (2 ^ (w - 1)) then pos n else negsuc (2 ^ w - 1 - n)

-- DecodeZigzag32 and DecodeZigzag64: the exclusive or with -(v & 1) keeps v >> 1 or inverts its w bits.
pub decode_zigzag : ℕ → ℕ → ℤ
unfolding signed
decode_zigzag w v = signed w (if v % 2 == 0 then v / 2 else 2 ^ w - 1 - v / 2)

-- The loop of writeUint32_t on an array with some places left: the bytes written, or `none` for a write
-- past the end of tmp. `shift` is what the loop does to the value. `(value & 0x7f) | 0x80` sets a bit
-- that value & 0x7f does not have.
pub varint_bytes : (ℕ → ℕ) → ℕ → ℕ → Option (List ℕ)
varint_bytes shift zero value = none
varint_bytes shift (suc room) value =
    let more = do rest ← varint_bytes shift room (shift value); some ((value % 128 + 128) ∷ rest)
    in if ltb value 128 then some (value ∷ []) else more

-- ByteArray::writeUint32_t.
pub write_uint32 : ℕ → Option (List ℕ)
unfolding varint_bytes
write_uint32 value = varint_bytes (λ v. v / 128) 5 value

-- ByteArray::writeUint64_t: the statement `value >> 7;` changes nothing.
pub write_uint64 : ℕ → Option (List ℕ)
unfolding varint_bytes
write_uint64 value = varint_bytes (λ v. v) 10 value

-- The loops of readUint32 (w = 32) and readUint64 (w = 64), with the rounds left: the result and the bytes
-- that follow. The bits that are or'd into the result are at `shift` and above, and the result is
-- below, so the or is a sum.
pub read_loop : ℕ → ℕ → ℕ → ℕ → List ℕ → Option (ℕ × List ℕ)
read_loop w zero shift result bs = some (result, bs)
read_loop w (suc rounds) shift result [] = none
read_loop w (suc rounds) shift result (b ∷ bs) =
    let more = read_loop w rounds (shift + 7) (result + b % 128 * 2 ^ shift % 2 ^ w) bs in
    if ltb b 128 then some (result + b * 2 ^ shift % 2 ^ w, bs) else more

-- ByteArray::readUint32.
pub read_uint32 : List ℕ → Option (ℕ × List ℕ)
unfolding read_loop
read_uint32 bs = read_loop 32 5 0 0 bs

-- ByteArray::readUint64.
pub read_uint64 : List ℕ → Option (ℕ × List ℕ)
unfolding read_loop
read_uint64 bs = read_loop 64 10 0 0 bs

-- ByteArray::readInt32.
pub read_int32 : List ℕ → Option (ℤ × List ℕ)
unfolding read_uint32 decode_zigzag
read_int32 bs = do r ← read_uint32 bs; some (decode_zigzag 32 r.0, r.1)
