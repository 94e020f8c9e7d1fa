-- ===== src/ByteArray/Fixed/Runs.antt =====
-- Runs of the codecs of fixed width and of strings in libcocao/bytearray.cc.
use libcocao.Base.{ℕ, ◌≡◌, refl, true, false, none, some, List, [], ◌∷◌}
use libcocao.ByteArray.Fixed.{write_fixed, read_fixed, read_string}
use libcocao.FdManager.{negsuc}

-- 0x0102 in big endian.
big_endian_bytes : write_fixed false 2 258 ≡ 1 ∷ 2 ∷ []
unfolding write_fixed
big_endian_bytes = refl

-- A string.
abbrev hi : List ℕ
hi = 104 ∷ 105 ∷ []

too_short : read_string true 2 (5 ∷ 0 ∷ hi) ≡ none
unfolding read_string
too_short = refl

-- A number above 2^31 that writeFuint32 has written comes back negative from readFuint32.
large_is_negative :
    read_fixed false 4 (write_fixed false 4 4000000000) ≡ some (negsuc 294967295, [])
unfolding write_fixed read_fixed
large_is_negative = refl
