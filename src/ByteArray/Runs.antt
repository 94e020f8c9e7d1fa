-- ===== src/ByteArray/Runs.antt =====
-- Runs of the codecs of libcocao/bytearray.cc.
use libcocao.Base.{◌≡◌, refl, none, some, [], ◌∷◌}
use libcocao.ByteArray.{write_uint32, read_uint32, read_uint64}

bytes_of_300 : write_uint32 300 ≡ some (172 ∷ 2 ∷ [])
unfolding write_uint32
bytes_of_300 = refl

read_64 : read_uint64 (172 ∷ 2 ∷ 9 ∷ []) ≡ some (300, 9 ∷ [])
unfolding read_uint64
read_64 = refl

too_short : read_uint32 (172 ∷ []) ≡ none
unfolding read_uint32
too_short = refl
