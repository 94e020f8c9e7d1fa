-- ===== src/Address/Unix/Path.antt =====
-- The path of a UnixAddress of libcocao/address.cc is the one it was made from.
use libcocao.Base.{ℕ, suc, ◌+◌, ◌-◌, List, [], ◌∷◌, ◌++◌, length, replicate}
use libcocao.Address.Unix.{UnixAddress}

-- The address of a path that starts with a NUL, and of any other.
abstract_address : List ℕ → UnixAddress
abstract_address s = record {
  sun_family = 1;
  sun_path = 0 ∷ (s ++ replicate (108 - suc (length s)) 0);
  m_length = suc (length s) + 2;
}

plain_address : ℕ → List ℕ → UnixAddress
plain_address c s = record {
  sun_family = 1;
  sun_path = ((c ∷ s) ++ 0 ∷ []) ++ replicate (108 - (suc (length s) + 1)) 0;
  m_length = suc (length s) + 1 + 2;
}
