-- ===== src/Address/Unix.antt =====
-- UnixAddress of libcocao/address.cc, its path the 108 bytes of sun_path.
pub mod Path
use libcocao.Base.{
  ℕ, zero, suc, ◌+◌, ◌-◌, Bool, true, false, Option, none, some, List, [], ◌∷◌, ◌++◌, ltb, ◌==◌,
  if◌then◌else◌, ◌&&◌, length, take, drop, replicate, ◌>>=◌,
}
use libcocao.Log.{codes}

-- The path's place in sockaddr_un, and its size.
abbrev pub sun_path_offset : ℕ
sun_path_offset = 2

abbrev pub sun_path_size : ℕ
sun_path_size = 108

abbrev pub max_path_len : ℕ
max_path_len = sun_path_size - 1

-- UnixAddress.
pub record UnixAddress : Type 0 where
  pub sun_family : ℕ
  pub sun_path : List ℕ
  pub m_length : ℕ

-- UnixAddress().
pub unix_empty : UnixAddress
unix_empty = record {
  sun_family = 1;
  sun_path = replicate sun_path_size 0;
  m_length = sun_path_offset + max_path_len;
}

-- `!path.empty() && path[0] == '\0'`, and the same test of sun_path.
abbrev pub starts_with_nul : List ℕ → Bool
starts_with_nul [] = false
starts_with_nul (c ∷ s) = c == 0

-- UnixAddress(const std::string&): `none` is the exception. memcpy reads the text with the NUL after it.
pub unix_new : List ℕ → Option UnixAddress
unix_new path =
    let m_length : ℕ = if starts_with_nul path then length path else length path + 1 in
    if ltb sun_path_size m_length
    then none
    else some (record {
      sun_family = 1;
      sun_path = take m_length (path ++ 0 ∷ []) ++ replicate (sun_path_size - m_length) 0;
      m_length = m_length + sun_path_offset;
    })

pub set_addrlen : ℕ → UnixAddress → UnixAddress
set_addrlen v a = record a { m_length = v }

-- What `<<` of a `char*` writes: `none` is a read past the array.
pub c_string : List ℕ → Option (List ℕ)
c_string [] = none
c_string (c ∷ s) = let rest = c_string s in if c == 0 then some [] else do t ← rest; some (c ∷ t)

-- getPath, and insert, whose body is the same. `none` is a read past the array.
pub get_path : UnixAddress → Option (List ℕ)
unfolding c_string
get_path a =
    if ltb sun_path_offset a.m_length && starts_with_nul a.sun_path
    then (let n : ℕ = a.m_length - sun_path_offset - 1 in
        if ltb (length a.sun_path) (n + 1)
        then none
        else some (codes "\\0" ++ take n (drop 1 a.sun_path)))
    else c_string a.sun_path
