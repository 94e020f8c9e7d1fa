-- ===== src/Stream/FixSize.antt =====
-- What the results of readFixSize and writeFixSize of libcocao/stream.cc mean.
use libcocao.Base.{
  ℕ, zero, suc, ◌+◌, ◌-◌, ◌%◌, ◌^◌, ◌≤◌, ◌<◌, ◌≡◌, ◌⊎◌, inl, inr, refl, Option, none, some, List,
  [], ◌∷◌, arith, All, ◌≢◌, ◌>>=◌, length,
}
use mathlib.Core.Option.{some-injective}
use libcocao.FdManager.{ℤ, pos, negsuc}
use libcocao.Hook.Calls.{to_int}
use libcocao.Stream.{
  Ending, finished, stopped, fix_loop, fix_result, left_int64, left_int, read_fix_size,
  write_fix_size,
}

-- The bytes of all calls together.
pub total : List ℤ → ℕ
total [] = 0
total (pos n ∷ rs) = n + total rs
total (negsuc n ∷ rs) = total rs

loop_total : (l : ℕ) (rs : List ℤ) → fix_loop l rs ≡ some finished → l ≤ total rs
unfolding fix_loop total
loop_total zero rs e = omega arith
loop_total (suc l) [] e = ground arith
loop_total (suc l) (negsuc n ∷ rs) e = ground arith
loop_total (suc l) (pos zero ∷ rs) e = ground arith
loop_total (suc l) (pos (suc n) ∷ rs) e = omega (arith, loop_total (l - n) rs e)

-- Where the length is a multiple of 2^32 or its lower 32 bits are 2^31 or more, writeFixSize from a
-- buffer writes nothing and returns the length as an int.
write_fix_size_skips :
    (length : ℕ) (rs : List ℤ)
    → (length % 2 ^ 32 ≡ 0) ⊎ (2 ^ 31 ≤ length % 2 ^ 32)
    → write_fix_size length rs ≡ some (to_int (pos length))
unfolding write_fix_size fix_loop fix_result left_int
write_fix_size_skips length rs h = rw (none_left h, write_fix_size) refl
  where
    none_left : (length % 2 ^ 32 ≡ 0) ⊎ (2 ^ 31 ≤ length % 2 ^ 32) → left_int length ≡ 0
    none_left h = ground arith

-- A result that an int holds, or a positive one.
unfoldable pub FitsInt : ℤ → Type 0
FitsInt (pos n) = 0 ≤ n
FitsInt (negsuc n) = n < 2 ^ 31

not_positive :
    (l k : ℕ) (rs : List ℤ) (r : ℤ)
    → All FitsInt rs
    → fix_loop l rs ≡ some (stopped r)
    → to_int r ≢ pos (suc k)
unfolding fix_loop FitsInt to_int
not_positive zero k rs r a e q = ground arith
not_positive (suc l) k [] r a e q = ground arith
not_positive (suc l) k (negsuc n ∷ rs) r a e q = ground (arith, a.0)
not_positive (suc l) k (pos zero ∷ rs) r a e q = ground arith
not_positive (suc l) k (pos (suc n) ∷ rs) r a e q = not_positive (l - n) k rs r a.1 e q

from_loop :
    (length l k : ℕ) (rs : List ℤ) (x : Option Ending)
    → length < 2 ^ 31
    → l ≡ length
    → All FitsInt rs
    → fix_loop l rs ≡ x
    → (x >>= λ e. some (fix_result length e)) ≡ some (pos (suc k))
    → (suc k ≡ length) × (length ≤ total rs)
unfolding fix_result to_int
from_loop length l k rs none h g a e q = ground arith
from_loop length l k rs (some finished) h g a e q =
    (ground (arith, q), omega (arith, g, loop_total l rs e))
from_loop length l k rs (some (stopped r)) h g a e q =
    absurd (not_positive l k rs r a e (some-injective _ _ q))

-- A length below 2^31, which no call answers with less than -2^31. A positive result of readFixSize, or
-- of writeFixSize from a buffer, is the length, and comes only after calls that returned at least the
-- length together.
pub fix_size_lem :
    (length k : ℕ) (rs : List ℤ)
    → length < 2 ^ 31
    → All FitsInt rs
    → (read_fix_size length rs ≡ some (pos (suc k)))
      ⊎ (write_fix_size length rs ≡ some (pos (suc k)))
    → (suc k ≡ length) × (length ≤ total rs)
unfolding read_fix_size write_fix_size left_int64 left_int
fix_size_lem length k rs h a (inl q) =
    from_loop length (left_int64 length) k rs (fix_loop (left_int64 length) rs) h (ground arith) a
      refl q
fix_size_lem length k rs h a (inr q) =
    from_loop length (left_int length) k rs (fix_loop (left_int length) rs) h (ground arith) a refl
      q

-- The loop ends after at most as many calls as bytes are left.
fix_loop_ends : (l : ℕ) (rs : List ℤ) → l ≤ length rs → fix_loop l rs ≢ none
unfolding fix_loop
fix_loop_ends zero rs h e = ground arith
fix_loop_ends (suc l) [] h e = ground arith
fix_loop_ends (suc l) (negsuc n ∷ rs) h e = ground arith
fix_loop_ends (suc l) (pos zero ∷ rs) h e = ground arith
fix_loop_ends (suc l) (pos (suc n) ∷ rs) h e = fix_loop_ends (l - n) rs (omega arith) e
