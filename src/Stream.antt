-- ===== src/Stream.antt =====
-- libcocao/stream.cc: the loops that read or write a length in full, over a script of what the virtual
-- read or write returns. `none` means that the script ends first.
pub mod FixSize
pub mod Sockets
mod Runs
use libcocao.Base.{
  ℕ, zero, suc, ◌+◌, ◌-◌, ◌%◌, ◌^◌, Bool, true, false, Option, none, some, List, [], ◌∷◌, ltb,
  if◌then◌else◌, ◌>>=◌,
}
use libcocao.FdManager.{ℤ, pos, negsuc}
use libcocao.Hook.Calls.{to_int}

-- How a loop ends: nothing is left, or a call has returned a number that is not positive.
pub data Ending : Type 0 where
  finished : Ending
  stopped : ℤ → Ending

-- The loop `while (left > 0)`; `left` is 0 where the code's is not positive.
pub fix_loop : ℕ → List ℤ → Option Ending
fix_loop zero rs = some finished
fix_loop (suc l) [] = none
fix_loop (suc l) (negsuc n ∷ rs) = some (stopped (negsuc n))
fix_loop (suc l) (pos zero ∷ rs) = some (stopped (pos 0))
fix_loop (suc l) (pos (suc n) ∷ rs) = fix_loop (l - n) rs

-- The result, an int.
pub fix_result : ℕ → Ending → ℤ
fix_result length finished = to_int (pos length)
fix_result length (stopped r) = to_int r

-- `int64_t left = length`.
pub left_int64 : ℕ → ℕ
left_int64 length = if ltb length (2 ^ 63) then length else 0

-- `int left = length`.
pub left_int : ℕ → ℕ
left_int length = if ltb (length % 2 ^ 32) (2 ^ 31) then length % 2 ^ 32 else 0

-- Stream::readFixSize, and writeFixSize from a byte array.
pub read_fix_size : ℕ → List ℤ → Option ℤ
unfolding fix_loop fix_result left_int64
read_fix_size length rs = fix_loop (left_int64 length) rs >>= λ e. some (fix_result length e)

-- Stream::writeFixSize from a buffer.
pub write_fix_size : ℕ → List ℤ → Option ℤ
unfolding fix_loop fix_result left_int
write_fix_size length rs = fix_loop (left_int length) rs >>= λ e. some (fix_result length e)
