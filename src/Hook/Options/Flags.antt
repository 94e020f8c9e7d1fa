-- ===== src/Hook/Options/Flags.antt =====
-- O_NONBLOCK in fcntl of libcocao/hook.cc: what the program sees and what the system has.
use libcocao.Base.{
  ℕ, ◌<◌, ◌≡◌, refl, ◌∙◌, Bool, true, false, some, arith, ==_self, if◌then◌else◌, length, set,
}
use libcocao.FdManager.{pos, FdCtx, System, Table, ok}
use libcocao.FdManager.Table.{at, at-set, get_peek}
use libcocao.Hook.Options.{
  has_nonblock, with_nonblock, without_nonblock, hooked, put, fcntl_setfl, fcntl_getfl,
}

with_nonblock_lem : (a : ℕ) → has_nonblock (with_nonblock a) ≡ true
unfolding has_nonblock with_nonblock
with_nonblock_lem a = ground arith

without_nonblock_lem : (a : ℕ) → has_nonblock (without_nonblock a) ≡ false
unfolding has_nonblock without_nonblock
without_nonblock_lem a = ground arith

-- The file status flags of the system's descriptor: F_SETFL can change O_NONBLOCK, and F_GETFL shows
-- what was set.
pub record StatusFlags {K : Type 0} (setfl : K → ℕ → K) (getfl : K → ℕ) : Type 0 where
  pub sets_nonblock : (k : K) (a : ℕ) → has_nonblock (getfl (setfl k a)) ≡ has_nonblock a

module _ {K : Type 0} (setfl : K → ℕ → K) (getfl : K → ℕ) where
  -- fcntl on an open socket of the table, which do_io relies on to be nonblocking. Whatever flags the
  -- program sets, the system's descriptor has O_NONBLOCK afterwards, and F_GETFL shows O_NONBLOCK
  -- exactly if the program has set it.
  pub fcntl_roundtrip :
      (s : System) (t : Table) (fd arg : ℕ) (k : K) (c : FdCtx)
      → StatusFlags setfl getfl
      → fd < length t
      → at t fd ≡ some c
      → c.is_closed ≡ false
      → c.is_socket ≡ true
      → c.sys_nonblock ≡ true
      → (t' : Table) × (k' : K) × (flags : ℕ) × (fcntl_setfl setfl getfl s t (pos fd) arg k
          ≡ ok (t', k'))
        × (has_nonblock (getfl k') ≡ true)
        × (fcntl_getfl setfl getfl s t' (pos fd) k' ≡ ok flags)
        × (has_nonblock flags ≡ has_nonblock arg)
  unfolding fcntl_setfl fcntl_getfl hooked put
  fcntl_roundtrip s t fd arg k c law h e unclosed socket sys =
      let c' = record c { user_nonblock = has_nonblock arg } in
      let t' = set t fd (some c') in
      let k' = setfl k (with_nonblock arg) in
      let kept : at t' fd ≡ some c' = at-set t fd fd (some c') h ∙ rw (==_self fd) refl in
      (
        t',
        k',
        (if has_nonblock arg then with_nonblock (getfl k') else without_nonblock (getfl k')),
        rw (get_peek s t fd, e, unclosed, socket, sys, fcntl_setfl, hooked) refl,
        law.sets_nonblock k (with_nonblock arg) ∙ with_nonblock_lem arg,
        rw (get_peek s t' fd, kept, unclosed, socket, fcntl_getfl, hooked) refl,
        shown (has_nonblock arg) (getfl k'),
      )
    where
      shown :
          (b : Bool) (a : ℕ) → has_nonblock (if b then with_nonblock a else without_nonblock a) ≡ b
      shown true a = with_nonblock_lem a
      shown false a = without_nonblock_lem a
