-- ===== src/Hook/Options.antt =====
-- fcntl, ioctl and setsockopt of libcocao/hook.cc. The system's calls are parameters.
pub mod Flags
pub mod Limits
use libcocao.Base.{
  ℕ, ◌+◌, ◌-◌, ◌*◌, ◌/◌, ◌%◌, ◌^◌, Bool, true, false, not, ◌&&◌, ◌||◌, Option, none, some, List,
  ◌==◌, if◌then◌else◌, set,
}
use libcocao.FdManager.{
  ℤ, pos, negsuc, FdCtx, System, TimeoutType, rcvtimeo, sndtimeo, set_timeout, Table, Outcome, ok,
  fault, get,
}

-- Whether flags have O_NONBLOCK, bit 11.
pub has_nonblock : ℕ → Bool
has_nonblock flags = flags / 2048 % 2 == 1

-- `flags | O_NONBLOCK`.
pub with_nonblock : ℕ → ℕ
unfolding has_nonblock
with_nonblock flags = if has_nonblock flags then flags else flags + 2048

-- `flags & ~O_NONBLOCK`.
pub without_nonblock : ℕ → ℕ
unfolding has_nonblock
without_nonblock flags = if has_nonblock flags then flags - 2048 else flags

-- The contexts that fcntl and ioctl act on: known, open sockets.
pub hooked : Option FdCtx → Option FdCtx
hooked none = none
hooked (some c) = if c.is_closed || not c.is_socket then none else some c

-- The table has the context's pointer, so a change of the context is one of the table.
pub put : Table → ℤ → FdCtx → Table
put t (pos fd) c = set t fd (some c)
put t (negsuc n) c = t

module _ {K : Type 0} (setfl : K → ℕ → K) (getfl : K → ℕ) where
  -- fcntl with F_SETFL.
  pub fcntl_setfl : System → Table → ℤ → ℕ → K → Outcome (Table × K)
  unfolding hooked put has_nonblock with_nonblock without_nonblock
  fcntl_setfl s t fd arg k = elim (get s t fd false) [
    | fault ↦ fault
    | ok (t', x) ↦ elim (hooked x) [
      | none ↦ ok (t', setfl k arg)
      | some c ↦ ok (
        put t' fd (record c { user_nonblock = has_nonblock arg }),
        setfl k (if c.sys_nonblock then with_nonblock arg else without_nonblock arg),
      )
    ]
  ]

  -- fcntl with F_GETFL, where fcntl_f succeeds.
  pub fcntl_getfl : System → Table → ℤ → K → Outcome ℕ
  unfolding hooked with_nonblock without_nonblock
  fcntl_getfl s t fd k = elim (get s t fd false) [
    | fault ↦ fault
    | ok (t', x) ↦ elim (hooked x) [
      | none ↦ ok (getfl k)
      | some c ↦
          ok (if c.user_nonblock then with_nonblock (getfl k) else without_nonblock (getfl k))
    ]
  ]

-- ioctl with FIONBIO: the table before ioctl_f is called with the same arguments.
pub ioctl_nonblock : System → Table → ℤ → Bool → Outcome Table
unfolding hooked put
ioctl_nonblock s t fd user_nonblock = elim (get s t fd false) [
  | fault ↦ fault
  | ok (t', x) ↦ elim (hooked x) [
    | none ↦ ok t'
    | some c ↦ ok (put t' fd (record c { user_nonblock = user_nonblock }))
  ]
]

abbrev pub so_reuseaddr : ℕ
so_reuseaddr = 2

abbrev pub so_rcvtimeo : ℕ
so_rcvtimeo = 20

abbrev pub so_sndtimeo : ℕ
so_sndtimeo = 21

pub timeout_type : ℕ → TimeoutType
timeout_type optname = if optname == so_rcvtimeo then rcvtimeo else sndtimeo

-- setsockopt: the table before setsockopt_f is called. `optval` is read as a timeval of seconds and
-- microseconds. The test is `optname == SO_RCVTIMEO || SO_SNDTIMEO`.
pub setsockopt : System → Bool → Table → ℤ → ℕ → ℕ × ℕ → Outcome Table
unfolding timeout_type put
setsockopt s hook t fd optname optval =
    if hook && (optname == so_rcvtimeo || not (so_sndtimeo == 0))
    then elim (get s t fd false) [
      | fault ↦ fault
      | ok (t', none) ↦ ok t'
      | ok (t', some c) ↦ ok (
          put t' fd
            (set_timeout c (timeout_type optname) ((optval.0 * 1000 + optval.1 / 1000) % 2 ^ 64)))
    ]
    else ok t
