-- ===== src/Hook/Options/Limits.antt =====
-- setsockopt of libcocao/hook.cc and the limits of time that do_io takes from the table.
use libcocao.Base.{
  ℕ, ◌+◌, ◌*◌, ◌/◌, ◌%◌, ◌^◌, ◌<◌, ◌≡◌, refl, ◌∙◌, inl, inr, Bool, true, not, some, List, ◌==◌,
  ==_self, if◌then◌else◌, length, set, Bool-cases,
}
use libcocao.FdManager.{
  pos, FdCtx, System, TimeoutType, rcvtimeo, sndtimeo, Table, ok, set_timeout, get_timeout,
}
use libcocao.FdManager.Table.{at, at-set, get_peek}
use libcocao.Hook.{Round, io_loop}
use libcocao.Hook.Calls.{do_io}
use libcocao.Hook.Calls.Waits.{do_io_waits, Blocking}
use libcocao.Hook.Options.{put, timeout_type, so_rcvtimeo, setsockopt}

-- The milliseconds of a timeval.
abbrev pub in_ms : ℕ × ℕ → ℕ
in_ms v = (v.0 * 1000 + v.1 / 1000) % 2 ^ 64

-- The limit that setsockopt changes: the reading one for SO_RCVTIMEO, else the writing one.
pub is_changed : ℕ → TimeoutType → Bool
is_changed optname rcvtimeo = optname == so_rcvtimeo
is_changed optname sndtimeo = not (optname == so_rcvtimeo)

limit_after :
    (c : FdCtx) (optname : ℕ) (so : TimeoutType) (ms : ℕ)
    → get_timeout (set_timeout c (timeout_type optname) ms) so
      ≡ (if is_changed optname so then ms else get_timeout c so)
unfolding get_timeout set_timeout is_changed timeout_type
limit_after c optname rcvtimeo ms = elim (Bool-cases (optname == so_rcvtimeo)) [
  | inl q ↦ rw q refl
  | inr q ↦ rw q refl
]
limit_after c optname sndtimeo ms = elim (Bool-cases (optname == so_rcvtimeo)) [
  | inl q ↦ rw q refl
  | inr q ↦ rw q refl
]

set_timeout-Blocking :
    (c : FdCtx) (so : TimeoutType) (ms : ℕ) → Blocking c → Blocking (set_timeout c so ms)
unfolding set_timeout
set_timeout-Blocking c rcvtimeo ms b = record {
  unclosed = b.unclosed;
  socket = b.socket;
  blocks = b.blocks;
}
set_timeout-Blocking c sndtimeo ms b = record {
  unclosed = b.unclosed;
  socket = b.socket;
  blocks = b.blocks;
}

-- setsockopt of any option on a blocking socket of the table: if the option is SO_RCVTIMEO, the
-- reading calls afterwards wait for at most the time that optval gives as a timeval, and the writing
-- calls as long as before. If it is any other option, SO_SNDTIMEO or not, the same with the writing
-- calls for the reading ones.
pub setsockopt_limits :
    (s : System) (t : Table) (fd optname : ℕ) (v : ℕ × ℕ) (c : FdCtx)
    → fd < length t
    → at t fd ≡ some c
    → Blocking c
    → (t' : Table) × (setsockopt s true t (pos fd) optname v ≡ ok t')
      × ((so : TimeoutType) (rs : List Round)
          → do_io s true t' (pos fd) so rs
            ≡ ok (io_loop (if is_changed optname so then in_ms v else get_timeout c so) rs))
unfolding setsockopt put
setsockopt_limits s t fd optname v c h e b =
    let c' = set_timeout c (timeout_type optname) (in_ms v) in
    let t' = set t fd (some c') in
    let kept : at t' fd ≡ some c' = at-set t fd fd (some c') h ∙ rw (==_self fd) refl in
    (
      t',
      elim (Bool-cases (optname == so_rcvtimeo)) [
        | inl q ↦ rw (get_peek s t fd, e, q, setsockopt) refl
        | inr q ↦ rw (get_peek s t fd, e, q, setsockopt) refl
      ],
      λ so rs.
          do_io_waits s t' fd so rs c' kept
            (set_timeout-Blocking c (timeout_type optname) (in_ms v) b)
          ∙ rw (limit_after c optname so (in_ms v)) refl,
    )
