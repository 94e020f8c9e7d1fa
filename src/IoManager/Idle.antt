-- ===== src/IoManager/Idle.antt =====
-- The body of the loop over reported events in IOManager::idle (libcocao/iomanager.cc).
use Prim.Native.Nat.{bit_and, bit_or}
use libcocao.Base.{
  ℕ, ◌+◌, ◌-◌, ◌≡◌, refl, ◌∙◌, inl, inr, Bool, true, false, not, ◌&&◌, ◌||◌, some, ◌++◌, arith,
  ◌==◌, if◌then◌else◌, Bool-cases, get_elem?, All-get_elem?,
}
use libcocao.IoManager.{
  read, write, FdContext, Ctl, ctl_mod, ctl_del, IoManager, ok, epoll_et, real_events, deliver_at,
}
use libcocao.IoManager.Masks.{mask_of, has_mask, and_mask-eq-zero, reports, real_reports}
use libcocao.IoManager.Contexts.{IsWf, armed}
use libcocao.IoManager.Inv.{Inv}
use libcocao.IoManager.CancelAll.{
  one_if, tasks_if, both, both_context, both-Handled, both_lem, Handled, trigger_if_lem,
}

-- Whether an event is acted on: it is reported, or there is trouble and it is registered.
abbrev pub acted : Bool → Bool → Bool → Bool
acted reported trouble registered = if trouble then registered else reported

acted_armed : (a t r : Bool) → (a ≡ true → r ≡ true) → acted a t r ≡ true → r ≡ true
acted_armed a true r h e = e
acted_armed a false r h e = h e

module _ {C E : Type 0} (ctl : Ctl E) where
  -- The epoll_ctl call of the loop's body: what stays registered after the events x and y.
  abbrev pub rearm_call : IoManager C E → FdContext C → Bool → Bool → E × Bool
  rearm_call m c x y =
      let left = bit_and c.events (0xffff_ffff - mask_of x y) in
      ctl m.epoll (if left == 0 then ctl_del else ctl_mod) c.fd (bit_or epoll_et left)

  real_acted :
      (a b error hangup : Bool) (c : FdContext C)
      → IsWf c
      → real_events (reports a b error hangup) c.events
        ≡ mask_of
            (acted a (error || hangup) (armed c.reader))
            (acted b (error || hangup) (armed c.writer))
  real_acted a b true hangup c v =
      rw v.mask (real_reports a b true hangup (armed c.reader) (armed c.writer))
  real_acted a b false true c v =
      rw v.mask (real_reports a b false true (armed c.reader) (armed c.writer))
  real_acted a b false false c v =
      rw v.mask (real_reports a b false false (armed c.reader) (armed c.writer))

  acted_mask :
      (x y : Bool) (c : FdContext C)
      → IsWf c
      → (x ≡ true → armed c.reader ≡ true)
      → (y ≡ true → armed c.writer ≡ true)
      → (bit_and (mask_of x y) c.events == 0) ≡ not (x || y)
  acted_mask x y c v hx hy =
      rw v.mask (and_mask-eq-zero x y (armed c.reader) (armed c.writer) ∙ flags x y _ _ hx hy)
    where
      flags :
          (x y r w : Bool)
          → (x ≡ true → r ≡ true)
          → (y ≡ true → w ≡ true)
          → not ((x && r) || (y && w)) ≡ not (x || y)
      flags x y r w p q = ground arith

  -- What idle does for a context that epoll_wait reports. epoll reports the events a (EPOLLIN) and b
  -- (EPOLLOUT) only where they are registered, and may add EPOLLERR, EPOLLHUP or both. The events acted
  -- on are those reported, or on trouble all that are registered. Where there are none nothing
  -- happens, and where epoll_ctl fails only its own state changes. Else they are triggered, read
  -- first, and it never crashes: the invariant is kept, their tasks are scheduled, the count goes
  -- down by their number, and the other descriptors are as before.
  pub deliver_lem :
      (m : IoManager C E) (fd : ℕ) (c : FdContext C) (a b error hangup : Bool)
      → Inv m
      → get_elem? m.contexts fd ≡ some c
      → (a ≡ true → armed c.reader ≡ true)
      → (b ≡ true → armed c.writer ≡ true)
      → let x = acted a (error || hangup) (armed c.reader) in
        let y = acted b (error || hangup) (armed c.writer) in
        let r = rearm_call m c x y in
        let m' = record m { epoll = r.0 } in
        (deliver_at ctl m fd (reports a b error hangup) c
          ≡ (if not (x || y) then ok m else if r.1 then ok m' else ok (both x y m' fd c)))
        × Handled m fd
            (tasks_if x c read ++ tasks_if y c write)
            (one_if y + one_if x)
            (both x y m' fd c)
            (both_context x y c)
  unfolding deliver_at
  deliver_lem m fd c a b error hangup v g ha hb =
      let w : IsWf c = All-get_elem? IsWf m.contexts fd c v.contexts_ok g in
      let x = acted a (error || hangup) (armed c.reader) in
      let y = acted b (error || hangup) (armed c.writer) in
      let hx = acted_armed a (error || hangup) (armed c.reader) ha in
      let hy = acted_armed b (error || hangup) (armed c.writer) hb in
      let r = rearm_call m c x y in
      let m' = record m { epoll = r.0 } in
      let done =
        both-Handled x y m' fd c
          (record {
            contexts_ok = v.contexts_ok;
            counted = v.counted;
            lower = v.lower;
            upper = v.upper;
          })
          g hx hy in
      (
        rw (real_acted a b error hangup c w, acted_mask x y c w hx hy)
            (elim (Bool-cases (x || y)) [
              | inr h ↦ rw h refl
              | inl h ↦ rw h (elim (Bool-cases r.1) [
                | inl f ↦ rw f refl
                | inr f ↦
                    rw
                      (
                        f,
                        has_mask read x y,
                        trigger_if_lem ctl x m' fd read c w hx,
                        has_mask write x y,
                        both_lem ctl x y m' fd c w hx hy,
                      )
                      refl
              ])
            ]),
        record {
          inv = done.inv;
          found = done.found;
          posts = done.posts;
          count = done.count;
          others = done.others;
        },
      )
