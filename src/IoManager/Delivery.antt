-- ===== src/IoManager/Delivery.antt =====
-- What addEvent, delEvent, cancelEvent, cancelAll and the loop of idle (libcocao/iomanager.cc) do to
-- a registered event, on every answer of epoll_ctl.
use libcocao.Base.{
  ℕ, ◌^◌, ◌<◌, ◌≡◌, refl, ◌≢◌, inl, inr, Bool, true, false, Option, some, arith, ◌==◌,
  if◌then◌else◌, Bool-cases, is_some, get_elem?, set, get_elem?-lt, All-get_elem?,
}
use libcocao.IoManager.{
  Event, no_event, read, write, without, join, inc, dec, FdContext, Ctl, ctl_mod, ctl_del,
  IoManager, ok, crash, Caller, epoll_et, empty_context, get_event_context, put_event_context,
  register, add_at, add_event, grown, drop_event, del_at, del_event, trigger_at, cancel_at,
  cancel_event,
}
use Prim.Native.Nat.{bit_or}
use libcocao.IoManager.Masks.{join_mask}
use libcocao.IoManager.{bits, EventContext}
use libcocao.IoManager.Contexts.{
  IsFilled, IsWf, armed, event_armed, dropped, has-event_armed, without-dropped,
  trigger_event_armed, filled, registered,
}
use libcocao.IoManager.Inv.{Inv, triggered, registered-Inv, grown_lem}

module _ {C E : Type 0} where
  -- What delEvent leaves.
  abbrev pub deleted : IoManager C E → ℕ → Event → FdContext C → IoManager C E
  deleted m fd e c = record m {
    pending = dec m.pending;
    contexts = set m.contexts fd (dropped c e);
  }

  -- The state after a registration.
  abbrev pub added_at : IoManager C E → ℕ → Event → Caller → Option C → FdContext C → IoManager C E
  added_at m fd e who cb c = record m {
    pending = inc m.pending;
    contexts = set m.contexts fd (registered c e (filled who cb));
  }

module _ {C E : Type 0} (ctl : Ctl E) where
  IsWf-get_elem? :
      (m : IoManager C E) (fd : ℕ) (c : FdContext C)
      → Inv m
      → get_elem? m.contexts fd ≡ some c
      → IsWf c
  IsWf-get_elem? m fd c v g = All-get_elem? IsWf m.contexts fd c v.contexts_ok g

  pub trigger_at_lem :
      (m : IoManager C E) (fd : ℕ) (e : Event) (c : FdContext C)
      → IsWf c
      → event_armed c e ≡ true
      → trigger_at ctl m fd e c ≡ ok (triggered m fd e c, dropped c e)
  unfolding trigger_at
  trigger_at_lem m fd e c v h = rw (trigger_event_armed c e v h)

  -- delEvent and cancelEvent on the context that they find.
  cancel_at_lem :
      (m : IoManager C E) (fd : ℕ) (e : Event) (c : FdContext C)
      → IsWf c
      → let r = drop_event ctl m.epoll fd e c in
        let m' = record m { epoll = r.0 } in
        cancel_at ctl m fd e c ≡ (
          if event_armed c e
          then (if r.1 then ok (m', false) else ok (triggered m' fd e c, true))
          else ok (m, false))
  unfolding cancel_at
  cancel_at_lem m fd e c v =
      let r = drop_event ctl m.epoll fd e c in
      elim (Bool-cases (event_armed c e)) [
        | inl h ↦
            rw (has-event_armed c e v, h)
              (elim (Bool-cases r.1) [
                | inl f ↦ rw f refl
                | inr f ↦ rw (f, trigger_at_lem (record m { epoll = r.0 }) fd e c v h) refl
              ])
        | inr h ↦ rw (has-event_armed c e v, h) refl
      ]

  put-dropped :
      (c : FdContext C) (e : Event)
      → IsWf c
      → event_armed c e ≡ true
      → put_event_context (record c { events = without c.events e }) e empty_context ≡ dropped c e
  unfolding put_event_context
  put-dropped c no_event v h = absurd (ground arith)
  put-dropped c read v h = ground (arith, without-dropped c read v)
  put-dropped c write v h = ground (arith, without-dropped c write v)

  del_at_lem :
      (m : IoManager C E) (fd : ℕ) (e : Event) (c : FdContext C)
      → IsWf c
      → let r = drop_event ctl m.epoll fd e c in
        let m' = record m { epoll = r.0 } in
        del_at ctl m fd e c ≡ (
          if event_armed c e
          then (if r.1 then ok (m', false) else ok (deleted m' fd e c, true))
          else ok (m, false))
  unfolding del_at
  del_at_lem m fd e c v =
      let r = drop_event ctl m.epoll fd e c in
      elim (Bool-cases (event_armed c e)) [
        | inl h ↦
            rw (has-event_armed c e v, h)
              (elim (Bool-cases r.1) [
                | inl f ↦ rw f refl
                | inr f ↦ rw (f, put-dropped c e v h) refl
              ])
        | inr h ↦ rw (has-event_armed c e v, h) refl
      ]

  -- The whole of cancelEvent on a descriptor within the vector. Where the event is not registered
  -- nothing happens. Where epoll_ctl fails only its own state changes. Else the event's task is
  -- scheduled, the event is taken out of its context and the count goes down by one. It never
  -- crashes.
  cancel_event_lem :
      (m : IoManager C E) (fd : ℕ) (e : Event) (c : FdContext C)
      → Inv m
      → get_elem? m.contexts fd ≡ some c
      → let r = drop_event ctl m.epoll fd e c in
        let m' = record m { epoll = r.0 } in
        cancel_event ctl m fd e ≡ (
          if event_armed c e
          then (if r.1 then ok (m', false) else ok (triggered m' fd e c, true))
          else ok (m, false))
  unfolding cancel_event
  cancel_event_lem m fd e c v g =
      rw (g, cancel_event) (cancel_at_lem m fd e c (IsWf-get_elem? m fd c v g))

  -- The whole of delEvent on a descriptor within the vector: as cancelEvent, but nothing is scheduled.
  del_event_lem :
      (m : IoManager C E) (fd : ℕ) (e : Event) (c : FdContext C)
      → Inv m
      → get_elem? m.contexts fd ≡ some c
      → let r = drop_event ctl m.epoll fd e c in
        let m' = record m { epoll = r.0 } in
        del_event ctl m fd e ≡ (
          if event_armed c e
          then (if r.1 then ok (m', false) else ok (deleted m' fd e c, true))
          else ok (m, false))
  unfolding del_event
  del_event_lem m fd e c v g = rw (g, del_event) (del_at_lem m fd e c (IsWf-get_elem? m fd c v g))

  -- The epoll_ctl call of addEvent: EPOLL_CTL_MOD on a context with events, and on one without any
  -- EPOLL_CTL_DEL.
  abbrev pub add_call : IoManager C E → ℕ → Event → FdContext C → E × Bool
  add_call m fd e c =
      ctl m.epoll (if c.events == 0 then ctl_del else ctl_mod) fd
        (bit_or (bit_or epoll_et c.events) (bits e))

  filled_empty : (x : EventContext C) → IsFilled x → armed x ≡ false → x ≡ empty_context
  filled_empty x f h = ground arith

  join-registered :
      (c : FdContext C) (e : Event) (x : EventContext C)
      → IsWf c
      → e ≢ no_event
      → put_event_context (record c { events = join c.events e }) e x ≡ registered c e x
  unfolding put_event_context
  join-registered c no_event x v n = absurd (n refl)
  join-registered c read x v n =
      ground (arith, v.mask, join_mask read (armed c.reader) (armed c.writer))
  join-registered c write x v n =
      ground (arith, v.mask, join_mask write (armed c.reader) (armed c.writer))

  register_lem :
      (m : IoManager C E) (who : Caller) (fd : ℕ) (e : Event) (cb : Option C) (c : FdContext C)
      → IsWf c
      → e ≢ no_event
      → who.running ≡ true
      → register ctl m who fd e cb c
        ≡ (if event_armed c e then crash else ok (added_at m fd e who cb c, true))
  unfolding register get_event_context
  register_lem m who fd no_event cb c v n run = absurd (n refl)
  register_lem m who fd read cb c v n run = ground (
    arith,
    v.reader_ok.some_task,
    filled_empty c.reader v.reader_ok,
    join-registered c read (filled who cb) v n,
  )
  register_lem m who fd write cb c v n run = ground (
    arith,
    v.writer_ok.some_task,
    filled_empty c.writer v.writer_ok,
    join-registered c write (filled who cb) v n,
  )

  add_at_lem :
      (m : IoManager C E) (who : Caller) (fd : ℕ) (e : Event) (cb : Option C) (c : FdContext C)
      → IsWf c
      → e ≢ no_event
      → who.running ≡ true
      → let r = add_call m fd e c in
        let m' = record m { epoll = r.0 } in
        add_at ctl m who fd e cb c ≡ (
          if r.1
          then ok (m', false)
          else if event_armed c e
          then crash
          else ok (added_at m' fd e who cb c, true))
  unfolding add_at
  add_at_lem m who fd e cb c v n run =
      let r = add_call m fd e c in
      elim (Bool-cases r.1) [
        | inl f ↦ rw f refl
        | inr f ↦ rw (f, register_lem (record m { epoll = r.0 }) who fd e cb c v n run) refl
      ]

  -- addEvent for READ or WRITE on any int descriptor, from a running fiber of a scheduler. The vector
  -- grows where it must and then holds a context for the descriptor. Where epoll_ctl fails, -1 is
  -- returned and only its own state changes. Else, where the event is registered already, the
  -- assertion fails; where it is not, it is registered for the function, or for the fiber of the
  -- caller if there is none, the count goes up by one, and the invariant holds again.
  pub add_event_lem :
      (m : IoManager C E) (who : Caller) (fd : ℕ) (e : Event) (cb : Option C)
      → Inv m
      → fd < 2 ^ 31
      → e ≢ no_event
      → who.running ≡ true
      → is_some who.scheduler ≡ true
      → let g = record m { contexts = grown m.contexts fd } in
        (c : FdContext C) × (get_elem? g.contexts fd ≡ some c)
        × (add_event ctl m who fd e cb ≡ (
            let r = add_call g fd e c in
            let m' = record g { epoll = r.0 } in
            if r.1
            then ok (m', false)
            else if event_armed c e
            then crash
            else ok (added_at m' fd e who cb c, true)))
        × (event_armed c e ≡ false
            → Inv (added_at (record g { epoll = (add_call g fd e c).0 }) fd e who cb c))
  unfolding add_event
  add_event_lem m who fd e cb v h n run has_scheduler =
      let g = record m { contexts = grown m.contexts fd } in
      let (w, long) = grown_lem m fd v h in
      let (c, found) = get_elem?-lt (grown m.contexts fd) fd long in
      (
        c,
        found,
        rw (found, add_event) (add_at_lem g who fd e cb c (IsWf-get_elem? g fd c w found) n run),
        λ free. registered-Inv g fd e who cb c (add_call g fd e c).0 w found n free has_scheduler,
      )
