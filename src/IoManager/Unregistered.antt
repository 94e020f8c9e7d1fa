-- ===== src/IoManager/Unregistered.antt =====
-- addEvent (libcocao/iomanager.cc) against an epoll that knows which descriptors it watches: what
-- follows from the EPOLL_CTL_DEL that it uses for a context without events.
use Prim.Native.Nat.{bit_or}
use libcocao.Base.{
  ℕ, zero, suc, ◌+◌, ◌*◌, ◌/◌, ◌≤◌, ◌≡◌, refl, sym, ◌∙◌, subst, ◌≢◌, inl, inr, Bool, true, false,
  Option, List, [], ◌∷◌, arith, ltb, ◌==◌, if◌then◌else◌, Bool-cases, Option-cases, length,
  get_elem?, get_elem?-lt, All, All-get_elem?,
}
use libcocao.IoManager.Inv.{length-grown}
use libcocao.IoManager.{
  Event, no_event, read, write, has, bits, epoll_et, FdContext, Ctl, CtlOp, ctl_mod, ctl_del,
  IoManager, Outcome, ok, Caller, context_resize_from, context_resize, new_manager, grown, add_at,
  add_event, del_at, del_event, cancel_at, cancel_event, cancel_all_at, cancel_all,
}

-- epoll_ctl as its manual page has it: EPOLL_CTL_DEL and EPOLL_CTL_MOD fail on a descriptor that is
-- not watched, a call that fails changes nothing, and only EPOLL_CTL_ADD starts to watch one.
pub record Epoll (E : Type 0) : Type 0 where
  pub ctl : Ctl E
  pub watched : E → ℕ → Bool
  pub del_unwatched : (s : E) (fd v : ℕ) → watched s fd ≡ false → (ctl s ctl_del fd v).1 ≡ true
  pub failed_same : (s : E) (o : CtlOp) (fd v : ℕ) → (ctl s o fd v).1 ≡ true → (ctl s o fd v).0 ≡ s

has_none : (e : Event) → has 0 e ≡ false
unfolding has
has_none no_event = refl
has_none read = refl
has_none write = refl

module _ {C E : Type 0} (ep : Epoll E) where
  -- No descriptor but `pipe` is watched, and no context has an event.
  pub record Idle (pipe : ℕ) (m : IoManager C E) : Type 0 where
    pub unwatched : (fd : ℕ) → fd ≢ pipe → ep.watched m.epoll fd ≡ false
    pub no_events : All (λ c. c.events ≡ 0) m.contexts
    pub lower : 32 ≤ length m.contexts

  -- A call of addEvent, delEvent, cancelEvent or cancelAll on a descriptor other than `pipe`.
  pub data Call (pipe : ℕ) (m : IoManager C E) : Outcome (IoManager C E × Bool) → Type 0 where
    adds :
        (who : Caller) (fd : ℕ) (e : Event) (cb : Option C)
        → fd ≢ pipe
        → Call pipe m (add_event ep.ctl m who fd e cb)
    dels : (fd : ℕ) (e : Event) → Call pipe m (del_event ep.ctl m fd e)
    cancels : (fd : ℕ) (e : Event) → Call pipe m (cancel_event ep.ctl m fd e)
    cancels_all : (fd : ℕ) → Call pipe m (cancel_all ep.ctl m fd)

  pub data Reach (pipe : ℕ) (m : IoManager C E) : IoManager C E → Type 0 where
    here : Reach pipe m m
    next :
        {n p : IoManager C E} {b : Bool} {o : Outcome (IoManager C E × Bool)}
        → Reach pipe m n
        → Call pipe n o
        → o ≡ ok (p, b)
        → Reach pipe m p

  resize_no_events :
      (n i : ℕ) (cs : List (FdContext C))
      → All (λ c. c.events ≡ 0) cs
      → All (λ c. c.events ≡ 0) (context_resize_from n i cs)
  unfolding context_resize_from
  resize_no_events zero i cs h = tt
  resize_no_events (suc n) i [] h = (refl, resize_no_events n (i + 1) [] h)
  resize_no_events (suc n) i (c ∷ cs) h = (h.0, resize_no_events n (i + 1) cs h.1)

  grown_no_events :
      (cs : List (FdContext C)) (fd : ℕ)
      → All (λ c. c.events ≡ 0) cs
      → All (λ c. c.events ≡ 0) (grown cs fd)
  unfolding grown context_resize
  grown_no_events cs fd h = elim (Bool-cases (ltb fd (length cs))) [
    | inl e ↦ rw e h
    | inr e ↦ rw e (resize_no_events (fd * 3 / 2) 0 cs h)
  ]

  add_at_fails :
      (m : IoManager C E) (who : Caller) (fd : ℕ) (e : Event) (cb : Option C) (c : FdContext C)
      → ep.watched m.epoll fd ≡ false
      → c.events ≡ 0
      → add_at ep.ctl m who fd e cb c ≡ ok (m, false)
  unfolding add_at
  add_at_fails m who fd e cb c u z =
      let v = bit_or (bit_or epoll_et c.events) (bits e) in
      let op : (if c.events == 0 then ctl_del else ctl_mod) ≡ ctl_del = ground arith in
      let f = ep.del_unwatched m.epoll fd v u in
      rw (op, f, ep.failed_same m.epoll ctl_del fd v f) refl

  -- What addEvent changes here: the length of the vector at most.
  abbrev pub only_grown : IoManager C E → ℕ → IoManager C E
  only_grown m fd = record m { contexts = grown m.contexts fd }

  only_grown-Idle :
      (pipe : ℕ) (m : IoManager C E) (fd : ℕ) → Idle pipe m → Idle pipe (only_grown m fd)
  only_grown-Idle pipe m fd v = record {
    unwatched = v.unwatched;
    no_events = grown_no_events m.contexts fd v.no_events;
    lower = (length-grown m.contexts fd v.lower).0;
  }

  add_event_fails :
      (pipe : ℕ) (m : IoManager C E) (who : Caller) (fd : ℕ) (e : Event) (cb : Option C)
      → Idle pipe m
      → fd ≢ pipe
      → add_event ep.ctl m who fd e cb ≡ ok (only_grown m fd, false)
  unfolding add_event
  add_event_fails pipe m who fd e cb v n =
      let (c, found) =
        get_elem?-lt (grown m.contexts fd) fd (length-grown m.contexts fd v.lower).1 in
      rw (found, add_event)
        (add_at_fails (only_grown m fd) who fd e cb c (v.unwatched fd n) (
          All-get_elem? (λ x. x.events ≡ 0) (grown m.contexts fd) fd c
            (grown_no_events m.contexts fd v.no_events) found))

  del_event_refused :
      (pipe : ℕ) (m : IoManager C E) (fd : ℕ) (e : Event)
      → Idle pipe m
      → del_event ep.ctl m fd e ≡ ok (m, false)
  unfolding del_event del_at
  del_event_refused pipe m fd e v = elim (Option-cases (get_elem? m.contexts fd)) [
    | inl out ↦ rw (out, del_event) refl
    | inr (c, found) ↦
        rw
          (
            found,
            del_event,
            All-get_elem? (λ x. x.events ≡ 0) m.contexts fd c v.no_events found,
            has_none e,
          )
          refl
  ]

  cancel_event_refused :
      (pipe : ℕ) (m : IoManager C E) (fd : ℕ) (e : Event)
      → Idle pipe m
      → cancel_event ep.ctl m fd e ≡ ok (m, false)
  unfolding cancel_event cancel_at
  cancel_event_refused pipe m fd e v = elim (Option-cases (get_elem? m.contexts fd)) [
    | inl out ↦ rw (out, cancel_event) refl
    | inr (c, found) ↦
        rw
          (
            found,
            cancel_event,
            All-get_elem? (λ x. x.events ≡ 0) m.contexts fd c v.no_events found,
            has_none e,
          )
          refl
  ]

  cancel_all_refused :
      (pipe : ℕ) (m : IoManager C E) (fd : ℕ) → Idle pipe m → cancel_all ep.ctl m fd ≡ ok (m, false)
  unfolding cancel_all cancel_all_at
  cancel_all_refused pipe m fd v = elim (Option-cases (get_elem? m.contexts fd)) [
    | inl out ↦ rw (out, cancel_all) refl
    | inr (c, found) ↦
        rw (found, cancel_all, All-get_elem? (λ x. x.events ≡ 0) m.contexts fd c v.no_events found)
          refl
  ]

  Call-Idle :
      (pipe : ℕ) {m n : IoManager C E} {b : Bool} {o : Outcome (IoManager C E × Bool)}
      → Idle pipe m
      → Call pipe m o
      → o ≡ ok (n, b)
      → Idle pipe n
  Call-Idle pipe {m} v (adds who fd e cb k) h =
      subst (Idle pipe) (cc (sym (add_event_fails pipe m who fd e cb v k) ∙ h))
        (only_grown-Idle pipe m fd v)
  Call-Idle pipe {m} v (dels fd e) h =
      subst (Idle pipe) (cc (sym (del_event_refused pipe m fd e v) ∙ h)) v
  Call-Idle pipe {m} v (cancels fd e) h =
      subst (Idle pipe) (cc (sym (cancel_event_refused pipe m fd e v) ∙ h)) v
  Call-Idle pipe {m} v (cancels_all fd) h =
      subst (Idle pipe) (cc (sym (cancel_all_refused pipe m fd v) ∙ h)) v

  Reach-Idle : (pipe : ℕ) {m n : IoManager C E} → Idle pipe m → Reach pipe m n → Idle pipe n
  Reach-Idle pipe v here = v
  Reach-Idle pipe v (next r c h) = Call-Idle pipe (Reach-Idle pipe v r) c h

  new_manager-Idle :
      (pipe : ℕ) (s : E)
      → ((fd : ℕ) → fd ≢ pipe → ep.watched s fd ≡ false)
      → Idle pipe (new_manager s)
  unfolding new_manager context_resize context_resize_from
  new_manager-Idle pipe s u = record {
    unwatched = u;
    no_events = resize_no_events 32 0 [] tt;
    lower = omega arith;
  }

  -- After any history of calls on a new manager, whose epoll watches nothing but the pipe, addEvent
  -- on another descriptor returns -1 and at most makes the vector longer, and no context has an
  -- event. A context without events is registered by EPOLL_CTL_DEL, which epoll refuses for a
  -- descriptor that it does not watch.
  pub add_event_never_succeeds :
      (pipe : ℕ) (s : E) (m : IoManager C E) (who : Caller) (fd : ℕ) (e : Event) (cb : Option C)
      → ((fd : ℕ) → fd ≢ pipe → ep.watched s fd ≡ false)
      → Reach pipe (new_manager s) m
      → fd ≢ pipe
      → (add_event ep.ctl m who fd e cb ≡ ok (only_grown m fd, false))
        × All (λ c. c.events ≡ 0) m.contexts
  add_event_never_succeeds pipe s m who fd e cb u r n =
      let v = Reach-Idle pipe (new_manager-Idle pipe s u) r in
      (add_event_fails pipe m who fd e cb v n, v.no_events)
