-- ===== src/IoManager/CancelAll.antt =====
-- cancelAll and the loop of idle over the reported events (libcocao/iomanager.cc), which trigger the
-- read event of a descriptor and then its write event.
use mathlib.Core.List.{append-nil, append_assoc}
use libcocao.Base.{
  ℕ, ◌+◌, ◌≡◌, refl, sym, ◌∙◌, ap, ◌≢◌, inl, inr, Bool, true, false, not, ◌||◌, some, List, [],
  ◌++◌, arith, ◌==◌, if◌then◌else◌, Bool-cases, get_elem?, get_elem?-set_self, get_elem?-set_ne,
  lt_of_get_elem?, All-get_elem?,
}
use libcocao.IoManager.{
  Event, read, write, Task, FdContext, Ctl, ctl_del, IoManager, ok, trigger_if, cancel_all_at,
  cancel_all,
}
use libcocao.IoManager.Masks.{mask-eq-zero}
use libcocao.IoManager.Contexts.{
  IsWf, armed, weight, event_armed, dropped, event_tasks, has-event_armed, dropped-IsWf,
  weight-dropped,
}
use libcocao.IoManager.Inv.{total-set, Inv, triggered, dropped-Inv}
use libcocao.IoManager.Delivery.{trigger_at_lem}

abbrev pub one_if : Bool → ℕ
one_if true = 1
one_if false = 0

module _ {C : Type 0} where
  abbrev pub context_if : Bool → FdContext C → Event → FdContext C
  context_if true c e = dropped c e
  context_if false c e = c

  abbrev pub tasks_if : Bool → FdContext C → Event → List (ℕ × Task C)
  tasks_if true c e = event_tasks c e
  tasks_if false c e = []

  -- Both statements in a row, for the read and the write event.
  abbrev pub both_context : Bool → Bool → FdContext C → FdContext C
  both_context x y c = context_if y (context_if x c read) write

  pub context_if-IsWf : (b : Bool) (c : FdContext C) (e : Event) → IsWf c → IsWf (context_if b c e)
  context_if-IsWf true c e v = dropped-IsWf c e v
  context_if-IsWf false c e v = v

  pub write_after_read :
      (b : Bool) (c : FdContext C) → event_armed (context_if b c read) write ≡ armed c.writer
  write_after_read true c = refl
  write_after_read false c = refl

  tasks_after_read :
      (x y : Bool) (c : FdContext C) → tasks_if y (context_if x c read) write ≡ tasks_if y c write
  tasks_after_read true true c = refl
  tasks_after_read true false c = refl
  tasks_after_read false y c = refl

  both_context_empty :
      (c : FdContext C)
      → IsWf c
      → ((both_context (armed c.reader) (armed c.writer) c).events == 0) ≡ true
  both_context_empty c v = ground (arith, v.mask)

  pub events-eq-zero :
      (c : FdContext C) → IsWf c → (c.events == 0) ≡ not (armed c.reader || armed c.writer)
  events-eq-zero c v = rw v.mask (mask-eq-zero (armed c.reader) (armed c.writer))

module _ {C E : Type 0} where
  -- The manager and the context after `if (b) { triggerEvent(e); --m_pendingEventCount; }`.
  abbrev pub triggered_if : Bool → IoManager C E → ℕ → Event → FdContext C → IoManager C E
  triggered_if true m fd e c = triggered m fd e c
  triggered_if false m fd e c = m

  -- What one such statement comes to: the invariant holds again, the context is the one at `fd`, the
  -- task is scheduled behind the others, the count has gone down with it, and the other
  -- descriptors are as before.
  pub record Handled (m : IoManager C E) (fd : ℕ) (ts : List (ℕ × Task C)) (k : ℕ)
      (n : IoManager C E) (c : FdContext C) : Type 0 where
    pub inv : Inv n
    pub found : get_elem? n.contexts fd ≡ some c
    pub posts : n.posted ≡ m.posted ++ ts
    pub count : n.pending + k ≡ m.pending
    pub others : (j : ℕ) → fd ≢ j → get_elem? n.contexts j ≡ get_elem? m.contexts j

  triggered-Handled :
      (b : Bool) (m : IoManager C E) (fd : ℕ) (e : Event) (c : FdContext C)
      → Inv m
      → get_elem? m.contexts fd ≡ some c
      → (b ≡ true → event_armed c e ≡ true)
      → Handled m fd (tasks_if b c e) (one_if b) (triggered_if b m fd e c) (context_if b c e)
  triggered-Handled false m fd e c v g h = record {
    inv = v;
    found = g;
    posts = sym (append-nil m.posted);
    count = omega arith;
    others = λ j n. refl;
  }
  triggered-Handled true m fd e c v g h = record {
    inv = next;
    found = get_elem?-set_self m.contexts fd (dropped c e) (lt_of_get_elem? m.contexts fd c g);
    posts = refl;
    count =
        omega
          (arith, next.counted, v.counted, total-set m.contexts fd c (dropped c e) g, armed_one);
    others = λ j n. get_elem?-set_ne m.contexts fd j (dropped c e) n;
  }
    where
      next : Inv (triggered m fd e c)
      next = dropped-Inv m fd e c m.epoll (m.posted ++ event_tasks c e) v g (h refl)

      armed_one : weight (dropped c e) + 1 ≡ weight c
      armed_one = rw (h refl) at (weight-dropped c e)

  Handled-trans :
      {m n p : IoManager C E} {fd k l : ℕ} {ts us : List (ℕ × Task C)} {c d : FdContext C}
      → Handled m fd ts k n c
      → Handled n fd us l p d
      → Handled m fd (ts ++ us) (l + k) p d
  Handled-trans {m} {n} {p} {fd} {k} {l} {ts} {us} a b = record {
    inv = b.inv;
    found = b.found;
    posts = b.posts ∙ ap (λ x. x ++ us) a.posts ∙ append_assoc m.posted ts us;
    count = omega (arith, a.count, b.count);
    others = λ j x. b.others j x ∙ a.others j x;
  }

  -- Both statements in a row.
  abbrev pub both : Bool → Bool → IoManager C E → ℕ → FdContext C → IoManager C E
  both x y m fd c = triggered_if y (triggered_if x m fd read c) fd write (context_if x c read)

  pub both-Handled :
      (x y : Bool) (m : IoManager C E) (fd : ℕ) (c : FdContext C)
      → Inv m
      → get_elem? m.contexts fd ≡ some c
      → (x ≡ true → armed c.reader ≡ true)
      → (y ≡ true → armed c.writer ≡ true)
      → Handled m fd
          (tasks_if x c read ++ tasks_if y c write)
          (one_if y + one_if x)
          (both x y m fd c)
          (both_context x y c)
  both-Handled x y m fd c v g hx hy =
      let a = triggered-Handled x m fd read c v g hx in
      rw (← tasks_after_read x y c) (
        Handled-trans a (
          triggered-Handled y (triggered_if x m fd read c) fd write (context_if x c read) a.inv
            a.found (λ e. write_after_read x c ∙ hy e)))

  module _ (ctl : Ctl E) where
    pub trigger_if_lem :
        (b : Bool) (m : IoManager C E) (fd : ℕ) (e : Event) (c : FdContext C)
        → IsWf c
        → (b ≡ true → event_armed c e ≡ true)
        → trigger_if ctl b m fd e c ≡ ok (triggered_if b m fd e c, context_if b c e)
    unfolding trigger_if
    trigger_if_lem true m fd e c v h = trigger_at_lem ctl m fd e c v (h refl)
    trigger_if_lem false m fd e c v h = refl

    -- The statements of cancelAll and idle together.
    pub both_lem :
        (x y : Bool) (m : IoManager C E) (fd : ℕ) (c : FdContext C)
        → IsWf c
        → (x ≡ true → armed c.reader ≡ true)
        → (y ≡ true → armed c.writer ≡ true)
        → trigger_if ctl y (triggered_if x m fd read c) fd write (context_if x c read)
          ≡ ok (both x y m fd c, both_context x y c)
    both_lem x y m fd c v hx hy =
        trigger_if_lem y (triggered_if x m fd read c) fd write (context_if x c read)
          (context_if-IsWf x c read v) (λ e. write_after_read x c ∙ hy e)

    cancel_all_at_lem :
        (m : IoManager C E) (fd : ℕ) (c : FdContext C)
        → IsWf c
        → let r = ctl m.epoll ctl_del fd 0 in
          let m' = record m { epoll = r.0 } in
          cancel_all_at ctl m fd c ≡ (
            if not (armed c.reader || armed c.writer)
            then ok (m, false)
            else if r.1
            then ok (m', false)
            else ok (both (armed c.reader) (armed c.writer) m' fd c, true))
    unfolding cancel_all_at
    cancel_all_at_lem m fd c v =
        let x = armed c.reader in
        let y = armed c.writer in
        let r = ctl m.epoll ctl_del fd 0 in
        let m' = record m { epoll = r.0 } in
        elim (Bool-cases (x || y)) [
          | inr h ↦ rw (events-eq-zero c v, h) refl
          | inl h ↦
              rw (events-eq-zero c v, h)
                (elim (Bool-cases r.1) [
                  | inl f ↦ rw f refl
                  | inr f ↦
                      rw
                        (
                          f,
                          has-event_armed c read v,
                          trigger_if_lem x m' fd read c v (λ e. e),
                          has-event_armed (context_if x c read) write (context_if-IsWf x c read v),
                          write_after_read x c,
                          both_lem x y m' fd c v (λ e. e) (λ e. e),
                          both_context_empty c v,
                        )
                        refl
                ])
        ]

    -- cancelAll on a descriptor within the vector. Where no event is registered nothing happens.
    -- Where epoll_ctl fails only its own state changes. Else what is registered is triggered, the
    -- read event first: the closing assertion holds, the invariant is kept, the tasks of the
    -- descriptor are scheduled, its mask is empty, the count goes down by the number of its events,
    -- and the other descriptors are as before.
    pub cancel_all_lem :
        (m : IoManager C E) (fd : ℕ) (c : FdContext C)
        → Inv m
        → get_elem? m.contexts fd ≡ some c
        → let x = armed c.reader in
          let y = armed c.writer in
          let r = ctl m.epoll ctl_del fd 0 in
          let m' = record m { epoll = r.0 } in
          (cancel_all ctl m fd ≡ (
            if not (x || y)
            then ok (m, false)
            else if r.1
            then ok (m', false)
            else ok (both x y m' fd c, true)))
          × Handled m fd
              (tasks_if x c read ++ tasks_if y c write)
              (one_if y + one_if x)
              (both x y m' fd c)
              (both_context x y c)
          × (((both_context x y c).events == 0) ≡ true)
    unfolding cancel_all
    cancel_all_lem m fd c v g =
        let w : IsWf c = All-get_elem? IsWf m.contexts fd c v.contexts_ok g in
        let m' = record m { epoll = (ctl m.epoll ctl_del fd 0).0 } in
        let done =
          both-Handled (armed c.reader) (armed c.writer) m' fd c
            (record {
              contexts_ok = v.contexts_ok;
              counted = v.counted;
              lower = v.lower;
              upper = v.upper;
            })
            g (λ e. e) (λ e. e) in
        (
          rw (g, cancel_all) (cancel_all_at_lem m fd c w),
          record {
            inv = done.inv;
            found = done.found;
            posts = done.posts;
            count = done.count;
            others = done.others;
          },
          both_context_empty c w,
        )
