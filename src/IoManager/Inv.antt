-- ===== src/IoManager/Inv.antt =====
-- The invariant of libcocao/iomanager.cc: every context agrees with its mask, and
-- m_pendingEventCount is the number of registered events.
use libcocao.Base.{
  ℕ, zero, suc, ◌+◌, ◌*◌, ◌/◌, ◌^◌, ◌≤◌, ◌<◌, ◌≡◌, refl, sym, ◌∙◌, ap, ◌≢◌, inl, inr, true, false,
  Option, some, List, [], ◌∷◌, ◌++◌, arith, ltb, Bool-cases, is_some, length, get_elem?, set,
  length-set, All, All-get_elem?, All-set,
}
use libcocao.IoManager.{
  Event, no_event, Caller, inc, dec, Task, FdContext, IoManager, context_resize_from,
  context_resize, new_manager, grown,
}
use libcocao.IoManager.Contexts.{
  IsWf, weight, event_armed, dropped, dropped-IsWf, weight-dropped, event_tasks, new_context-IsWf,
  filled, registered, registered-IsWf, weight-registered,
}

module _ {C : Type 0} where
  abbrev pub total : List (FdContext C) → ℕ
  total [] = 0
  total (c ∷ cs) = weight c + total cs

  weight-le : (c : FdContext C) → weight c ≤ 2
  weight-le c = ground arith

  pub total-le : (cs : List (FdContext C)) → total cs ≤ 2 * length cs
  total-le [] = omega arith
  total-le (c ∷ cs) = omega (arith, weight-le c, total-le cs)

  pub total-set :
      (cs : List (FdContext C)) (i : ℕ) (c v : FdContext C)
      → get_elem? cs i ≡ some c
      → total (set cs i v) + weight c ≡ total cs + weight v
  total-set [] i c v e = absurd (ground arith)
  total-set (x ∷ cs) zero c v e = ground arith
  total-set (x ∷ cs) (suc i) c v e = omega (arith, total-set cs i c v e)

  pub record Inv {E : Type 0} (m : IoManager C E) : Type 0 where
    pub contexts_ok : All IsWf m.contexts
    pub counted : m.pending ≡ total m.contexts
    pub lower : 32 ≤ length m.contexts
    pub upper : length m.contexts ≤ 3 * 2 ^ 30

  length-context_resize_from :
      (n i : ℕ) (cs : List (FdContext C)) → length (context_resize_from n i cs) ≡ n
  unfolding context_resize_from
  length-context_resize_from zero i cs = refl
  length-context_resize_from (suc n) i [] = ap suc (length-context_resize_from n (i + 1) [])
  length-context_resize_from (suc n) i (c ∷ cs) = ap suc (length-context_resize_from n (i + 1) cs)

  context_resize_from-IsWf :
      (n i : ℕ) (cs : List (FdContext C)) → All IsWf cs → All IsWf (context_resize_from n i cs)
  unfolding context_resize_from
  context_resize_from-IsWf zero i cs h = tt
  context_resize_from-IsWf (suc n) i [] h =
      (new_context-IsWf i, context_resize_from-IsWf n (i + 1) [] h)
  context_resize_from-IsWf (suc n) i (c ∷ cs) h = (h.0, context_resize_from-IsWf n (i + 1) cs h.1)

  total-context_resize_from :
      (n i : ℕ) (cs : List (FdContext C))
      → length cs ≤ n
      → total (context_resize_from n i cs) ≡ total cs
  unfolding context_resize_from
  total-context_resize_from zero i [] h = refl
  total-context_resize_from zero i (c ∷ cs) h = absurd (omega arith)
  total-context_resize_from (suc n) i [] h =
      omega (arith, total-context_resize_from n (i + 1) [] (omega arith))
  total-context_resize_from (suc n) i (c ∷ cs) h =
      ap (λ t. weight c + t) (total-context_resize_from n (i + 1) cs (omega arith))

  pub new_manager-Inv : {E : Type 0} (e : E) → Inv (new_manager {C = C} e)
  unfolding new_manager context_resize
  new_manager-Inv e = record {
    contexts_ok = context_resize_from-IsWf 32 0 [] tt;
    counted = sym (total-context_resize_from 32 0 [] (omega arith));
    lower = omega (arith, length-context_resize_from 32 0 []);
    upper = omega (arith, length-context_resize_from 32 0 []);
  }

  pub length-grown :
      (cs : List (FdContext C)) (fd : ℕ)
      → 32 ≤ length cs
      → (32 ≤ length (grown cs fd)) × (fd < length (grown cs fd))
  unfolding grown context_resize
  length-grown cs fd h = ground (arith, length-context_resize_from (fd * 3 / 2) 0 cs)

  -- What growing the vector for an int descriptor leaves.
  pub grown_lem :
      {E : Type 0} (m : IoManager C E) (fd : ℕ)
      → Inv m
      → fd < 2 ^ 31
      → Inv (record m { contexts = grown m.contexts fd }) × (fd < length (grown m.contexts fd))
  unfolding grown context_resize
  grown_lem m fd v h = elim (Bool-cases (ltb fd (length m.contexts))) [
    | inl e ↦ rw e (v, ground arith)
    | inr e ↦ rw e (
      record {
        contexts_ok = context_resize_from-IsWf (fd * 3 / 2) 0 m.contexts v.contexts_ok;
        counted =
            v.counted
            ∙ sym (total-context_resize_from (fd * 3 / 2) 0 m.contexts (ground (arith, v.lower)));
        lower = ground (arith, v.lower, length-context_resize_from (fd * 3 / 2) 0 m.contexts);
        upper = omega (arith, length-context_resize_from (fd * 3 / 2) 0 m.contexts);
      },
      ground (arith, v.lower, length-context_resize_from (fd * 3 / 2) 0 m.contexts),
    )
  ]

  -- The state after an armed event at `fd` is triggered, and after it is deleted.
  abbrev pub triggered : {E : Type 0} → IoManager C E → ℕ → Event → FdContext C → IoManager C E
  triggered m fd e c = record m {
    pending = dec m.pending;
    contexts = set m.contexts fd (dropped c e);
    posted = m.posted ++ event_tasks c e;
  }

  pub dropped-Inv :
      {E : Type 0} (m : IoManager C E) (fd : ℕ) (e : Event) (c : FdContext C) (s : E)
      (ts : List (ℕ × Task C))
      → Inv m
      → get_elem? m.contexts fd ≡ some c
      → event_armed c e ≡ true
      → Inv (record m {
        epoll = s;
        pending = dec m.pending;
        contexts = set m.contexts fd (dropped c e);
        posted = ts;
      })
  dropped-Inv m fd e c s ts v g h = record {
    contexts_ok =
        All-set IsWf m.contexts fd (dropped c e) v.contexts_ok
          (dropped-IsWf c e (All-get_elem? IsWf m.contexts fd c v.contexts_ok g));
    counted = dec_total;
    lower = rw length-set v.lower;
    upper = rw length-set v.upper;
  }
    where
      armed_one : weight (dropped c e) + 1 ≡ weight c
      armed_one = rw h at (weight-dropped c e)

      dec_total : dec m.pending ≡ total (set m.contexts fd (dropped c e))
      dec_total = omega (
        arith,
        armed_one,
        total-set m.contexts fd c (dropped c e) g,
        total-le m.contexts,
        v.counted,
        v.upper,
      )

  pub registered-Inv :
      {E : Type 0} (m : IoManager C E) (fd : ℕ) (e : Event) (who : Caller) (cb : Option C)
      (c : FdContext C) (s : E)
      → Inv m
      → get_elem? m.contexts fd ≡ some c
      → e ≢ no_event
      → event_armed c e ≡ false
      → is_some who.scheduler ≡ true
      → Inv (record m {
        epoll = s;
        pending = inc m.pending;
        contexts = set m.contexts fd (registered c e (filled who cb));
      })
  registered-Inv m fd e who cb c s v g n f h = record {
    contexts_ok =
        All-set IsWf m.contexts fd (registered c e (filled who cb)) v.contexts_ok
          (registered-IsWf c e who cb (All-get_elem? IsWf m.contexts fd c v.contexts_ok g) h);
    counted = omega (
      arith,
      weight-registered c e who cb n f h,
      total-set m.contexts fd c (registered c e (filled who cb)) g,
      total-le m.contexts,
      v.counted,
      v.upper,
    );
    lower = rw length-set v.lower;
    upper = rw length-set v.upper;
  }
