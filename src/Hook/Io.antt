-- ===== src/Hook/Io.antt =====
-- The loop of do_io in libcocao/hook.cc: which round ends it, and its timers.
use libcocao.Base.{
  ℕ, ◌≡◌, refl, sym, ap, subst, ◌≢◌, ◌⊎◌, inl, inr, Bool, true, false, ◌&&◌, Option, none, some,
  List, [], ◌∷◌, ◌++◌, arith, ◌==◌, ==_iff, Bool-cases, All,
}
use libcocao.FdManager.{ℤ}
use libcocao.Hook.{
  Result, returns, fails, eintr, eagain, etimedout, Wait, refused, resumed, Round, Effect, called,
  add_timer, cancel_timer, add_event, yielded, Done, has_limit, arm, disarm, before, after, io_loop,
}

-- The rounds after which do_io goes on: an interrupted call, and a wait that the event ended. A
-- timer's callback can have run only if there is a limit of time.
pub data GoesOn (to : ℕ) : Round → Type 0 where
  interrupted : (w : Wait) → GoesOn to (record { result = fails eintr; wait = w })
  woken :
      (fired : Bool)
      → (has_limit to && fired) ≡ false
      → GoesOn to (record { result = fails eagain; wait = resumed fired })

-- The rounds that end do_io, and what it then returns.
pub data EndsWith (to : ℕ) : Round → Result → Type 0 where
  answered : (n : ℤ) (w : Wait) → EndsWith to (record { result = returns n; wait = w }) (returns n)
  failed :
      (e : ℕ) (w : Wait)
      → e ≢ eintr
      → e ≢ eagain
      → EndsWith to (record { result = fails e; wait = w }) (fails e)
  no_event : (e : ℕ) → EndsWith to (record { result = fails eagain; wait = refused e }) (fails e)
  timed_out :
      has_limit to ≡ true
      → EndsWith to (record { result = fails eagain; wait = resumed true }) (fails etimedout)

-- What a timer is after some effects, if it was as given before: none where one was armed or
-- cancelled twice.
unfoldable pub armed : Bool → List Effect → Option Bool
armed b [] = some b
armed true (add_timer ∷ es) = none
armed false (add_timer ∷ es) = armed true es
armed true (cancel_timer ∷ es) = armed false es
armed false (cancel_timer ∷ es) = none
armed b (called ∷ es) = armed b es
armed b (add_event ∷ es) = armed b es
armed b (yielded ∷ es) = armed b es

abbrev pub Ended : Option Done → Result → Type 0
Ended x r = (d : Done) × (x ≡ some d) × (d.result ≡ r) × (armed false d.effects ≡ some false)

abbrev further : List Effect → Done → Done
further es d = record d { effects = es ++ d.effects }

GoesOn-Ended :
    (to : ℕ) (r : Round) (rest : Option Done) (x : Result)
    → GoesOn to r
    → Ended rest x
    → Ended (after to r rest) x
unfolding after before arm disarm armed
GoesOn-Ended to r rest x (interrupted w) (d, e, q, t) =
    (further (called ∷ []) d, rw (e, before) refl, q, t)
GoesOn-Ended to r rest x (woken fired n) (d, e, q, t) = elim (Bool-cases (has_limit to)) [
  | inl h ↦ (
    further (called ∷ add_timer ∷ add_event ∷ yielded ∷ cancel_timer ∷ []) d,
    rw (e, n, h) refl,
    q,
    t,
  )
  | inr h ↦ (further (called ∷ add_event ∷ yielded ∷ []) d, rw (e, n, h) refl, q, t)
]

GoesOn-none :
    (to : ℕ) (r : Round) (rest : Option Done) → GoesOn to r → rest ≡ none → after to r rest ≡ none
unfolding after before
GoesOn-none to r rest (interrupted w) e = rw (e, before) refl
GoesOn-none to r rest (woken fired n) e = rw (e, n, before) refl

EndsWith-Ended :
    (to : ℕ) (r : Round) (rest : Option Done) (x : Result)
    → EndsWith to r x
    → Ended (after to r rest) x
unfolding after before arm disarm armed
EndsWith-Ended to r rest x (answered n w) = (_, refl, refl, refl)
EndsWith-Ended to r rest x (failed e w p q) =
    (record { result = fails e; effects = called ∷ [] }, ground (arith, p, q), refl, refl)
EndsWith-Ended to r rest x (no_event e) = elim (Bool-cases (has_limit to)) [
  | inl h ↦ (
    record { result = fails e; effects = called ∷ add_timer ∷ add_event ∷ cancel_timer ∷ [] },
    rw h refl,
    refl,
    refl,
  )
  | inr h ↦ (record { result = fails e; effects = called ∷ add_event ∷ [] }, rw h refl, refl, refl)
]
EndsWith-Ended to r rest x (timed_out h) = (
  record {
    result = fails etimedout;
    effects = called ∷ add_timer ∷ add_event ∷ yielded ∷ cancel_timer ∷ [];
  },
  rw h refl,
  refl,
  refl,
)

-- Every round is of one of the two kinds.
abbrev Kinds : ℕ → Round → Type 0
Kinds to r = GoesOn to r ⊎ ((x : Result) × EndsWith to r x)

wait_cases : (to : ℕ) (w : Wait) → Kinds to (record { result = fails eagain; wait = w })
wait_cases to (refused e) = inr (fails e, no_event e)
wait_cases to (resumed false) = inl (woken false (ground arith))
wait_cases to (resumed true) = elim (Bool-cases (has_limit to)) [
  | inl h ↦ inr (fails etimedout, timed_out h)
  | inr h ↦ inl (woken true (rw h refl))
]

result_cases : (to : ℕ) (x : Result) (w : Wait) → Kinds to (record { result = x; wait = w })
result_cases to (returns n) w = inr (returns n, answered n w)
result_cases to (fails e) w = elim (Bool-cases (e == eintr)) [
  | inl q ↦ fails_as eintr ((==_iff e eintr).0 q) (inl (interrupted w))
  | inr q ↦ elim (Bool-cases (e == eagain)) [
    | inl q' ↦ fails_as eagain ((==_iff e eagain).0 q') (wait_cases to w)
    | inr q' ↦ inr (fails e, failed e w (ground arith) (ground arith))
  ]
]
  where
    fails_as :
        (e' : ℕ)
        → e ≡ e'
        → Kinds to (record { result = fails e'; wait = w })
        → Kinds to (record { result = fails e; wait = w })
    fails_as e' p k = subst (λ i. Kinds to (record { result = fails i; wait = w })) (sym p) k

-- The loop of do_io, whatever the calls of the system's function return and the waits bring. Either
-- every round was interrupted or ended with the event, and do_io has not returned yet, or this holds
-- up to a first round that ends it. Then do_io returns what this round says: a result other than
-- EINTR and EAGAIN as it is, the errno of an addEvent that failed, or ETIMEDOUT where there is a limit
-- of time and its timer has fired. Every timer that was added has then been cancelled, before the
-- next one was added.
pub io_loop_lem :
    (to : ℕ) (rs : List Round)
    → (All (GoesOn to) rs × (io_loop to rs ≡ none))
      ⊎ ((pre : List Round) × (r : Round) × (rest : List Round) × (x : Result) × (rs
            ≡ pre ++ r ∷ rest)
          × All (GoesOn to) pre
          × EndsWith to r x
          × Ended (io_loop to rs) x)
unfolding io_loop
io_loop_lem to [] = inl (tt, refl)
io_loop_lem to (r ∷ rs) = elim (result_cases to r.result r.wait) [
  | inr (x, f) ↦ inr ([], r, rs, x, refl, tt, f, EndsWith-Ended to r (io_loop to rs) x f)
  | inl g ↦ elim (io_loop_lem to rs) [
    | inl (all, e) ↦ inl ((g, all), GoesOn-none to r (io_loop to rs) g e)
    | inr (pre, r', rest, x, e, all, f, ended) ↦ inr (
      r ∷ pre,
      r',
      rest,
      x,
      ap (λ l. r ∷ l) e,
      (g, all),
      f,
      GoesOn-Ended to r (io_loop to rs) x g ended,
    )
  ]
]
