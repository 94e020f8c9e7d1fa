-- ===== src/FdManager/Table.antt =====
-- The table of libcocao/fd_manager.cc as a map from descriptors to contexts.
use libcocao.Base.{
  ℕ, zero, suc, ◌*◌, ◌/◌, ◌≤◌, ◌<◌, ◌≡◌, refl, ◌∙◌, ap, inl, inr, Bool, true, false, not, ◌&&◌,
  ◌||◌, Option, none, some, List, [], ◌∷◌, arith, ltb, ◌==◌, ==_iff, if◌then◌else◌, Bool-cases,
  is_some, length, get_elem?, set, length-set,
}
use libcocao.FdManager.{
  pos, FdCtx, System, fd_new, Table, Outcome, ok, fault, vector_resize, manager_new, create, get,
  del,
}

-- What the table holds for a descriptor; nothing past its end.
abbrev pub at : Table → ℕ → Option FdCtx
at t fd = elim (get_elem? t fd) [ none ↦ none | some x ↦ x ]

at-resize : (n : ℕ) (t : Table) (j : ℕ) → length t ≤ n → at (vector_resize n t) j ≡ at t j
unfolding vector_resize
at-resize zero [] j h = refl
at-resize zero (x ∷ t) j h = absurd (omega arith)
at-resize (suc n) [] zero h = refl
at-resize (suc n) [] (suc j) h = at-resize n [] j (omega arith)
at-resize (suc n) (x ∷ t) zero h = refl
at-resize (suc n) (x ∷ t) (suc j) h = at-resize n t j (omega arith)

length-resize : (n : ℕ) (t : Table) → length (vector_resize n t) ≡ n
unfolding vector_resize
length-resize zero t = refl
length-resize (suc n) [] = ap suc (length-resize n [])
length-resize (suc n) (x ∷ t) = ap suc (length-resize n t)

pub at-set :
    (t : Table) (fd j : ℕ) (x : Option FdCtx)
    → fd < length t
    → at (set t fd x) j ≡ (if j == fd then x else at t j)
at-set [] fd j x h = absurd (omega arith)
at-set (y ∷ t) zero zero x h = refl
at-set (y ∷ t) zero (suc j) x h = ground arith
at-set (y ∷ t) (suc fd) zero x h = ground arith
at-set (y ∷ t) (suc fd) (suc j) x h = ground (arith, at-set t fd j x)

at_past : (t : Table) (j : ℕ) → length t ≤ j → at t j ≡ none
at_past [] j h = refl
at_past (x ∷ t) zero h = absurd (omega arith)
at_past (x ∷ t) (suc j) h = at_past t j (omega arith)

-- The vector never gets shorter than at the start.
abbrev pub IsLong : Table → Type 0
IsLong t = 64 ≤ length t

pub manager_new-IsLong : IsLong manager_new
unfolding manager_new
manager_new-IsLong = omega (arith, length-resize 64 [])

-- The vector that `create` writes to.
abbrev room : Table → ℕ → Table
room t fd = if ltb fd (length t) then t else vector_resize (fd * 3 / 2) t

room_lem : (t : Table) (fd : ℕ) → IsLong t → (fd < length (room t fd)) × IsLong (room t fd)
room_lem t fd h = ground (arith, length-resize (fd * 3 / 2) t)

at-room : (t : Table) (fd j : ℕ) → IsLong t → at (room t fd) j ≡ at t j
at-room t fd j h = ground (arith, at-resize (fd * 3 / 2) t j)

create_lem :
    (s : System) (t : Table) (fd : ℕ)
    → IsLong t
    → (t' : Table) × (create s t fd ≡ ok (t', some (fd_new s fd).0))
      × IsLong t'
      × ((j : ℕ) → at t' j ≡ (if j == fd then some (fd_new s fd).0 else at t j))
unfolding create
create_lem s t fd h =
    let x : Option FdCtx = some (fd_new s fd).0 in
    let fits = room_lem t fd h in
    (
      set (room t fd) fd x,
      ground (arith, fits.0),
      omega (arith, fits.1, length-set (room t fd) fd x),
      λ j. at-set (room t fd) fd j x fits.0 ∙ rw (at-room t fd j h) refl,
    )

get_pos :
    (s : System) (t : Table) (fd : ℕ) (auto : Bool)
    → get s t (pos fd) auto
      ≡ (if is_some (at t fd) || not auto then ok (t, at t fd) else create s t fd)
unfolding get
get_pos s t fd auto = ground arith

-- Without auto_create the table is only read.
pub get_peek : (s : System) (t : Table) (fd : ℕ) → get s t (pos fd) false ≡ ok (t, at t fd)
get_peek s t fd = get_pos s t fd false ∙ ground arith

-- FdManager::get on a descriptor returns for every table that has at least its 64 first places, and
-- such a table is left. It answers what the table holds, or, where that is nothing and a context is
-- asked for, a new context. Afterwards the table holds the answer for the descriptor and what it
-- held for every other one.
pub get_lem :
    (s : System) (t : Table) (fd : ℕ) (auto : Bool)
    → IsLong t
    → let x = if is_some (at t fd) || not auto then at t fd else some (fd_new s fd).0 in
      (t' : Table) × (get s t (pos fd) auto ≡ ok (t', x))
      × IsLong t'
      × ((j : ℕ) → at t' j ≡ (if j == fd then x else at t j))
get_lem s t fd auto h = elim (Bool-cases (is_some (at t fd) || not auto)) [
  | inl e ↦ (t, get_pos s t fd auto ∙ rw e refl, h, λ j. rw e (same j))
  | inr e ↦
      let (t', made, long, holds) = create_lem s t fd h in
      (t', get_pos s t fd auto ∙ rw (e, made) refl, long, λ j. rw e (holds j))
]
  where
    same : (j : ℕ) → at t j ≡ (if j == fd then at t fd else at t j)
    same j = elim (Bool-cases (j == fd)) [
      | inl q ↦ rw q (ap (at t) ((==_iff j fd).0 q))
      | inr q ↦ rw q refl
    ]

-- FdManager::del empties the place of its descriptor and keeps every other one.
pub del_lem :
    (t : Table) (fd : ℕ)
    → IsLong t
    → (t' : Table) × (del t (pos fd) ≡ ok t')
      × IsLong t'
      × ((j : ℕ) → at t' j ≡ (if j == fd then none else at t j))
unfolding del
del_lem t fd h = elim (Bool-cases (ltb fd (length t))) [
  | inl e ↦
      let gone : Option FdCtx = none in
      (
        set t fd gone,
        rw e refl,
        omega (arith, length-set t fd gone, h),
        λ j. at-set t fd j gone (ground arith),
      )
  | inr e ↦ (t, rw e refl, h, λ j. ground (arith, at_past t j))
]

-- The calls of a program, each with what the system says by then, and the table after them.
pub data Call : Type 0 where
  gets : System → ℕ → Bool → Call
  dels : ℕ → Call

pub step : Table → Call → Outcome Table
step t (gets s fd auto) = elim (get s t (pos fd) auto) [ fault ↦ fault | ok r ↦ ok r.0 ]
step t (dels fd) = del t (pos fd)

pub run : Table → List Call → Outcome Table
run t [] = ok t
run t (c ∷ cs) = elim (step t c) [ fault ↦ fault | ok t' ↦ run t' cs ]

-- The same calls on a map from descriptors.
pub spec_step : (ℕ → Option FdCtx) → Call → ℕ → Option FdCtx
spec_step f (gets s fd auto) j =
    if (j == fd) && not (is_some (f fd)) && auto then some (fd_new s fd).0 else f j
spec_step f (dels fd) j = if j == fd then none else f j

pub spec_run : (ℕ → Option FdCtx) → List Call → ℕ → Option FdCtx
spec_run f [] = f
spec_run f (c ∷ cs) = spec_run (spec_step f c) cs

step_refines :
    (t : Table) (f : ℕ → Option FdCtx) (c : Call)
    → IsLong t
    → ((j : ℕ) → at t j ≡ f j)
    → (t' : Table) × (step t c ≡ ok t') × IsLong t' × ((j : ℕ) → at t' j ≡ spec_step f c j)
unfolding step spec_step
step_refines t f (dels fd) h e =
    let (t', q, long, holds) = del_lem t fd h in (t', q, long, λ j. holds j ∙ rw (e j) refl)
step_refines t f (gets s fd auto) h e =
    let (t', q, long, holds) = get_lem s t fd auto h in
    (t', rw (q, step) refl, long, λ j. ground (arith, holds j, e j, e fd, moved j))
  where
    moved : (j : ℕ) → (j == fd) ≡ true → f j ≡ f fd
    moved j q = ap f ((==_iff j fd).0 q)

run_lem :
    (t : Table) (f : ℕ → Option FdCtx) (cs : List Call)
    → IsLong t
    → ((j : ℕ) → at t j ≡ f j)
    → (t' : Table) × (run t cs ≡ ok t') × ((j : ℕ) → at t' j ≡ spec_run f cs j)
unfolding run spec_run
run_lem t f [] h e = (t, refl, e)
run_lem t f (c ∷ cs) h e =
    let (t1, q, long, holds) = step_refines t f c h e in
    let (t2, q', holds') = run_lem t1 (spec_step f c) cs long holds in (t2, rw (q, run) q', holds')

-- Every history of calls of get and del on descriptors, on a new manager, ends without an access
-- outside the vector, however the vector grows. The table then holds what a map from descriptors
-- holds after the same calls, where a call of get adds a new context just where there is none and
-- one is asked for, and del removes.
pub run_refines :
    (cs : List Call)
    → (t : Table) × (run manager_new cs ≡ ok t) × ((j : ℕ) → at t j ≡ spec_run (λ _. none) cs j)
unfolding manager_new
run_refines cs =
    run_lem manager_new (λ _. none) cs manager_new-IsLong (λ j. at-resize 64 [] j (omega arith))
