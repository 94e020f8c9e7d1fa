-- ===== src/Log/Pattern.antt =====
-- The levels by name, and the pointers that LoggerManager of libcocao/log.cc gives out.
use libcocao.Base.{
  ℕ, ◌≡◌, refl, ◌∙◌, ap, sym, subst, ◌↔◌, ◌⊎◌, inl, inr, true, none, some, List, [], ◌∷◌, ◌++◌,
  ◌==◌, ==_iff, ==_self, Bool-cases, Option-cases, length, arith,
}
use libcocao.Log.{
  Level, unknow, debug, info, warn, error, fatal, text_eq, codes, level_to_string,
  level_from_string, Logger, LoggerManager, find_logger, get_logger,
}

pub text_eq_self : (s : List ℕ) → text_eq s s ≡ true
text_eq_self [] = refl
text_eq_self (c ∷ s) = rw (==_self c) (text_eq_self s)

pub text_eq_sound : (s t : List ℕ) → text_eq s t ≡ true → s ≡ t
text_eq_sound [] [] h = refl
text_eq_sound [] (d ∷ t) h = absurd (ground arith)
text_eq_sound (c ∷ s) [] h = absurd (ground arith)
text_eq_sound (c ∷ s) (d ∷ t) h = elim (Bool-cases (c == d)) [
  | inl e ↦ cc ((==_iff c d).0 e, text_eq_sound s t (sym (rw e refl) ∙ h))
  | inr e ↦ absurd (ground (arith, e, h))
]

-- FromString gives back every level from its name, and UNKNOW for every text that is not the name of
-- another level.
level_from_string_lem :
    (s : List ℕ)
    → ((l : Level) → level_from_string (level_to_string l) ≡ l)
      × ((level_from_string s ≡ unknow) ⊎ (level_to_string (level_from_string s) ≡ s))
unfolding level_from_string level_to_string
level_from_string_lem s = (
  back,
  elim (Bool-cases (text_eq (codes "DEBUG") s)) [
    | inl e ↦ inr (rw e (text_eq_sound (codes "DEBUG") s e))
    | inr e ↦ elim (Bool-cases (text_eq (codes "INFO") s)) [
      | inl f ↦ inr (rw (e, f) (text_eq_sound (codes "INFO") s f))
      | inr f ↦ elim (Bool-cases (text_eq (codes "WARN") s)) [
        | inl g ↦ inr (rw (e, f, g) (text_eq_sound (codes "WARN") s g))
        | inr g ↦ elim (Bool-cases (text_eq (codes "ERROR") s)) [
          | inl h ↦ inr (rw (e, f, g, h) (text_eq_sound (codes "ERROR") s h))
          | inr h ↦ elim (Bool-cases (text_eq (codes "FATAL") s)) [
            | inl i ↦ inr (rw (e, f, g, h, i) (text_eq_sound (codes "FATAL") s i))
            | inr i ↦ inl (rw (e, f, g, h, i) refl)
          ]
        ]
      ]
    ]
  ],
)
  where
    back : (l : Level) → level_from_string (level_to_string l) ≡ l
    back unknow = refl
    back debug = refl
    back info = refl
    back warn = refl
    back error = refl
    back fatal = refl

abbrev Loggers : Type 0
Loggers = List (List ℕ × Logger)

find-append :
    (name : List ℕ) (ls more : Loggers) (i : ℕ)
    → find_logger name ls ≡ some i
    → find_logger name (ls ++ more) ≡ some i
unfolding find_logger
find-append name [] more i e = absurd (ground arith)
find-append name ((n, l) ∷ ls) more i e = elim (Option-cases (find_logger name ls)) [
  | inl q ↦ ground (arith, q, e)
  | inr (j, q) ↦ ground (arith, q, e, find-append name ls more j q)
]

find-new :
    (name : List ℕ) (ls : Loggers) (l : Logger)
    → find_logger name ls ≡ none
    → find_logger name (ls ++ (name, l) ∷ []) ≡ some (length ls)
unfolding find_logger
find-new name [] l e = rw (text_eq_self name) refl
find-new name ((n, k) ∷ ls) l e = elim (Option-cases (find_logger name ls)) [
  | inl q ↦ ground (arith, q, e, find-new name ls l q)
  | inr (j, q) ↦ absurd (ground (arith, q, e))
]

heads : (n name other : List ℕ) → text_eq n name ≡ true → text_eq n other ≡ true → name ≡ other
heads n name other p q = sym (text_eq_sound n name p) ∙ text_eq_sound n other q

-- A pointer belongs to one name.
find_unique :
    (name other : List ℕ) (ls : Loggers) (i : ℕ)
    → find_logger name ls ≡ some i
    → find_logger other ls ≡ some i
    → name ≡ other
unfolding find_logger
find_unique name other [] i e f = absurd (ground arith)
find_unique name other ((n, l) ∷ ls) i e f = elim (Option-cases (find_logger name ls)) [
  | inl p ↦ elim (Option-cases (find_logger other ls)) [
    | inl q ↦ heads n name other (ground (arith, p, e)) (ground (arith, q, f))
    | inr (j, q) ↦ heads n name other (ground (arith, p, e)) (ground (arith, p, q, e, f))
  ]
  | inr (k, p) ↦ elim (Option-cases (find_logger other ls)) [
    | inl q ↦ heads n name other (ground (arith, p, q, e, f)) (ground (arith, q, f))
    | inr (j, q) ↦ elim (Bool-cases (text_eq n name)) [
      | inl t ↦ heads n name other t (ground (arith, t, p, q, e, f))
      | inr t ↦ find_unique name other ls k p (q ∙ ap some (ground (arith, t, p, q, e, f)))
    ]
  ]
]

-- Calls of getLogger.
pub get_all : List (List ℕ) → LoggerManager → LoggerManager
get_all [] m = m
get_all (n ∷ ns) m = get_all ns (get_logger n m).1

get_kept :
    (name other : List ℕ) (m : LoggerManager) (i : ℕ)
    → find_logger name m.loggers ≡ some i
    → find_logger name (get_logger other m).1.loggers ≡ some i
unfolding get_logger
get_kept name other m i e = elim (Option-cases (find_logger other m.loggers)) [
  | inl q ↦ rw (q, get_logger) (find-append name m.loggers _ i e)
  | inr (j, q) ↦ rw (q, get_logger) e
]

get_all_kept :
    (name : List ℕ) (others : List (List ℕ)) (m : LoggerManager) (i : ℕ)
    → find_logger name m.loggers ≡ some i
    → find_logger name (get_all others m).loggers ≡ some i
unfolding get_all
get_all_kept name [] m i e = e
get_all_kept name (n ∷ ns) m i e = get_all_kept name ns (get_logger n m).1 i (get_kept name n m i e)

-- After getLogger its logger is found.
get_found :
    (name : List ℕ) (m : LoggerManager)
    → find_logger name (get_logger name m).1.loggers ≡ some (get_logger name m).0
unfolding get_logger
get_found name m = elim (Option-cases (find_logger name m.loggers)) [
  | inl q ↦ rw (q, get_logger) (find-new name m.loggers _ q)
  | inr (j, q) ↦ rw (q, get_logger) q
]

get_again :
    (name : List ℕ) (m : LoggerManager) (i : ℕ)
    → find_logger name m.loggers ≡ some i
    → (get_logger name m).0 ≡ i
unfolding get_logger
get_again name m i e = rw (e, get_logger) refl

-- getLogger gives the pointer that it has given for a name exactly for the same name, whatever
-- loggers are asked for in between.
pub get_logger_stable :
    (m : LoggerManager) (name other : List ℕ) (others : List (List ℕ))
    → let got = get_logger name m in
      let later = get_all others got.1 in ((get_logger other later).0 ≡ got.0) ↔ (name ≡ other)
get_logger_stable m name other others =
    let got = get_logger name m in
    let later = get_all others got.1 in
    let found = get_all_kept name others got.1 got.0 (get_found name m) in
    (
      λ same.
          find_unique name other (get_logger other later).1.loggers got.0
            (get_kept name other later got.0 found) (get_found other later ∙ ap some same),
      λ e. subst (λ n. (get_logger n later).0 ≡ got.0) e (get_again name later got.0 found),
    )
