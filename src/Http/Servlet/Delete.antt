-- ===== src/Http/Servlet/Delete.antt =====
-- delGlobServlet and the loop of getMatchedServlet, libcocao/http/servlet.cc.
use libcocao.Base.{
  ◌≡◌, ℕ, refl, sym, ap, subst, ◌∙◌, ◌⊎◌, inl, inr, Bool, true, false, Option, none, some, List, [],
  ◌∷◌, ◌++◌, if◌then◌else◌, All, Bool-cases, arith,
}
use libcocao.Log.{text_eq}
use libcocao.Log.Pattern.{text_eq_sound}
use libcocao.Http.Servlet.{Creator, Creators, creator_of, erase_creator, del_globs, matching}
use libcocao.Http.Servlet.Globs.{Unique}

module _ {S : Type 0} where
  -- Whether the last creator has a uri.
  pub ends_with : List ℕ → Creators S → Bool
  ends_with u [] = false
  ends_with u ((w, c) ∷ []) = text_eq w u
  ends_with u ((w, c) ∷ (p ∷ cs)) = ends_with u (p ∷ cs)

  -- What a uri that is not in front leaves.
  absent_rest :
      (u w : List ℕ) (c : Creator S) (cs : Creators S)
      → creator_of u ((w, c) ∷ cs) ≡ none
      → (text_eq w u ≡ false) × (creator_of u cs ≡ none)
  unfolding creator_of
  absent_rest u w c cs h = elim (Bool-cases (text_eq w u)) [
    | inl e ↦
        absurd (ground (arith, subst (λ b. (if b then some c else creator_of u cs) ≡ none) e h))
    | inr e ↦ (e, subst (λ b. (if b then some c else creator_of u cs) ≡ none) e h)
  ]

  absent_end : (u : List ℕ) (cs : Creators S) → creator_of u cs ≡ none → ends_with u cs ≡ false
  unfolding ends_with
  absent_end u [] h = refl
  absent_end u ((w, c) ∷ []) h = (absent_rest u w c [] h).0
  absent_end u ((w, c) ∷ (p ∷ cs)) h = absent_end u (p ∷ cs) (absent_rest u w c (p ∷ cs) h).1

  del_globs-absent :
      (u : List ℕ) (cs : Creators S) → creator_of u cs ≡ none → del_globs u cs ≡ some cs
  unfolding del_globs
  del_globs-absent u [] h = refl
  del_globs-absent u ((w, c) ∷ []) h = rw (absent_rest u w c [] h).0 refl
  del_globs-absent u ((w, c) ∷ (p ∷ cs)) h =
      let (e, rest) = absent_rest u w c (p ∷ cs) h in
      rw (e, del_globs-absent u (p ∷ cs) rest, del_globs) refl

  -- The deletion of a uri from creators without a uri twice.
  pub del_globs-Unique :
      (u : List ℕ) (cs : Creators S)
      → Unique cs
      → del_globs u cs ≡ (if ends_with u cs then none else some (erase_creator u cs))
  unfolding del_globs ends_with erase_creator Unique
  del_globs-Unique u [] h = refl
  del_globs-Unique u ((w, c) ∷ []) h = elim (Bool-cases (text_eq w u)) [
    | inl e ↦ rw e refl
    | inr e ↦ rw e refl
  ]
  del_globs-Unique u ((w, c) ∷ ((w2, c2) ∷ cs)) (n, h) = elim (Bool-cases (text_eq w u)) [
    | inl e ↦
        let absent = ap (λ t. creator_of t ((w2, c2) ∷ cs)) (sym (text_eq_sound w u e)) ∙ n in
        let (f, rest) = absent_rest u w2 c2 cs absent in
        rw (e, del_globs-absent u cs rest, absent_end u ((w2, c2) ∷ cs) absent, del_globs) refl
    | inr e ↦ elim (Bool-cases (ends_with u ((w2, c2) ∷ cs))) [
      | inl f ↦ rw (e, del_globs-Unique u ((w2, c2) ∷ cs) h, f, del_globs) refl
      | inr f ↦ rw (e, del_globs-Unique u ((w2, c2) ∷ cs) h, f, del_globs) refl
    ]
  ]

  module _ (fnmatch : List ℕ → List ℕ → Bool) where
    pub matching-append :
        (uri : List ℕ) (a b : Creators S)
        → matching fnmatch uri (a ++ b)
          ≡ elim (matching fnmatch uri a) as (λ _. Option (Creator S)) [
            | some c ↦ some c
            | none ↦ matching fnmatch uri b
          ]
    unfolding matching
    matching-append uri [] b = refl
    matching-append uri ((p, c) ∷ a) b = elim (Bool-cases (fnmatch p uri)) [
      | inl e ↦ rw (e, matching) refl
      | inr e ↦ rw (e, matching) (matching-append uri a b)
    ]

    -- The first creator whose pattern matches.
    pub FirstMatch : List ℕ → Creators S → Creator S → Type 0
    FirstMatch uri cs c =
        (pre : Creators S) × (p : List ℕ) × (post : Creators S) × (cs ≡ pre ++ (p, c) ∷ post)
        × All (λ q. fnmatch q.0 uri ≡ false) pre
        × (fnmatch p uri ≡ true)

    pub matching-cases :
        (uri : List ℕ) (cs : Creators S)
        → ((matching fnmatch uri cs ≡ none) × All (λ q. fnmatch q.0 uri ≡ false) cs)
          ⊎ ((c : Creator S) × (matching fnmatch uri cs ≡ some c) × FirstMatch uri cs c)
    unfolding matching FirstMatch
    matching-cases uri [] = inl (refl, tt)
    matching-cases uri ((p, c) ∷ cs) = elim (Bool-cases (fnmatch p uri)) [
      | inl e ↦ inr (c, rw (e, matching) refl, ([], p, cs, refl, tt, e))
      | inr e ↦ elim (matching-cases uri cs) [
        | inl (f, h) ↦ inl (rw (e, matching) f, (e, h))
        | inr (d, f, (pre, q, post, g, h, m)) ↦
            inr (d, rw (e, matching) f, ((p, c) ∷ pre, q, post, ap (λ t. (p, c) ∷ t) g, (e, h), m))
      ]
    ]
