-- ===== src/Http/Servlet/Dispatch.antt =====
-- What ServletDispatch, libcocao/http/servlet.cc, gives for a uri, and what its operations change.
use libcocao.Base.{
  ◌≡◌, ℕ, refl, sym, ap, ◌∙◌, ◌⊎◌, inl, inr, true, false, Option, none, some, List, [], ◌∷◌, ◌++◌,
  if◌then◌else◌, ◌>>=◌, Bool-cases, Option-cases,
}
use libcocao.Log.{text_eq}
use libcocao.Log.Pattern.{text_eq_self, text_eq_sound}
use libcocao.Http.Servlet.{
  Servlet, Creator, Creators, ServletDispatch, get, creator_of, set_creator, erase_creator, set_all,
  dispatch_new, add_servlet_creator, add_glob_servlet_creator, del_servlet, del_glob_servlet,
  set_default, get_servlet, get_glob_servlet, list_all_servlet_creator,
  list_all_glob_servlet_creator,
}
use libcocao.Http.Servlet.Globs.{
  Unique, creator_of-set, creator_of-erase, Unique-set, Unique-erase, Unique-append,
}
use libcocao.Http.Servlet.Delete.{ends_with, del_globs-Unique}

-- What is done to a dispatch.
pub data Change (S : Type 0) : Type 0 where
  add_exact : List ℕ → Creator S → Change S
  add_glob : List ℕ → Creator S → Change S
  del_exact : List ℕ → Change S
  del_glob : List ℕ → Change S
  default_to : Option (Servlet S) → Change S

module _ {S : Type 0} where
  -- No uri stands twice in m_datas or in m_globs.
  unfoldable pub IsWf : ServletDispatch S → Type 0
  IsWf d = Unique d.datas × Unique d.globs

  erased_is_gone :
      (u : List ℕ) (cs : Creators S) → Unique cs → creator_of u (erase_creator u cs) ≡ none
  erased_is_gone u cs h = creator_of-erase u u cs h ∙ rw (text_eq_self u) refl

  add_glob-IsWf :
      (u : List ℕ) (c : Creator S) (d : ServletDispatch S)
      → IsWf d
      → IsWf (add_glob_servlet_creator u c d)
  unfolding IsWf add_glob_servlet_creator
  add_glob-IsWf u c d (h, g) = (
    h,
    Unique-append u c (erase_creator u d.globs) (erased_is_gone u d.globs g)
        (Unique-erase u d.globs g),
  )

  pub change : Change S → ServletDispatch S → Option (ServletDispatch S)
  change (add_exact u c) d = some (add_servlet_creator u c d)
  change (add_glob u c) d = some (add_glob_servlet_creator u c d)
  change (del_exact u) d = some (del_servlet u d)
  change (del_glob u) d = del_glob_servlet u d
  change (default_to v) d = some (set_default v d)

  pub changes : List (Change S) → ServletDispatch S → Option (ServletDispatch S)
  unfolding change
  changes [] d = some d
  changes (x ∷ xs) d = change x d >>= λ e. changes xs e

  -- In a dispatch where no uri stands twice, delGlobServlet runs off the end if the last pattern is the uri, and
  -- else takes out the uri and nothing else.
  pub del_glob_servlet_lem :
      (u v : List ℕ) (d : ServletDispatch S)
      → IsWf d
      → ((ends_with u d.globs ≡ true) × (del_glob_servlet u d ≡ none))
        ⊎ ((ends_with u d.globs ≡ false)
            × ((e : ServletDispatch S) × (del_glob_servlet u d ≡ some e)
                × IsWf e
                × (e.datas ≡ d.datas)
                × (get_glob_servlet v e ≡ (if text_eq u v then none else get_glob_servlet v d))))
  unfolding IsWf del_glob_servlet get_glob_servlet
  del_glob_servlet_lem u v d (h, g) = elim (Bool-cases (ends_with u d.globs)) [
    | inl e ↦ inl (e, rw (del_globs-Unique u d.globs g, e) refl)
    | inr e ↦ inr (
      e,
      (
        record d { globs = erase_creator u d.globs },
        rw (del_globs-Unique u d.globs g, e) refl,
        (h, Unique-erase u d.globs g),
        refl,
        rw (creator_of-erase v u d.globs g)
            (elim (Bool-cases (text_eq u v)) [ inl f ↦ rw f refl | inr f ↦ rw f refl ]),
      ),
    )
  ]

  -- A change that runs off the end of m_globs.
  RunsOff : Change S → ServletDispatch S → Type 0
  RunsOff x d = (u : List ℕ) × (x ≡ del_glob u) × (ends_with u d.globs ≡ true)

  change-IsWf :
      (x : Change S) (d : ServletDispatch S)
      → IsWf d
      → ((change x d ≡ none) × RunsOff x d)
        ⊎ ((e : ServletDispatch S) × (change x d ≡ some e) × IsWf e)
  unfolding change IsWf add_servlet_creator del_servlet set_default RunsOff
  change-IsWf (add_exact u c) d (h, g) = inr (_, refl, (Unique-set u c d.datas h, g))
  change-IsWf (add_glob u c) d w = inr (_, refl, add_glob-IsWf u c d w)
  change-IsWf (del_exact u) d (h, g) = inr (_, refl, (Unique-erase u d.datas h, g))
  change-IsWf (del_glob u) d w = elim (del_glob_servlet_lem u [] d w) [
    | inl (e, f) ↦ inl (f, (u, refl, e))
    | inr (e, (d2, f, w2, p, q)) ↦ inr (d2, f, w2)
  ]
  change-IsWf (default_to v) d w = inr (_, refl, w)

  -- A history that has run off the end: a delGlobServlet in it finds its uri at the end.
  pub HasRunOff : List (Change S) → ServletDispatch S → Type 0
  HasRunOff xs d =
      (before : List (Change S)) × (u : List ℕ) × (rest : List (Change S)) × (m : ServletDispatch S)
      × (xs ≡ before ++ del_glob u ∷ rest)
      × (changes before d ≡ some m)
      × (ends_with u m.globs ≡ true)

  -- A history ends well-formed, or has run off the end.
  abbrev pub SoundResult : List (Change S) → ServletDispatch S → Type 0
  SoundResult xs d =
      ((changes xs d ≡ none) × HasRunOff xs d)
      ⊎ ((e : ServletDispatch S) × (changes xs d ≡ some e) × IsWf e)

  changes-IsWf_from : (xs : List (Change S)) (d : ServletDispatch S) → IsWf d → SoundResult xs d
  unfolding changes HasRunOff RunsOff
  changes-IsWf_from [] d w = inr (d, refl, w)
  changes-IsWf_from (x ∷ xs) d w = elim (change-IsWf x d w) [
    | inl (f, (u, e, l)) ↦ inl (rw (f, changes) refl, ([], u, xs, d, ap (λ y. y ∷ xs) e, refl, l))
    | inr (m, f, w2) ↦ elim (changes-IsWf_from xs m w2) [
      | inl (g, (before, u, rest, n, e, c, l)) ↦
          inl
            (rw (f, changes) g, (x ∷ before, u, rest, n, ap (λ ys. x ∷ ys) e, rw (f, changes) c, l))
      | inr (e, g, w3) ↦ inr (e, rw (f, changes) g, w3)
    ]
  ]

  -- Whatever is added, deleted and set, from the constructor on, a dispatch has no uri twice, or a delGlobServlet
  -- has run off the end, whose uri was the last pattern then.
  pub changes-IsWf : (xs : List (Change S)) → SoundResult xs dispatch_new
  unfolding dispatch_new IsWf Unique
  changes-IsWf xs = changes-IsWf_from xs dispatch_new (tt, tt)

  -- addServletCreator and delServlet, in a dispatch where no uri stands twice: getServlet gives the new servlet
  -- for the uri, or none, and for every other uri what it gave before.
  pub exact_servlet_lem :
      (u v : List ℕ) (c : Creator S) (d : ServletDispatch S)
      → IsWf d
      → (get_servlet v (add_servlet_creator u c d)
          ≡ (if text_eq u v then get c else get_servlet v d))
        × (get_servlet v (del_servlet u d) ≡ (if text_eq u v then none else get_servlet v d))
  unfolding IsWf get_servlet add_servlet_creator del_servlet
  exact_servlet_lem u v c d (h, g) = (
    rw (creator_of-set v u c d.datas)
        (elim (Bool-cases (text_eq u v)) [ inl f ↦ rw f refl | inr f ↦ rw f refl ]),
    rw (creator_of-erase v u d.datas h)
        (elim (Bool-cases (text_eq u v)) [ inl f ↦ rw f refl | inr f ↦ rw f refl ]),
  )

  set_all-creator_of :
      (v : List ℕ) (cs infos : Creators S)
      → Unique cs
      → creator_of v (set_all cs infos) ≡ elim (creator_of v cs) as (λ _. Option (Creator S)) [
        | some c ↦ some c
        | none ↦ creator_of v infos
      ]
  unfolding set_all creator_of Unique
  set_all-creator_of v [] infos h = refl
  set_all-creator_of v ((u, c) ∷ cs) infos (n, h) =
      set_all-creator_of v cs (set_creator u c infos) h ∙ elim (Bool-cases (text_eq u v)) [
        | inl e ↦
            let absent = ap (λ t. creator_of t cs) (sym (text_eq_sound u v e)) ∙ n in
            rw (absent, creator_of-set v u c infos, e, creator_of) refl
        | inr e ↦ elim (Option-cases (creator_of v cs)) [
          | inl f ↦ rw (f, creator_of-set v u c infos, e, creator_of) refl
          | inr (k, f) ↦ rw (f, e, creator_of) refl
        ]
      ]

  -- In a dispatch where no uri stands twice, listAllGlobServletCreator lists the creators of m_datas, and
  -- listAllServletCreator those of m_globs, over what the map held before.
  pub lists_lem :
      (v : List ℕ) (d : ServletDispatch S) (infos : Creators S)
      → IsWf d
      → (creator_of v (list_all_glob_servlet_creator d infos)
          ≡ elim (creator_of v d.datas) as (λ _. Option (Creator S)) [
            | some c ↦ some c
            | none ↦ creator_of v infos
          ])
        × (creator_of v (list_all_servlet_creator d infos)
            ≡ elim (creator_of v d.globs) as (λ _. Option (Creator S)) [
              | some c ↦ some c
              | none ↦ creator_of v infos
            ])
  unfolding list_all_servlet_creator list_all_glob_servlet_creator IsWf
  lists_lem v d infos (h, g) =
      (set_all-creator_of v d.datas infos h, set_all-creator_of v d.globs infos g)
