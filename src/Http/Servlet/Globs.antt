-- ===== src/Http/Servlet/Globs.antt =====
-- The creators of ServletDispatch, libcocao/http/servlet.cc, as maps: what adding and deleting a uri does to the
-- others, and the order of m_globs.
use libcocao.Base.{
  ℕ, ◌≡◌, refl, sym, ap, subst, ◌∙◌, inl, inr, true, false, Option, none, some, List, [], ◌∷◌, ◌++◌,
  if◌then◌else◌, Bool-cases, arith,
}
use libcocao.Log.{text_eq}
use libcocao.Log.Pattern.{text_eq_sound, text_eq_self}
use libcocao.Http.Servlet.{Creator, Creators, creator_of, set_creator, erase_creator}

-- Texts of which one is the same as a third and the other is not differ.
differs : (w u v : List ℕ) → text_eq w u ≡ false → text_eq w v ≡ true → text_eq u v ≡ false
differs w u v e f = elim (Bool-cases (text_eq u v)) [
  | inl g ↦
      let clash : true ≡ false = sym f ∙ sym (ap (λ t. text_eq w t) (text_eq_sound u v g)) ∙ e in
      absurd (ground (arith, clash))
  | inr g ↦ g
]

differs_back : (w u : List ℕ) → text_eq w u ≡ false → text_eq u w ≡ false
differs_back w u e = differs w u w e (text_eq_self w)

module _ {S : Type 0} where
  -- No uri stands twice.
  unfoldable pub Unique : Creators S → Type 0
  Unique [] = Unit
  Unique ((u, c) ∷ cs) = (creator_of u cs ≡ none) × Unique cs

  pub creator_of-set :
      (v u : List ℕ) (c : Creator S) (cs : Creators S)
      → creator_of v (set_creator u c cs) ≡ (if text_eq u v then some c else creator_of v cs)
  unfolding creator_of set_creator
  creator_of-set v u c [] = refl
  creator_of-set v u c ((w, d) ∷ cs) = elim (Bool-cases (text_eq w u)) [
    | inl e ↦
        let same = ap (λ t. text_eq t v) (text_eq_sound w u e) in
        rw (e, set_creator, creator_of, same)
          (elim (Bool-cases (text_eq u v)) [ inl f ↦ rw f refl | inr f ↦ rw f refl ])
    | inr e ↦ elim (Bool-cases (text_eq w v)) [
      | inl f ↦ rw (e, set_creator, creator_of, f, differs w u v e f) refl
      | inr f ↦ rw (e, set_creator, creator_of, f) (creator_of-set v u c cs)
    ]
  ]

  pub creator_of-erase :
      (v u : List ℕ) (cs : Creators S)
      → Unique cs
      → creator_of v (erase_creator u cs) ≡ (if text_eq u v then none else creator_of v cs)
  unfolding creator_of erase_creator Unique
  creator_of-erase v u [] h = elim (Bool-cases (text_eq u v)) [
    | inl e ↦ rw e refl
    | inr e ↦ rw e refl
  ]
  creator_of-erase v u ((w, d) ∷ cs) (n, h) = elim (Bool-cases (text_eq w u)) [
    | inl e ↦
        let same = ap (λ t. text_eq t v) (text_eq_sound w u e) in
        rw (e, erase_creator, same)
          (elim (Bool-cases (text_eq u v)) [
            | inl f ↦ rw f (ap (λ t. creator_of t cs) (sym (text_eq_sound w v (same ∙ f))) ∙ n)
            | inr f ↦ rw f refl
          ])
    | inr e ↦ elim (Bool-cases (text_eq w v)) [
      | inl f ↦ rw (e, erase_creator, creator_of, f, differs w u v e f) refl
      | inr f ↦ rw (e, erase_creator, creator_of, f) (creator_of-erase v u cs h)
    ]
  ]

  pub Unique-set :
      (u : List ℕ) (c : Creator S) (cs : Creators S) → Unique cs → Unique (set_creator u c cs)
  unfolding set_creator Unique creator_of
  Unique-set u c [] h = (refl, tt)
  Unique-set u c ((w, d) ∷ cs) (n, h) = elim (Bool-cases (text_eq w u)) [
    | inl e ↦ rw (e, set_creator) (n, h)
    | inr e ↦
        rw (e, set_creator)
          (creator_of-set w u c cs ∙ rw (differs_back w u e) n, Unique-set u c cs h)
  ]

  pub Unique-erase : (u : List ℕ) (cs : Creators S) → Unique cs → Unique (erase_creator u cs)
  unfolding erase_creator Unique
  Unique-erase u [] h = tt
  Unique-erase u ((w, d) ∷ cs) (n, h) = elim (Bool-cases (text_eq w u)) [
    | inl e ↦ rw (e, erase_creator) h
    | inr e ↦
        rw (e, erase_creator)
          (creator_of-erase w u cs h ∙ rw (differs_back w u e) n, Unique-erase u cs h)
  ]

  -- A new uri behind the others.
  pub creator_of-append :
      (v u : List ℕ) (c : Creator S) (cs : Creators S)
      → creator_of v (cs ++ (u, c) ∷ []) ≡ elim (creator_of v cs) as (λ _. Option (Creator S)) [
        | some d ↦ some d
        | none ↦ if text_eq u v then some c else none
      ]
  unfolding creator_of
  creator_of-append v u c [] = refl
  creator_of-append v u c ((w, d) ∷ cs) = elim (Bool-cases (text_eq w v)) [
    | inl e ↦ rw (e, creator_of) refl
    | inr e ↦ rw (e, creator_of) (creator_of-append v u c cs)
  ]

  pub Unique-append :
      (u : List ℕ) (c : Creator S) (cs : Creators S)
      → creator_of u cs ≡ none
      → Unique cs
      → Unique (cs ++ (u, c) ∷ [])
  unfolding Unique creator_of
  Unique-append u c [] n h = (refl, tt)
  Unique-append u c ((w, d) ∷ cs) n (m, h) = elim (Bool-cases (text_eq w u)) [
    | inl e ↦
        absurd (ground (arith, subst (λ b. (if b then some d else creator_of u cs) ≡ none) e n))
    | inr e ↦
        let absent : creator_of u cs ≡ none =
          subst (λ b. (if b then some d else creator_of u cs) ≡ none) e n in
        (
          creator_of-append w u c cs ∙ rw (m, differs_back w u e) refl,
          Unique-append u c cs absent h,
        )
  ]
