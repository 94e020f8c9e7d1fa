-- ===== src/Http/Request/Params.antt =====
-- What PARSE_PARAM of libcocao/http/http.cc takes from a text, and what getParam gives.
use libcocao.Base.{
  ℕ, zero, suc, ◌+◌, ◌≤◌, ◌<◌, ◌≡◌, ◌≢◌, refl, ap, ◌∙◌, inl, inr, true, false, Option, none, some,
  List, [], ◌∷◌, ◌++◌, if◌then◌else◌, Bool-cases, Option-cases, All, length, length-append, arith,
}
use libcocao.Log.{codes}
use libcocao.Http.{cut, same_key, Headers, find, insert, get_or}
use libcocao.Http.Cuts.{cut-append, cut-none, length-cut}
use libcocao.Http.Maps.{Sorted, find-same, maps_lem}
use libcocao.Http.Request.{
  HttpRequest, parse_param, insert_all, parse_into, init_query_param, init_body_param, get_param,
  get_header, strcasestr, form_type,
}

-- Pairs as a query has them.
unfoldable pub query_of : ℕ → Headers → List ℕ
query_of flag [] = []
query_of flag ((k, v) ∷ []) = k ++ b'=' ∷ v
query_of flag ((k, v) ∷ (p ∷ ps)) = k ++ b'=' ∷ (v ++ flag ∷ query_of flag (p ∷ ps))

-- A key without `=`, and a value without the flag.
abbrev pub Fits : ℕ → List ℕ × List ℕ → Type 0
Fits flag p = All (λ c. c ≢ b'=') p.0 × All (λ c. c ≢ flag) p.1

-- The first value with a key that is the same without case.
pub first_value : List ℕ → Headers → Option (List ℕ)
first_value j [] = none
first_value j ((k, v) ∷ ps) = let rest = first_value j ps in if same_key k j then some v else rest

length-query_of : (flag : ℕ) (pairs : Headers) → length pairs ≤ length (query_of flag pairs)
unfolding query_of
length-query_of flag [] = omega arith
length-query_of flag ((k, v) ∷ []) = omega (arith, length-append k (b'=' ∷ v))
length-query_of flag ((k, v) ∷ (p ∷ ps)) = omega (
  arith,
  length-append k (b'=' ∷ (v ++ flag ∷ query_of flag (p ∷ ps))),
  length-append v (flag ∷ query_of flag (p ∷ ps)),
  length-query_of flag (p ∷ ps),
)

module _ (url_decode : List ℕ → List ℕ) where
  pub decoded : (List ℕ → List ℕ) → Headers → Headers
  decoded trim [] = []
  decoded trim ((k, v) ∷ ps) = (url_decode (trim k), url_decode v) ∷ decoded trim ps

  parse_param-query_of :
      (trim : List ℕ → List ℕ) (flag fuel : ℕ) (pairs : Headers)
      → All (Fits flag) pairs
      → length pairs < fuel
      → parse_param url_decode trim flag fuel (query_of flag pairs) ≡ some (decoded trim pairs)
  unfolding parse_param query_of decoded cut
  parse_param-query_of trim flag zero pairs h l = absurd (omega arith)
  parse_param-query_of trim flag (suc fuel) [] h l = refl
  parse_param-query_of trim flag (suc fuel) ((k, v) ∷ []) ((hk, hv), h) l =
      rw (cut-append b'=' k v hk, cut-none flag v hv, parse_param) refl
  parse_param-query_of trim flag (suc fuel) ((k, v) ∷ (p ∷ ps)) ((hk, hv), h) l =
      let rest = query_of flag (p ∷ ps) in
      rw
        (
          cut-append b'=' k (v ++ flag ∷ rest) hk,
          cut-append flag v rest hv,
          parse_param-query_of trim flag fuel (p ∷ ps) h (omega arith),
          parse_param,
        )
        refl

  -- PARSE_PARAM ends: with more fuel than the text is long it gives pairs.
  pub parse_param_total :
      (trim : List ℕ → List ℕ) (flag fuel : ℕ) (s : List ℕ)
      → length s < fuel
      → (pairs : Headers) × (parse_param url_decode trim flag fuel s ≡ some pairs)
  unfolding parse_param
  parse_param_total trim flag zero s l = absurd (omega arith)
  parse_param_total trim flag (suc fuel) s l = elim (Option-cases (cut b'=' s)) [
    | inl e ↦ ([], rw (e, parse_param) refl)
    | inr ((key, after), e) ↦ elim (Option-cases (cut flag after)) [
      | inl f ↦ ((url_decode (trim key), url_decode after) ∷ [], rw (e, f, parse_param) refl)
      | inr ((value, rest), f) ↦
          let (more, g) =
            parse_param_total trim flag fuel rest
              (omega (arith, length-cut b'=' s key after e, length-cut flag after value rest f)) in
          ((url_decode (trim key), url_decode value) ∷ more, rw (e, f, g, parse_param) refl)
    ]
  ]

-- Insertion keeps what is there, and else the first pair of a key stays.
insert_all-find :
    (j : List ℕ) (ps m : Headers)
    → Sorted m
    → Sorted (insert_all ps m)
      × (find j (insert_all ps m)
          ≡ elim (find j m) as (λ _. Option (List ℕ)) [ none ↦ first_value j ps | some w ↦ some w ])
unfolding insert_all first_value
insert_all-find j [] m h =
    (h, elim (Option-cases (find j m)) [ inl e ↦ rw e refl | inr (w, e) ↦ rw e refl ])
insert_all-find j ((k, v) ∷ ps) m h =
    let (p, kept, q, r, got, t) = maps_lem j k v m h in
    let (whole, later) = insert_all-find j ps (insert k v m) kept in
    (
      whole,
      later
          ∙ rw got (elim (Bool-cases (same_key k j)) [
            | inl e ↦
                rw (e, find-same j k m e)
                  (elim (Option-cases (find j m)) [
                    | inl f ↦ rw (f, e, first_value) refl
                    | inr (w, f) ↦ rw f refl
                  ])
            | inr e ↦ rw e (elim (Option-cases (find j m)) [
              | inl f ↦ rw (f, e, first_value) refl
              | inr (w, f) ↦ rw f refl
            ])
          ]),
    )

parse_into-query_of :
    (url_decode trim : List ℕ → List ℕ) (flag : ℕ) (pairs m : Headers)
    → All (Fits flag) pairs
    → parse_into url_decode trim flag (query_of flag pairs) m
      ≡ insert_all (decoded url_decode trim pairs) m
unfolding parse_into
parse_into-query_of url_decode trim flag pairs m h =
    rw
      (
        parse_param-query_of url_decode trim flag (length (query_of flag pairs) + 1) pairs h
            (omega (arith, length-query_of flag pairs)),
        parse_into,
      )
      refl

query_step :
    (url_decode : List ℕ → List ℕ) (pairs : Headers) (r : HttpRequest)
    → All (Fits b'&') pairs
    → r.query ≡ query_of b'&' pairs
    → r.params ≡ []
    → r.query_parsed ≡ false
    → init_query_param url_decode r
      ≡ record r { params = insert_all (decoded url_decode (λ s. s) pairs) []; query_parsed = true }
unfolding init_query_param
query_step url_decode pairs r h q p f =
    rw (f, init_query_param)
      ((λ i. record r {
        params = parse_into url_decode (λ s. s) b'&' (q i) (p i);
        query_parsed = true;
      })
        ∙ ap (λ (m : Headers). record r { params = m; query_parsed = true })
            (parse_into-query_of url_decode (λ s. s) b'&' pairs [] h))

body_step :
    (url_decode : List ℕ → List ℕ) (r : HttpRequest)
    → r.body_parsed ≡ false
    → strcasestr (get_header (codes "content-type") [] r) form_type ≡ false
    → init_body_param url_decode r ≡ record r { body_parsed = true }
unfolding init_body_param
body_step url_decode r f t = rw (f, t, init_body_param) refl

first_found :
    (key def : List ℕ) (pairs : Headers)
    → get_or key def (insert_all pairs [])
      ≡ elim (first_value key pairs) as (λ _. List ℕ) [ none ↦ def | some v ↦ v ]
unfolding get_or
first_found key def pairs =
    let found : find key (insert_all pairs []) ≡ first_value key pairs =
      (insert_all-find key pairs [] tt).1 in
    ap (λ o. elim o as (λ _. List ℕ) [ none ↦ def | some v ↦ v ]) found

-- In a request whose query has pairs, keys without `=` and values without `&`, and that has not been
-- looked at and is not a form, getParam gives the decoded value of the first pair whose decoded key is
-- the one asked for, in any case, and else the default. A second look parses nothing again.
pub get_param_lem :
    (url_decode : List ℕ → List ℕ) (key def key2 def2 : List ℕ) (pairs : Headers) (r : HttpRequest)
    → All (Fits b'&') pairs
    → r.query ≡ query_of b'&' pairs
    → r.params ≡ []
    → r.query_parsed ≡ false
    → r.body_parsed ≡ false
    → strcasestr (get_header (codes "content-type") [] r) form_type ≡ false
    → let (got, after) = get_param url_decode key def r in
      (got ≡ elim (first_value key (decoded url_decode (λ s. s) pairs)) as (λ _. List ℕ) [
        | none ↦ def
        | some v ↦ v
      ])
      × ((get_param url_decode key2 def2 after).1 ≡ after)
unfolding get_param init_query_param init_body_param get_header get_or
get_param_lem url_decode key def key2 def2 pairs r h q p f g t =
    let parsed : HttpRequest = record r {
      params = insert_all (decoded url_decode (λ s. s) pairs) [];
      query_parsed = true;
    } in
    let both : init_body_param url_decode (init_query_param url_decode r)
        ≡ record parsed { body_parsed = true } =
      ap (init_body_param url_decode) (query_step url_decode pairs r h q p f)
      ∙ body_step url_decode parsed g t in
    rw both (first_found key def (decoded url_decode (λ s. s) pairs), refl)

misspelt : strcasestr (codes "application/x-www-form-urlencoded") form_type ≡ false
unfolding strcasestr
misspelt = refl

-- The parameters of a form are never taken from the body: in a request with the type of a form,
-- initBodyParam only notes that it has looked.
pub form_body_ignored :
    (url_decode : List ℕ → List ℕ) (r : HttpRequest)
    → r.body_parsed ≡ false
    → get_header (codes "content-type") [] r ≡ codes "application/x-www-form-urlencoded"
    → init_body_param url_decode r ≡ record r { body_parsed = true }
form_body_ignored url_decode r f e =
    body_step url_decode r f (ap (λ s. strcasestr s form_type) e ∙ misspelt)
