-- ===== src/Address/Lookup/Split.antt =====
-- What the lookups of libcocao/address.cc ask for and give.
use libcocao.Base.{
  ℕ, ◌≡◌, refl, ap, ◌∙◌, inl, inr, Bool, true, false, not, Option, none, some, List, [], ◌∷◌, ◌++◌,
  map, ◌==◌, ◌≢◌, if◌then◌else◌, is_empty, All, is_some, Option-cases, Bool-cases, arith,
}
use libcocao.Address.Lookup.{Address, create, Hints, Resolver, find_colon, split_host, lookup}

find_colon-none : (s : List ℕ) → All (λ c. c ≢ b':') s → find_colon s ≡ none
unfolding find_colon
find_colon-none [] h = refl
find_colon-none (c ∷ s) h = ground (arith, find_colon-none s h.1)

find_colon-some :
    (node service : List ℕ)
    → All (λ c. c ≢ b':') node
    → find_colon (node ++ b':' ∷ service) ≡ some (node, service)
unfolding find_colon
find_colon-some [] service h = refl
find_colon-some (c ∷ node) service h = ground (arith, find_colon-some node service h.1)

-- Whether a text has a colon.
pub has_colon : List ℕ → Bool
has_colon [] = false
has_colon (c ∷ s) = if c == b':' then true else has_colon s

-- The vector with the addresses of an answer, and whether there was one.
pub with_answer : List Address → Option (List ℕ × List (List ℕ)) → List Address × Bool
with_answer result none = (result, false)
with_answer result (some (first, rest)) = (result ++ map create (first ∷ rest), true)

find_colon-has : (s : List ℕ) → has_colon s ≡ is_some (find_colon s)
unfolding has_colon find_colon
find_colon-has [] = refl
find_colon-has (c ∷ s) = elim (Option-cases (find_colon s)) [
  | inl e ↦ ground (arith, e, find_colon-has s)
  | inr (r, e) ↦ ground (arith, e, find_colon-has s)
]

append-not_empty :
    (result rest : List Address) (a : Address) → not (is_empty (result ++ a ∷ rest)) ≡ true
append-not_empty [] rest a = refl
append-not_empty (b ∷ result) rest a = refl

lookup_answer :
    (getaddrinfo : Resolver) (result : List Address) (host : List ℕ) (family socktype protocol : ℕ)
    → lookup getaddrinfo result host family socktype protocol
      ≡ with_answer result (
          getaddrinfo (split_host host).0 (split_host host).1 (record {
            ai_flags = 0;
            ai_family = family;
            ai_socktype = socktype;
            ai_protocol = protocol;
          }))
unfolding lookup with_answer
lookup_answer getaddrinfo result host family socktype protocol =
    let hints : Hints = record {
      ai_flags = 0;
      ai_family = family;
      ai_socktype = socktype;
      ai_protocol = protocol;
    } in
    elim (Option-cases (getaddrinfo (split_host host).0 (split_host host).1 hints)) [
      | inl e ↦ rw (e, lookup, with_answer) refl
      | inr ((first, rest), e) ↦
          rw (e, lookup, with_answer)
            (ap (λ found. (result ++ map create (first ∷ rest), found))
              (append-not_empty result (map create rest) (create first)))
    ]

split-none : (host : List ℕ) → All (λ c. c ≢ b':') host → split_host host ≡ (host, none)
unfolding split_host
split-none host h = rw (find_colon-none host h, split_host) refl

split-one :
    (node service : List ℕ)
    → All (λ c. c ≢ b':') node
    → has_colon service ≡ false
    → split_host (node ++ b':' ∷ service)
      ≡ (if is_empty node then b':' ∷ service else node, some service)
unfolding split_host find_colon
split-one [] service h e =
    let last : find_colon service ≡ none =
      ground (arith, find_colon-has service, Option-cases (find_colon service)) in
    rw (last, split_host) refl
split-one (c ∷ node) service h e =
    let last : find_colon service ≡ none =
      ground (arith, find_colon-has service, Option-cases (find_colon service)) in
    rw (find_colon-some (c ∷ node) service h, last, split_host) refl

split-two :
    (node service : List ℕ)
    → All (λ c. c ≢ b':') node
    → has_colon service ≡ true
    → split_host (node ++ b':' ∷ service) ≡ (node ++ b':' ∷ service, some (b':' ∷ service))
unfolding split_host
split-two node service h e = elim (Option-cases (find_colon service)) [
  | inl none_left ↦ absurd (ground (arith, find_colon-has service, none_left))
  | inr (again, found) ↦ rw (find_colon-some node service h, found, split_host) refl
]

-- A host without a colon is asked for with no service. Of a host with one colon, what stands before it
-- is asked for with what stands behind it as service, but the whole host if nothing stands before it.
-- A host with two colons or more is asked for whole, with all from the first colon on as service. Each
-- address of the answer is appended, and the result is false just if there is no answer.
pub lookup_lem :
    (getaddrinfo : Resolver) (result : List Address) (node service : List ℕ)
    (family socktype protocol : ℕ)
    → All (λ c. c ≢ b':') node
    → let hints : Hints = record {
      ai_flags = 0;
      ai_family = family;
      ai_socktype = socktype;
      ai_protocol = protocol;
    } in
      (lookup getaddrinfo result node family socktype protocol
        ≡ with_answer result (getaddrinfo node none hints))
      × (lookup getaddrinfo result (node ++ b':' ∷ service) family socktype protocol
          ≡ with_answer result (
              if has_colon service
              then getaddrinfo (node ++ b':' ∷ service) (some (b':' ∷ service)) hints
              else getaddrinfo
                  (if is_empty node then b':' ∷ service else node)
                  (some service)
                  hints))
lookup_lem getaddrinfo result node service family socktype protocol h =
    let hints : Hints = record {
      ai_flags = 0;
      ai_family = family;
      ai_socktype = socktype;
      ai_protocol = protocol;
    } in
    let whole = node ++ b':' ∷ service in
    (
      lookup_answer getaddrinfo result node family socktype protocol
          ∙ ap (λ (s : List ℕ × Option (List ℕ)). with_answer result (getaddrinfo s.0 s.1 hints))
              (split-none node h),
      lookup_answer getaddrinfo result whole family socktype protocol
          ∙ elim (Bool-cases (has_colon service)) [
            | inl e ↦ rw e (
                ap
                  (λ (s : List ℕ × Option (List ℕ)). with_answer result (getaddrinfo s.0 s.1 hints))
                  (split-two node service h e))
            | inr e ↦ rw e (
                ap
                  (λ (s : List ℕ × Option (List ℕ)). with_answer result (getaddrinfo s.0 s.1 hints))
                  (split-one node service h e))
          ],
    )
