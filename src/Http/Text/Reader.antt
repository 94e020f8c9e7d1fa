-- ===== src/Http/Text/Reader.antt =====
-- A reader of messages as the protocol has them, the reference for the texts of libcocao/http/http.cc: a start
-- line, fields `key: value`, an empty line and the body.
use libcocao.Base.{
  ℕ, zero, suc, ◌≡◌, ◌≢◌, ◌≤◌, ◌<◌, refl, sym, ap, ◌∙◌, Option, none, some, List, [], ◌∷◌, ◌++◌,
  ◌==◌, if◌then◌else◌, ◌>>=◌, All, length, length-append, arith,
}
use mathlib.Core.List.{append_assoc}
use libcocao.Http.{cut, Headers}
use libcocao.Http.Cuts.{cut-append, cut-none}

-- What is behind a character.
after_char : ℕ → List ℕ → Option (List ℕ)
after_char c [] = none
after_char c (x ∷ s) = if x == c then some s else none

-- The line up to CR LF, and what follows.
pub read_line : List ℕ → Option (List ℕ × List ℕ)
unfolding after_char
read_line s = cut 13 s >>= λ p. after_char 10 p.1 >>= λ rest. some (p.0, rest)

pub read_field : List ℕ → Option (List ℕ × List ℕ)
unfolding after_char
read_field l = cut b':' l >>= λ p. after_char b' ' p.1 >>= λ v. some (p.0, v)

-- The fields up to the empty line, and the body.
pub read_fields : ℕ → List ℕ → Option (Headers × List ℕ)
read_fields zero s = none
read_fields (suc fuel) s = elim (read_line s) [
  | none ↦ none
  | some ([], rest) ↦ some ([], rest)
  | some (c ∷ l, rest) ↦
      read_field (c ∷ l) >>= λ f. read_fields fuel rest >>= λ r. some (f ∷ r.0, r.1)
]

-- The start line, the fields and the body.
pub read_message : List ℕ → Option (List ℕ × Headers × List ℕ)
unfolding read_fields
read_message s = read_line s >>= λ p. read_fields (length s) p.1 >>= λ r. some (p.0, r.0, r.1)

-- Fields as lines.
unfoldable pub lines : Headers → List ℕ
lines [] = []
lines ((k, v) ∷ fields) = k ++ b':' ∷ b' ' ∷ (v ++ 13 ∷ 10 ∷ lines fields)

abbrev pub NoCr : List ℕ → Type 0
NoCr = All (λ c. c ≢ 13)

-- A field that fits in a line.
pub record IsField (f : List ℕ × List ℕ) : Type 0 where
  pub nonempty : (c : ℕ) × (k : List ℕ) × (f.0 ≡ c ∷ k)
  pub no_colon : All (λ c. c ≢ b':') f.0
  pub key_in_line : NoCr f.0
  pub value_in_line : NoCr f.1

pub read_line-crlf : (l rest : List ℕ) → NoCr l → read_line (l ++ 13 ∷ 10 ∷ rest) ≡ some (l, rest)
unfolding read_line
read_line-crlf l rest h = rw (cut-append 13 l (10 ∷ rest) h) refl

pub read_field-colon :
    (k v : List ℕ) → All (λ c. c ≢ b':') k → read_field (k ++ b':' ∷ b' ' ∷ v) ≡ some (k, v)
unfolding read_field
read_field-colon k v h = rw (cut-append b':' k (b' ' ∷ v) h) refl

-- A line is read as the first line of a text.
line-first :
    (k v t u : List ℕ)
    → (k ++ b':' ∷ b' ' ∷ (v ++ 13 ∷ 10 ∷ t)) ++ u ≡ (k ++ b':' ∷ b' ' ∷ v) ++ 13 ∷ 10 ∷ (t ++ u)
line-first k v t u =
    append_assoc k (b':' ∷ b' ' ∷ (v ++ 13 ∷ 10 ∷ t)) u
    ∙ ap (λ s. k ++ b':' ∷ b' ' ∷ s) (append_assoc v (13 ∷ 10 ∷ t) u)
    ∙ sym (append_assoc k (b':' ∷ b' ' ∷ v) (13 ∷ 10 ∷ (t ++ u)))

pub All-append :
    {A : Type 0} (P : A → Type 0) (xs ys : List A) → All P xs → All P ys → All P (xs ++ ys)
All-append P [] ys h g = g
All-append P (x ∷ xs) ys (p, h) g = (p, All-append P xs ys h g)

line-NoCr : (k v : List ℕ) → NoCr k → NoCr v → NoCr (k ++ b':' ∷ b' ' ∷ v)
line-NoCr k v h g = All-append (λ c. c ≢ 13) k (b':' ∷ b' ' ∷ v) h (ground arith, (ground arith, g))

-- One line more, as read_fields reads it.
read_fields-step :
    (fuel c : ℕ) (l rest : List ℕ) (f : List ℕ × List ℕ) (fs : Headers) (body s : List ℕ)
    → read_line s ≡ some (c ∷ l, rest)
    → read_field (c ∷ l) ≡ some f
    → read_fields fuel rest ≡ some (fs, body)
    → read_fields (suc fuel) s ≡ some (f ∷ fs, body)
unfolding read_fields
read_fields-step fuel c l rest f fs body s p q r = rw (p, q, r, read_fields) refl

pub read_fields-lines :
    (fuel : ℕ) (fields : Headers) (body : List ℕ)
    → All IsField fields
    → length fields < fuel
    → read_fields fuel (lines fields ++ 13 ∷ 10 ∷ body) ≡ some (fields, body)
unfolding read_fields lines
read_fields-lines zero fields body h l = absurd (omega arith)
read_fields-lines (suc fuel) [] body h l = rw (read_line-crlf [] body tt, read_fields) refl
read_fields-lines (suc fuel) ((k, v) ∷ fields) body (p, h) l =
    let (c, k2, e) = p.nonempty in
    let rest = lines fields ++ 13 ∷ 10 ∷ body in
    read_fields-step fuel c (k2 ++ b':' ∷ b' ' ∷ v) rest (k, v) fields body
      (lines ((k, v) ∷ fields) ++ 13 ∷ 10 ∷ body)
      (ap read_line (line-first k v (lines fields) (13 ∷ 10 ∷ body))
        ∙ read_line-crlf (k ++ b':' ∷ b' ' ∷ v) rest (line-NoCr k v p.key_in_line p.value_in_line)
        ∙ ap (λ j. some (j ++ b':' ∷ b' ' ∷ v, rest)) e)
      (sym (ap (λ j. read_field (j ++ b':' ∷ b' ' ∷ v)) e) ∙ read_field-colon k v p.no_colon)
      (read_fields-lines fuel fields body h (omega arith))

length-lines : (fields : Headers) → length fields ≤ length (lines fields)
unfolding lines
length-lines [] = omega arith
length-lines ((k, v) ∷ fields) = omega (
  arith,
  length-append k (b':' ∷ b' ' ∷ (v ++ 13 ∷ 10 ∷ lines fields)),
  length-append v (13 ∷ 10 ∷ lines fields),
  length-lines fields,
)

-- A start line, fields and a body are read back from their text.
pub read_message-lines :
    (start : List ℕ) (fields : Headers) (body : List ℕ)
    → NoCr start
    → All IsField fields
    → read_message (start ++ 13 ∷ 10 ∷ (lines fields ++ 13 ∷ 10 ∷ body))
      ≡ some (start, fields, body)
unfolding read_message
read_message-lines start fields body h g =
    let rest = lines fields ++ 13 ∷ 10 ∷ body in
    let room : length fields < length (start ++ 13 ∷ 10 ∷ rest) = omega (
      arith,
      length-append start (13 ∷ 10 ∷ rest),
      length-append (lines fields) (13 ∷ 10 ∷ body),
      length-lines fields,
    ) in
    rw
      (
        read_line-crlf start rest h,
        read_fields-lines (length (start ++ 13 ∷ 10 ∷ rest)) fields body g room,
      )
      refl

-- A line without a colon that is not empty.
read_field-no_colon : (l : List ℕ) → All (λ c. c ≢ b':') l → read_field l ≡ none
unfolding read_field
read_field-no_colon l h = rw (cut-none b':' l h) refl

read_fields-stop :
    (fuel c : ℕ) (l rest s : List ℕ)
    → read_line s ≡ some (c ∷ l, rest)
    → read_field (c ∷ l) ≡ none
    → read_fields fuel s ≡ none
unfolding read_fields
read_fields-stop zero c l rest s p q = refl
read_fields-stop (suc fuel) c l rest s p q = rw (p, q, read_fields) refl

read_fields-fail :
    (fuel c : ℕ) (l rest s : List ℕ) (f : List ℕ × List ℕ)
    → read_line s ≡ some (c ∷ l, rest)
    → read_field (c ∷ l) ≡ some f
    → read_fields fuel rest ≡ none
    → read_fields (suc fuel) s ≡ none
unfolding read_fields
read_fields-fail fuel c l rest s f p q r = rw (p, q, r, read_fields) refl

-- Behind fields, a line without a colon is no field.
pub read_fields-broken :
    (fuel : ℕ) (fields : Headers) (c : ℕ) (l rest : List ℕ)
    → All IsField fields
    → NoCr (c ∷ l)
    → All (λ x. x ≢ b':') (c ∷ l)
    → read_fields fuel (lines fields ++ (c ∷ l ++ 13 ∷ 10 ∷ rest)) ≡ none
unfolding lines read_fields
read_fields-broken fuel [] c l rest h n m =
    read_fields-stop fuel c l rest (c ∷ l ++ 13 ∷ 10 ∷ rest) (read_line-crlf (c ∷ l) rest n)
      (read_field-no_colon (c ∷ l) m)
read_fields-broken zero (f ∷ fields) c l rest h n m = refl
read_fields-broken (suc fuel) ((k, v) ∷ fields) c l rest (p, h) n m =
    let (d, k2, e) = p.nonempty in
    let last = c ∷ l ++ 13 ∷ 10 ∷ rest in
    read_fields-fail fuel d (k2 ++ b':' ∷ b' ' ∷ v) (lines fields ++ last)
      (lines ((k, v) ∷ fields) ++ last) (k, v)
      (ap read_line (line-first k v (lines fields) last)
        ∙ read_line-crlf (k ++ b':' ∷ b' ' ∷ v) (lines fields ++ last)
            (line-NoCr k v p.key_in_line p.value_in_line)
        ∙ ap (λ j. some (j ++ b':' ∷ b' ' ∷ v, lines fields ++ last)) e)
      (sym (ap (λ j. read_field (j ++ b':' ∷ b' ' ∷ v)) e) ∙ read_field-colon k v p.no_colon)
      (read_fields-broken fuel fields c l rest h n m)

pub read_message-broken :
    (start : List ℕ) (fields : Headers) (c : ℕ) (l rest : List ℕ)
    → NoCr start
    → All IsField fields
    → NoCr (c ∷ l)
    → All (λ x. x ≢ b':') (c ∷ l)
    → read_message (start ++ 13 ∷ 10 ∷ (lines fields ++ (c ∷ l ++ 13 ∷ 10 ∷ rest))) ≡ none
unfolding read_message
read_message-broken start fields c l rest h g n m =
    let text = start ++ 13 ∷ 10 ∷ (lines fields ++ (c ∷ l ++ 13 ∷ 10 ∷ rest)) in
    rw
      (
        read_line-crlf start (lines fields ++ (c ∷ l ++ 13 ∷ 10 ∷ rest)) h,
        read_fields-broken (length text) fields c l rest g n m,
      )
      refl
