-- ===== src/ByteArray/Blocks/Copy.antt =====
-- Copies into and out of lists, as memcpy makes them in libcocao/bytearray.cc.
use libcocao.Base.{
  ℕ, zero, suc, ◌+◌, ◌-◌, ◌≤◌, ◌≡◌, refl, ◌∙◌, ap, List, [], ◌∷◌, ◌++◌, length, take, drop, arith,
  All,
}
use libcocao.ByteArray.Blocks.{overwrite}

module _ {A : Type 0} where
  pub length-drop : (n : ℕ) (xs : List A) → length (drop n xs) ≡ length xs - n
  length-drop zero xs = omega arith
  length-drop (suc n) [] = omega arith
  length-drop (suc n) (x ∷ xs) = omega (arith, length-drop n xs)

  pub length-take : (n : ℕ) (xs : List A) → n ≤ length xs → length (take n xs) ≡ n
  length-take zero xs h = refl
  length-take (suc n) [] h = absurd (omega arith)
  length-take (suc n) (x ∷ xs) h = ap suc (length-take n xs (omega arith))

  pub take-append : (n : ℕ) (xs ys : List A) → n ≤ length xs → take n (xs ++ ys) ≡ take n xs
  take-append zero xs ys h = refl
  take-append (suc n) [] ys h = absurd (omega arith)
  take-append (suc n) (x ∷ xs) ys h = ap (λ l. x ∷ l) (take-append n xs ys (omega arith))

  pub drop-append : (n : ℕ) (xs ys : List A) → n ≤ length xs → drop n (xs ++ ys) ≡ drop n xs ++ ys
  drop-append zero xs ys h = refl
  drop-append (suc n) [] ys h = absurd (omega arith)
  drop-append (suc n) (x ∷ xs) ys h = drop-append n xs ys (omega arith)

  pub drop-append_past :
      (m n : ℕ) (xs ys : List A) → m ≡ length xs + n → drop m (xs ++ ys) ≡ drop n ys
  drop-append_past m n [] ys e = let same : m ≡ n = omega (arith, e) in ap (λ i. drop i ys) same
  drop-append_past zero n (x ∷ xs) ys e = absurd (omega (arith, e))
  drop-append_past (suc m) n (x ∷ xs) ys e = drop-append_past m n xs ys (omega (arith, e))

  pub take-append_past :
      (m n : ℕ) (xs ys : List A) → m ≡ length xs + n → take m (xs ++ ys) ≡ xs ++ take n ys
  take-append_past m n [] ys e = let same : m ≡ n = omega (arith, e) in ap (λ i. take i ys) same
  take-append_past zero n (x ∷ xs) ys e = absurd (omega (arith, e))
  take-append_past (suc m) n (x ∷ xs) ys e =
      ap (λ l. x ∷ l) (take-append_past m n xs ys (omega (arith, e)))

  pub take_all : (xs : List A) → take (length xs) xs ≡ xs
  take_all [] = refl
  take_all (x ∷ xs) = ap (λ l. x ∷ l) (take_all xs)

  pub take-drop : (n : ℕ) (xs : List A) → take n xs ++ drop n xs ≡ xs
  take-drop zero xs = refl
  take-drop (suc n) [] = refl
  take-drop (suc n) (x ∷ xs) = ap (λ l. x ∷ l) (take-drop n xs)

pub length-overwrite : (xs : List ℕ) (n : ℕ) (d : List ℕ) → length (overwrite xs n d) ≡ length xs
unfolding overwrite
length-overwrite [] n d = refl
length-overwrite (x ∷ xs) (suc n) d = ap suc (length-overwrite xs n d)
length-overwrite (x ∷ xs) zero [] = refl
length-overwrite (x ∷ xs) zero (v ∷ d) = ap suc (length-overwrite xs zero d)

pub overwrite_none : (xs : List ℕ) (n : ℕ) → overwrite xs n [] ≡ xs
unfolding overwrite
overwrite_none [] n = refl
overwrite_none (x ∷ xs) zero = refl
overwrite_none (x ∷ xs) (suc n) = ap (λ l. x ∷ l) (overwrite_none xs n)

-- Bytes that end in the first part.
pub overwrite-append_fits :
    (xs ys : List ℕ) (n : ℕ) (d : List ℕ)
    → n + length d ≤ length xs
    → overwrite (xs ++ ys) n d ≡ overwrite xs n d ++ ys
unfolding overwrite
overwrite-append_fits [] ys zero [] h = overwrite_none ys zero
overwrite-append_fits [] ys (suc n) d h = absurd (omega arith)
overwrite-append_fits [] ys zero (v ∷ d) h = absurd (omega arith)
overwrite-append_fits (x ∷ xs) ys (suc n) d h =
    ap (λ l. x ∷ l) (overwrite-append_fits xs ys n d (omega arith))
overwrite-append_fits (x ∷ xs) ys zero [] h = refl
overwrite-append_fits (x ∷ xs) ys zero (v ∷ d) h =
    ap (λ l. v ∷ l) (overwrite-append_fits xs ys zero d (omega arith))

-- Bytes that go on into the second part.
pub overwrite-append_over :
    (xs ys : List ℕ) (n : ℕ) (d : List ℕ)
    → n ≤ length xs
    → length xs ≤ n + length d
    → overwrite (xs ++ ys) n d
      ≡ overwrite xs n (take (length xs - n) d) ++ overwrite ys 0 (drop (length xs - n) d)
unfolding overwrite
overwrite-append_over [] ys zero d p q = refl
overwrite-append_over [] ys (suc n) d p q = absurd (omega arith)
overwrite-append_over (x ∷ xs) ys (suc n) d p q =
    rw less (ap (λ l. x ∷ l) (overwrite-append_over xs ys n d (omega arith) (omega arith)))
  where
    less : length (x ∷ xs) - suc n ≡ length xs - n
    less = omega arith
overwrite-append_over (x ∷ xs) ys zero [] p q = absurd (omega arith)
overwrite-append_over (x ∷ xs) ys zero (v ∷ d) p q = rw whole (
    ap (λ l. v ∷ l) (overwrite-append_over xs ys zero d (omega arith) (omega arith) ∙ rw same refl))
  where
    whole : length (x ∷ xs) - zero ≡ suc (length xs)
    whole = omega arith

    same : length xs - zero ≡ length xs
    same = omega arith

-- What was written is read.
pub read-overwrite :
    (xs : List ℕ) (n : ℕ) (d : List ℕ)
    → n + length d ≤ length xs
    → take (length d) (drop n (overwrite xs n d)) ≡ d
unfolding overwrite
read-overwrite [] zero [] h = refl
read-overwrite [] zero (v ∷ d) h = absurd (omega arith)
read-overwrite [] (suc n) d h = absurd (omega arith)
read-overwrite (x ∷ xs) (suc n) d h = read-overwrite xs n d (omega arith)
read-overwrite (x ∷ xs) zero [] h = refl
read-overwrite (x ∷ xs) zero (v ∷ d) h = ap (λ l. v ∷ l) (read-overwrite xs zero d (omega arith))

pub overwrite-append_past :
    (xs ys : List ℕ) (m n : ℕ) (d : List ℕ)
    → m ≡ length xs + n
    → overwrite (xs ++ ys) m d ≡ xs ++ overwrite ys n d
unfolding overwrite
overwrite-append_past [] ys m n d e =
    let same : m ≡ n = omega (arith, e) in ap (λ i. overwrite ys i d) same
overwrite-append_past (x ∷ xs) ys zero n d e = absurd (omega (arith, e))
overwrite-append_past (x ∷ xs) ys (suc m) n d e =
    ap (λ l. x ∷ l) (overwrite-append_past xs ys m n d (omega (arith, e)))

module _ {A : Type 0} where
  pub All-take : (P : A → Type 0) (n : ℕ) (xs : List A) → All P xs → All P (take n xs)
  All-take P zero xs h = tt
  All-take P (suc n) [] h = tt
  All-take P (suc n) (x ∷ xs) h = (h.0, All-take P n xs h.1)

  pub All-drop : (P : A → Type 0) (n : ℕ) (xs : List A) → All P xs → All P (drop n xs)
  All-drop P zero xs h = h
  All-drop P (suc n) [] h = tt
  All-drop P (suc n) (x ∷ xs) h = All-drop P n xs h.1

  pub All-append : (P : A → Type 0) (xs ys : List A) → All P xs → All P ys → All P (xs ++ ys)
  All-append P [] ys h k = k
  All-append P (x ∷ xs) ys h k = (h.0, All-append P xs ys h.1 k)
