-- ===== src/Http/Methods.antt =====
-- The names of methods in libcocao/http/http.cc, for any table.
use libcocao.Base.{
  ℕ, zero, suc, ◌+◌, ◌<◌, ◌≡◌, ap, ◌∙◌, ◌⊎◌, inl, inr, false, List, [], ◌∷◌, Bool-cases, All,
  length, arith,
}
use libcocao.Log.{text_eq}
use libcocao.Log.Pattern.{text_eq_sound, text_eq_self}
use libcocao.Http.{Methods, c_str, method_from, string_to_http_method, http_method_to_string}

-- The texts of a table are different, and have no NUL.
abbrev pub Distinct : Methods → Type 0
Distinct [] = Unit {0}
Distinct (t ∷ more) = All (λ u. text_eq t u ≡ false) more × Distinct more

abbrev pub Whole : Methods → Type 0
Whole = All (λ t. c_str t ≡ t)

All-name :
    (P : List ℕ → Type 0) (methods : Methods) (n : ℕ)
    → All P methods
    → n < length methods
    → P (http_method_to_string methods n)
unfolding http_method_to_string
All-name P [] n h l = absurd (omega arith)
All-name P (t ∷ more) zero h l = h.0
All-name P (t ∷ more) (suc n) h l = All-name P more n h.1 (omega arith)

method_from-name :
    (b : ℕ) (methods : Methods) (n : ℕ)
    → Distinct methods
    → n < length methods
    → method_from b methods (http_method_to_string methods n) ≡ b + n
unfolding method_from http_method_to_string
method_from-name b [] n h l = absurd (omega arith)
method_from-name b (t ∷ more) zero h l = rw (text_eq_self t) (omega arith)
method_from-name b (t ∷ more) (suc n) h l =
    let other = All-name (λ u. text_eq t u ≡ false) more n h.0 (omega arith) in
    rw other (method_from-name (suc b) more n h.1 (omega arith) ∙ omega arith)

method_from-cases :
    (b : ℕ) (methods : Methods) (m : List ℕ)
    → (method_from b methods m ≡ b + length methods)
      ⊎ ((n : ℕ) × (method_from b methods m ≡ b + n) × (http_method_to_string methods n ≡ m))
unfolding method_from http_method_to_string
method_from-cases b [] m = inl (omega arith)
method_from-cases b (t ∷ more) m = elim (Bool-cases (text_eq t m)) [
  | inl e ↦ inr (0, rw e (omega arith), text_eq_sound t m e)
  | inr e ↦ elim (method_from-cases (suc b) more m) [
    | inl none_left ↦ inl (rw e (none_left ∙ omega arith))
    | inr (n, at, name) ↦ inr (suc n, rw e (at ∙ omega arith), name)
  ]
]

-- In a table of different texts, StringToHttpMethod gives back each method from its name, and for
-- every text the method of that name, or INVALID_METHOD, which is printed as unknown.
pub methods_lem :
    (methods : Methods) (n : ℕ) (m : List ℕ)
    → Distinct methods
    → Whole methods
    → n < length methods
    → (string_to_http_method methods (http_method_to_string methods n) ≡ n)
      × ((string_to_http_method methods m ≡ length methods)
          ⊎ (http_method_to_string methods (string_to_http_method methods m) ≡ c_str m))
unfolding string_to_http_method
methods_lem methods n m d w l = (
  rw (All-name (λ t. c_str t ≡ t) methods n w l) (method_from-name 0 methods n d l ∙ omega arith),
  elim (method_from-cases 0 methods (c_str m)) [
    | inl e ↦ inl (e ∙ omega arith)
    | inr (k, e, name) ↦ inr (ap (http_method_to_string methods) (e ∙ omega arith) ∙ name)
  ],
)
