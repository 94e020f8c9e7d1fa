-- ===== src/Http.antt =====
-- The HTTP part, libcocao/http: texts, the header maps and the names of methods. Texts are lists of
-- characters. The table of methods is that of the vendored http-parser, and a parameter.
pub mod Cuts
pub mod Order
pub mod Maps
pub mod Methods
pub mod Request
pub mod Response
pub mod Text
pub mod Servlet
pub mod Server
mod Runs
use libcocao.Base.{
  ℕ, zero, suc, ◌+◌, Bool, true, false, not, ◌&&◌, Option, none, some, List, [], ◌∷◌, ◌++◌, map,
  ltb, leb, ◌==◌, if◌then◌else◌, ◌>>=◌,
}
use libcocao.Log.{text_eq, codes}

-- Output to a stream, before what is put out next.
infixr 66 ◌<<◌
abbrev pub ◌<<◌ : List ℕ → List ℕ → List ℕ
s << t = s ++ t

-- The text before the first character c, and the text behind it.
pub cut : ℕ → List ℕ → Option (List ℕ × List ℕ)
cut c [] = none
cut c (x ∷ s) =
    let rest = cut c s >>= λ r. some (x ∷ r.0, r.1) in if x == c then some ([], s) else rest

-- The characters that a C string has: those before the first NUL.
pub c_str : List ℕ → List ℕ
c_str [] = []
c_str (x ∷ s) = let rest = x ∷ c_str s in if x == 0 then [] else rest

-- tolower.
pub to_lower : ℕ → ℕ
to_lower c = if leb b'A' c && leb c b'Z' then c + 32 else c

-- What strcasecmp compares of a text.
pub fold : List ℕ → List ℕ
unfolding c_str to_lower
fold s = map to_lower (c_str s)

pub text_less : List ℕ → List ℕ → Bool
text_less [] [] = false
text_less [] (y ∷ t) = true
text_less (x ∷ s) [] = false
text_less (x ∷ s) (y ∷ t) =
    let rest = text_less s t in if ltb x y then true else if x == y then rest else false

-- CaseInsensitiveLess.
pub key_less : List ℕ → List ℕ → Bool
unfolding text_less fold
key_less lhs rhs = text_less (fold lhs) (fold rhs)

-- `strcasecmp(...) == 0`.
pub same_key : List ℕ → List ℕ → Bool
unfolding fold
same_key lhs rhs = text_eq (fold lhs) (fold rhs)

-- HttpRequest::MapType and HttpResponse::MapType, in the order of iteration.
abbrev pub Headers : Type 0
Headers = List (List ℕ × List ℕ)

-- `m.find(key)`: neither key is less.
pub find : List ℕ → Headers → Option (List ℕ)
unfolding key_less
find key [] = none
find key ((k, v) ∷ m) =
    let rest = find key m in if not (key_less k key) && not (key_less key k) then some v else rest

-- `m[key] = val`, which keeps the key that is there.
pub put : List ℕ → List ℕ → Headers → Headers
unfolding key_less
put key val [] = (key, val) ∷ []
put key val ((k, v) ∷ m) =
    let rest = (k, v) ∷ put key val m in
    if key_less key k
    then (key, val) ∷ (k, v) ∷ m
    else if key_less k key
    then rest
    else (k, val) ∷ m

-- `m.insert(make_pair(key, val))`, which keeps the value that is there.
pub insert : List ℕ → List ℕ → Headers → Headers
unfolding key_less
insert key val [] = (key, val) ∷ []
insert key val ((k, v) ∷ m) =
    let rest = (k, v) ∷ insert key val m in
    if key_less key k then (key, val) ∷ (k, v) ∷ m else if key_less k key then rest else (k, v) ∷ m

-- `m.erase(key)`.
pub erase : List ℕ → Headers → Headers
unfolding key_less
erase key [] = []
erase key ((k, v) ∷ m) =
    let rest = (k, v) ∷ erase key m in
    if not (key_less k key) && not (key_less key k) then m else rest

-- getHeader, getParam and getCookie once the map is there.
pub get_or : List ℕ → List ℕ → Headers → List ℕ
unfolding find
get_or key def m = elim (find key m) [ none ↦ def | some v ↦ v ]

-- HTTP_METHOD_MAP: the texts of the methods, by their numbers from 0 on.
abbrev pub Methods : Type 0
Methods = List (List ℕ)

-- StringToHttpMethod, from a number on. The number behind the last is INVALID_METHOD.
pub method_from : ℕ → Methods → List ℕ → ℕ
method_from n [] m = n
method_from n (text ∷ more) m =
    let rest = method_from (suc n) more m in if text_eq text m then n else rest

pub string_to_http_method : Methods → List ℕ → ℕ
unfolding method_from c_str
string_to_http_method methods m = method_from 0 methods (c_str m)

-- HttpMethodToString.
pub http_method_to_string : Methods → ℕ → List ℕ
http_method_to_string [] n = codes "<unknown>"
http_method_to_string (text ∷ more) zero = text
http_method_to_string (text ∷ more) (suc n) = http_method_to_string more n
