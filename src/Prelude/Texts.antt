-- ===== src/Prelude/Texts.antt =====
-- Texts: equality, the order of Python's `str` (by code point), membership in sets of texts.
use mathlib.Core.List.{◌++◌, List, [], ◌∷◌, map}
use Prim.Native.Nat.{ℕ, ◌-◌, ◌+◌}
use Prim.Native.Char.{code}
use Prim.Native.String.{String}
use mathlib.Core.Path.{◌≡◌, refl}
use mathlib.Core.Bool.{Bool, true, false, ◌&&◌, ◌||◌}
use native.Mathlib.Omega.{arith}
use text.Mathlib.Text.{◌==◌ as eq_text}
use text.Mathlib.TextEquality.{eq_iff}
use boxmunge.Prelude.Tests.{ltb, leb, ◌==◌, if◌then◌else◌}

abbrev pub str_eq : String → String → Bool
str_eq = eq_text

-- The code points of a text.
abbrev pub codes : String → List ℕ
codes String.[] = []
codes (String.◌∷◌ c s) = code c ∷ codes s

unfoldable pub codes_eq : List ℕ → List ℕ → Bool
codes_eq [] [] = true
codes_eq (a ∷ s) (b ∷ t) = a == b && codes_eq s t
codes_eq _ _ = false

-- s <= t
unfoldable pub codes_le : List ℕ → List ℕ → Bool
codes_le [] t = true
codes_le (a ∷ s) [] = false
codes_le (a ∷ s) (b ∷ t) = let rest = codes_le s t in if ltb a b then true else a == b && rest

abbrev pub str_le : String → String → Bool
str_le s t = codes_le (codes s) (codes t)

codes_le-total_codes : (s t : List ℕ) → codes_le s t ≡ false → codes_le t s ≡ true
unfolding codes_le
codes_le-total_codes [] t h = cc
codes_le-total_codes (a ∷ s) [] h = refl
codes_le-total_codes (a ∷ s) (b ∷ t) h = ground (arith, codes_le-total_codes s t)

codes_le-trans_codes :
    (s t u : List ℕ) → codes_le s t ≡ true → codes_le t u ≡ true → codes_le s u ≡ true
unfolding codes_le
codes_le-trans_codes [] t u h k = refl
codes_le-trans_codes (a ∷ s) [] u h k = cc
codes_le-trans_codes (a ∷ s) (b ∷ t) [] h k = cc
codes_le-trans_codes (a ∷ s) (b ∷ t) (c ∷ u) h k = ground (arith, codes_le-trans_codes s t u)

pub str_le_total : (s t : String) → str_le s t ≡ false → str_le t s ≡ true
str_le_total s t = codes_le-total_codes (codes s) (codes t)

pub str_le_trans : (s t u : String) → str_le s t ≡ true → str_le t u ≡ true → str_le s u ≡ true
str_le_trans s t u = codes_le-trans_codes (codes s) (codes t) (codes u)

-- x in xs, for a set or a list of texts
unfoldable pub elem : String → List String → Bool
elem x [] = false
elem x (y ∷ ys) = str_eq x y || elem x ys

-- xs <= ys, between sets
unfoldable pub subset : List String → List String → Bool
subset [] ys = true
subset (x ∷ xs) ys = elem x ys && subset xs ys

pub subset-elem :
    (x : String) (xs ys : List String) → subset xs ys ≡ true → elem x xs ≡ true → elem x ys ≡ true
unfolding subset elem
subset-elem x [] ys h k = cc
subset-elem x (y ∷ xs) ys h k = ground (arith, eq_iff x y, subset-elem x xs ys)

-- s.upper() and s.lower(), on ASCII, as code points
abbrev upper_code : ℕ → ℕ
upper_code c = if leb b'a' c && leb c b'z' then c - 32 else c

abbrev lower_code : ℕ → ℕ
lower_code c = if leb b'A' c && leb c b'Z' then c + 32 else c

unfoldable pub upper : String → List ℕ
upper s = map upper_code (codes s)

unfoldable pub lower : String → List ℕ
lower s = map lower_code (codes s)

pub elem-append : (p : String) (xs ys : List String) → elem p (xs ++ ys) ≡ (elem p xs || elem p ys)
unfolding elem
elem-append p [] ys = refl
elem-append p (x ∷ xs) ys = ground (arith, elem-append p xs ys)
