-- ===== src/Prelude/Strip.antt =====
-- `str.strip`, on texts whose white space is ASCII.
use Prim.Native.Char.{Char, code}
use Prim.Native.String.{String}
use mathlib.Core.Path.{◌≡◌, refl, ap, ◌∙◌}
use mathlib.Core.Logic.{inl, inr}
use mathlib.Core.Bool.{Bool, true, false, ◌&&◌, ◌||◌, not}
use native.Mathlib.Omega.{arith}
use boxmunge.Prelude.Tests.{leb, Bool-cases, if◌then◌else◌}

-- \t \n \v \f \r, the separators 28 to 31, and the space
unfoldable pub is_space : Char → Bool
is_space c = (leb 9 (code c) && leb (code c) 13) || (leb 28 (code c) && leb (code c) 32)

unfoldable pub lstrip : String → String
lstrip String.[] = String.[]
lstrip (String.◌∷◌ c s) = let rest = lstrip s in if is_space c then rest else String.◌∷◌ c s

-- A character in front of what is left of the text behind it.
unfoldable pub before : Char → String → String
before c String.[] = if is_space c then String.[] else String.◌∷◌ c String.[]
before c (String.◌∷◌ d s) = String.◌∷◌ c (String.◌∷◌ d s)

unfoldable pub rstrip : String → String
unfolding before
rstrip String.[] = String.[]
rstrip (String.◌∷◌ c s) = before c (rstrip s)

-- s.strip()
unfoldable pub strip : String → String
unfolding lstrip rstrip
strip s = rstrip (lstrip s)

abbrev is_bare : String → Bool
is_bare String.[] = true
is_bare (String.◌∷◌ c s) = not (is_space c)

lstrip-IsBare : (s : String) → is_bare (lstrip s) ≡ true
unfolding lstrip
lstrip-IsBare String.[] = refl
lstrip-IsBare (String.◌∷◌ c s) = ground (arith, lstrip-IsBare s)

lstrip_of_bare : (s : String) → is_bare s ≡ true → lstrip s ≡ s
unfolding lstrip
lstrip_of_bare String.[] h = refl
lstrip_of_bare (String.◌∷◌ c s) h = ground arith

before-IsBare : (c : Char) (s : String) → is_space c ≡ false → is_bare (before c s) ≡ true
unfolding before
before-IsBare c String.[] h = rw (h, is_bare) (rw h)
before-IsBare c (String.◌∷◌ d s) h = rw h

rstrip-IsBare : (s : String) → is_bare s ≡ true → is_bare (rstrip s) ≡ true
unfolding rstrip
rstrip-IsBare String.[] h = refl
rstrip-IsBare (String.◌∷◌ c s) h = before-IsBare c (rstrip s) (ground arith)

rstrip-before : (c : Char) (s : String) → rstrip s ≡ s → rstrip (before c s) ≡ before c s
unfolding rstrip
rstrip-before c String.[] h = elim (Bool-cases (is_space c)) [ inl e ↦ rw e | inr e ↦ rw e (rw e) ]
rstrip-before c (String.◌∷◌ d s) h = ap (before c) h

rstrip_idem : (s : String) → rstrip (rstrip s) ≡ rstrip s
unfolding rstrip
rstrip_idem String.[] = refl
rstrip_idem (String.◌∷◌ c s) = rstrip-before c (rstrip s) (rstrip_idem s)

-- What is stripped stays as it is when stripped again.
pub strip_idem : (s : String) → strip (strip s) ≡ strip s
unfolding strip
strip_idem s =
    ap rstrip (lstrip_of_bare (rstrip (lstrip s)) (rstrip-IsBare (lstrip s) (lstrip-IsBare s)))
    ∙ rstrip_idem (lstrip s)
