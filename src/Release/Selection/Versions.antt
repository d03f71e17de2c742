-- ===== src/Release/Selection/Versions.antt =====
-- src/boxmunge/release_selection.py: the order of versions, which `newer` decides.
use boxmunge.Prelude.{ℕ, ◌≤◌, ◌≡◌, refl, inl, inr, true, false, List, [], ◌∷◌, arith, Bool-cases}
use boxmunge.Release.Selection.{newer, head}

-- A version is newer than none that is newer than it.
pub newer_asym : (a b : List ℕ) → newer a b ≡ true → newer b a ≡ false
unfolding newer
newer_asym [] [] h = refl
newer_asym [] (y ∷ b) h = ground (arith, newer_asym [] b)
newer_asym (x ∷ a) [] h = ground (arith, newer_asym a [])
newer_asym (x ∷ a) (y ∷ b) h = ground (arith, newer_asym a b)

-- `not newer` is transitive: what is not newer than b is not newer than what b is not newer than.
pub newer_neg_trans : (a b c : List ℕ) → newer a b ≡ false → newer b c ≡ false → newer a c ≡ false
unfolding newer
newer_neg_trans [] [] [] h k = refl
newer_neg_trans [] [] (z ∷ c) h k = k
newer_neg_trans [] (y ∷ b) [] h k = refl
newer_neg_trans [] (y ∷ b) (z ∷ c) h k = ground (arith, newer_neg_trans [] b c)
newer_neg_trans (x ∷ a) [] [] h k = h
newer_neg_trans (x ∷ a) [] (z ∷ c) h k = ground (arith, newer_neg_trans a [] c)
newer_neg_trans (x ∷ a) (y ∷ b) [] h k = ground (arith, newer_neg_trans a b [])
newer_neg_trans (x ∷ a) (y ∷ b) (z ∷ c) h k = ground (arith, newer_neg_trans a b c)

-- What is newer than a version is newer than all that it is newer than.
newer_trans : (a b c : List ℕ) → newer a b ≡ true → newer b c ≡ true → newer a c ≡ true
newer_trans a b c h k = elim (Bool-cases (newer a c)) [
  | inl e ↦ e
  | inr e ↦ cc (newer_neg_trans b a c (newer_asym a b h) e, k)
]

pub newer-head : (a b : List ℕ) → newer a b ≡ true → head b ≤ head a
unfolding newer
newer-head [] [] h = cc
newer-head [] (y ∷ b) h = ground arith
newer-head (x ∷ a) [] h = omega arith
newer-head (x ∷ a) (y ∷ b) h = ground arith

pub newer_irrefl : (a : List ℕ) → newer a a ≡ false
newer_irrefl a = elim (Bool-cases (newer a a)) [ inl e ↦ newer_asym a a e | inr e ↦ e ]

pub not_newer-head : (a b : List ℕ) → newer a b ≡ false → head a ≤ head b
unfolding newer
not_newer-head [] b h = omega arith
not_newer-head (x ∷ a) [] h = ground arith
not_newer-head (x ∷ a) (y ∷ b) h = ground arith
