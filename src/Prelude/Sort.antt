-- ===== src/Prelude/Sort.antt =====
-- Python's stable `sorted`, as an insertion sort under a Boolean order.
use Prim.Native.String.{String}
use mathlib.Core.Path.{sym, ◌∙◌, ◌≡◌, refl}
use boxmunge.Prelude.Texts.{elem-append, str_eq, str_le, elem}
use mathlib.Core.Logic.{inl, inr}
use mathlib.Core.Bool.{Bool, true, false, ◌||◌}
use mathlib.Core.List.{List, [], ◌∷◌, Perm}
use mathlib.Core.List.Perm
use native.Mathlib.Omega.{arith}
use boxmunge.Prelude.Tests.{Bool-cases, if◌then◌else◌}
use boxmunge.Prelude.Lists.{All, any}

module _ {ℓ} {A : Type ℓ} (le : A → A → Bool) where
  -- An equal item that came first stays first.
  unfoldable pub insert_sorted : A → List A → List A
  insert_sorted x [] = x ∷ []
  insert_sorted x (y ∷ ys) =
      let rest = insert_sorted x ys in if le x y then x ∷ y ∷ ys else y ∷ rest

  unfoldable pub sorted : List A → List A
  unfolding insert_sorted
  sorted [] = []
  sorted (x ∷ xs) = insert_sorted x (sorted xs)

  abbrev pub IsSorted : List A → Type 0
  IsSorted [] = Unit
  IsSorted (x ∷ xs) = All (λ y. le x y ≡ true) xs × IsSorted xs

  insert_sorted-perm : (x : A) (xs : List A) → Perm (insert_sorted x xs) (x ∷ xs)
  unfolding insert_sorted
  insert_sorted-perm x [] = Perm.refl (x ∷ [])
  insert_sorted-perm x (y ∷ ys) = elim (Bool-cases (le x y)) [
    | inl e ↦ rw e (Perm.refl (x ∷ y ∷ ys))
    | inr e ↦ rw e (Perm.trans (Perm.cons y (insert_sorted-perm x ys)) (Perm.swap x y ys))
  ]

  -- Nothing is lost and nothing is added.
  pub sorted-perm : (xs : List A) → Perm (sorted xs) xs
  unfolding sorted
  sorted-perm [] = Perm.refl []
  sorted-perm (x ∷ xs) =
      Perm.trans (insert_sorted-perm x (sorted xs)) (Perm.cons x (sorted-perm xs))

  pub any-insert_sorted :
      (p : A → Bool) (x : A) (xs : List A) → any p (insert_sorted x xs) ≡ (p x || any p xs)
  unfolding insert_sorted
  any-insert_sorted p x [] = refl
  any-insert_sorted p x (y ∷ ys) = ground (arith, any-insert_sorted p x ys)

  -- A test passes somewhere in the sorted list when it passes somewhere in the list.
  pub any-sorted : (p : A → Bool) (xs : List A) → any p (sorted xs) ≡ any p xs
  unfolding sorted
  any-sorted p [] = refl
  any-sorted p (x ∷ xs) = rw (any-insert_sorted p x (sorted xs), any-sorted p xs)

  All-insert_sorted {κ} :
      (P : A → Type κ) (x : A) (xs : List A) → P x → All P xs → All P (insert_sorted x xs)
  unfolding insert_sorted
  All-insert_sorted P x [] px h = (px, tt)
  All-insert_sorted P x (y ∷ ys) px h = elim (Bool-cases (le x y)) [
    | inl e ↦ rw e (px, h)
    | inr e ↦ rw e (h.0, All-insert_sorted P x ys px h.1)
  ]

  pub All-sorted {κ} : (P : A → Type κ) (xs : List A) → All P xs → All P (sorted xs)
  unfolding sorted
  All-sorted P [] h = tt
  All-sorted P (x ∷ xs) h = All-insert_sorted P x (sorted xs) h.0 (All-sorted P xs h.1)

module _ {ℓ} {A : Type ℓ} (le : A → A → Bool) where
  insert_sorted_first :
      (x : A) (xs : List A) → All (λ y. le x y ≡ true) xs → insert_sorted le x xs ≡ x ∷ xs
  unfolding insert_sorted
  insert_sorted_first x [] h = refl
  insert_sorted_first x (y ∷ ys) h = rw (h.0)

  -- A sorted list stays as it is.
  pub sorted_of_IsSorted : (xs : List A) → IsSorted le xs → sorted le xs ≡ xs
  unfolding sorted
  sorted_of_IsSorted [] h = refl
  sorted_of_IsSorted (x ∷ xs) h = rw (sorted_of_IsSorted xs h.1) (insert_sorted_first x xs h.0)

module _ {ℓ} {A : Type ℓ} (le : A → A → Bool) (total : (a b : A) → le a b ≡ false → le b a ≡ true)
    (trans : (a b c : A) → le a b ≡ true → le b c ≡ true → le a c ≡ true) where
  All-le :
      (x y : A) (ys : List A)
      → le x y ≡ true
      → All (λ z. le y z ≡ true) ys
      → All (λ z. le x z ≡ true) ys
  All-le x y [] e h = tt
  All-le x y (z ∷ zs) e h = (trans x y z e h.0, All-le x y zs e h.1)

  insert_sorted-IsSorted :
      (x : A) (xs : List A) → IsSorted le xs → IsSorted le (insert_sorted le x xs)
  unfolding insert_sorted
  insert_sorted-IsSorted x [] h = (tt, tt)
  insert_sorted-IsSorted x (y ∷ ys) h = elim (Bool-cases (le x y)) [
    | inl e ↦ rw e ((e, All-le x y ys e h.0), h)
    | inr e ↦ rw e (
      All-insert_sorted le (λ z. le y z ≡ true) x ys (total x y e) h.0,
      insert_sorted-IsSorted x ys h.1,
    )
  ]

  pub sorted-IsSorted : (xs : List A) → IsSorted le (sorted le xs)
  unfolding sorted
  sorted-IsSorted [] = tt
  sorted-IsSorted (x ∷ xs) = insert_sorted-IsSorted x (sorted le xs) (sorted-IsSorted xs)

pub elem-any : (x : String) (xs : List String) → elem x xs ≡ any (str_eq x) xs
unfolding elem
elem-any x [] = refl
elem-any x (y ∷ ys) = ground (arith, elem-any x ys)

pub elem-sorted : (x : String) (xs : List String) → elem x (sorted str_le xs) ≡ elem x xs
elem-sorted x xs =
    elem-any x (sorted str_le xs) ∙ any-sorted str_le (str_eq x) xs ∙ sym (elem-any x xs)

-- Membership in what the program builds of sets and lists of texts.
pub ruleset member_laws = (arith, elem-append, elem-sorted)
