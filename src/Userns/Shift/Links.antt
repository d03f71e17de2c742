-- ===== src/Userns/Shift/Links.antt =====
-- src/boxmunge/userns/shift.py: the hard links that a scan counts.
use boxmunge.Prelude.{
  ℕ, String, ◌≡◌, refl, ap, ◌∙◌, subst, inl, inr, Bool, true, false, ◌||◌, List, [], ◌∷◌, arith,
  eq_iff, ◌==◌, if◌then◌else◌, Bool-cases, str_eq, elem,
}
use boxmunge.Userns.Shift.{Tree, is_linked, met, Fs, links_of, has_links}
use boxmunge.Userns.Shift.Kills.{eq_self}

is_linked-met :
    (i j : ℕ) (rel : String) (n : ℕ) (links : List (ℕ × String × ℕ × ℕ))
    → is_linked i (met j rel n links) ≡ (j == i || is_linked i links)
unfolding met is_linked
is_linked-met i j rel n [] = refl
is_linked-met i j rel n ((k, first, m, seen) ∷ links) =
    ground (arith, is_linked-met i j rel n links)

or_right : (a : Bool) {b : Bool} → b ≡ true → (a || b) ≡ true
or_right true h = refl
or_right false h = h

self_linked :
    (i : ℕ) (b : Bool) (rel : String) (n : ℕ) (links : List (ℕ × String × ℕ × ℕ))
    → b ≡ true
    → is_linked i (if b then met i rel n links else links) ≡ true
self_linked i true rel n links h =
    is_linked-met i i rel n links ∙ ap (λ c. c || is_linked i links) (eq_self i)
self_linked i false rel n links h = cc

if_linked :
    (i j : ℕ) (b : Bool) (rel : String) (n : ℕ) (links : List (ℕ × String × ℕ × ℕ))
    → is_linked i links ≡ true
    → is_linked i (if b then met j rel n links else links) ≡ true
if_linked i j true rel n links h = is_linked-met i j rel n links ∙ or_right (j == i) h
if_linked i j false rel n links h = h

module _ (t : Tree) (fs : Fs) where
  links_of-linked :
      (i : ℕ) (names : List String) (links : List (ℕ × String × ℕ × ℕ))
      → is_linked i links ≡ true
      → is_linked i (links_of t fs names links) ≡ true
  unfolding links_of
  links_of-linked i [] links h = h
  links_of-linked i (rel ∷ names) links h =
      links_of-linked i names _
        (if_linked i (t.inode_of rel) (has_links (fs (t.inode_of rel))) rel _ links h)

  pub links_of-all :
      (rel : String) (names : List String) (links : List (ℕ × String × ℕ × ℕ))
      → elem rel names ≡ true
      → has_links (fs (t.inode_of rel)) ≡ true
      → is_linked (t.inode_of rel) (links_of t fs names links) ≡ true
  unfolding links_of elem
  links_of-all rel [] links m h = cc
  links_of-all rel (first ∷ names) links m h = elim (Bool-cases (str_eq rel first)) [
    | inl e ↦
        let same : rel ≡ first = (eq_iff rel first).0 e in
        links_of-linked (t.inode_of rel) names _ (
          subst
            (λ x.
              is_linked (t.inode_of rel) (
                if has_links (fs (t.inode_of x))
                then met (t.inode_of x) first (fs (t.inode_of x)).nlink links
                else links)
              ≡ true)
            same
            (self_linked (t.inode_of rel) (has_links (fs (t.inode_of rel))) first
              (fs (t.inode_of rel)).nlink links h))
    | inr e ↦ links_of-all rel names _ (ground arith) h
  ]
