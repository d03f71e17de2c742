-- ===== src/Userns/Shift/Restored.antt =====
-- src/boxmunge/userns/shift.py and engine.shift_journalled: the modes that a shift puts back.
use boxmunge.Prelude.{
  ℕ, String, ◌≡◌, refl, ◌∙◌, inl, inr, Bool, true, false, ◌&&◌, Option, none, some, List, [], ◌∷◌,
  arith, eq_iff, eq_refl, if◌then◌else◌, Bool-cases, Dict, lookup, str_eq, elem, lookup-insert, ap,
  ◌⊎◌,
}
use boxmunge.Userns.Shift.{scan_setid, Tree, Fs, loses_mode, Direction, Inode, is_regular}
use boxmunge.Userns.Shift.Scans.{StageFs, loses_mode-Stage}
use boxmunge.Userns.Shift.Modes.{loses, cleared_of_keeping}
use boxmunge.Userns.Shift.Stages.{Known}
use boxmunge.Userns.Shift.Walk.{merge}

abbrev pub or_else {ℓ} : {A : Type ℓ} → Option A → Option A → Option A
or_else (some a) o = some a
or_else none o = o

lookup-merge :
    (k : String) (a b : Dict ℕ) → lookup k (merge a b) ≡ or_else (lookup k b) (lookup k a)
unfolding merge lookup
lookup-merge k a [] = refl
lookup-merge k a ((j, v) ∷ b) =
    lookup-insert j k v (merge a b)
    ∙ elim (Bool-cases (str_eq j k)) [ inl e ↦ rw e | inr e ↦ rw e (lookup-merge k a b) ]

pub lookup-nil : (k : String) → lookup {V = ℕ} k [] ≡ none
unfolding lookup
lookup-nil k = refl

lookup-merge-some :
    (k : String) (a b : Dict ℕ) {v : ℕ} → lookup k b ≡ some v → lookup k (merge a b) ≡ some v
lookup-merge-some k a b h = lookup-merge k a b ∙ ap (λ o. or_else o (lookup k a)) h

lookup-merge-none :
    (k : String) (a b : Dict ℕ) → lookup k b ≡ none → lookup k (merge a b) ≡ lookup k a
lookup-merge-none k a b h = lookup-merge k a b ∙ ap (λ o. or_else o (lookup k a)) h

lookup_if :
    (b : Bool) (rel first : String) (m : ℕ) (rest : Dict ℕ)
    → lookup rel (if b then (first, m) ∷ rest else rest)
      ≡ (if b && str_eq first rel then some m else lookup rel rest)
unfolding lookup
lookup_if true rel first m rest = refl
lookup_if false rel first m rest = refl

module _ (t : Tree) (fs : Fs) (rel : String) where
  lookup-scan_setid-none :
      (names : List String)
      → loses_mode (fs (t.inode_of rel)) ≡ false
      → lookup rel (scan_setid t fs names) ≡ none
  unfolding scan_setid lookup
  lookup-scan_setid-none [] h = refl
  lookup-scan_setid-none (first ∷ names) h =
      lookup_if (loses_mode (fs (t.inode_of first))) rel first _ _
      ∙ elim (Bool-cases (str_eq first rel)) [
        | inl e ↦ rw ((eq_iff first rel).0 e, h) (lookup-scan_setid-none names h)
        | inr e ↦ ground (arith, e, lookup-scan_setid-none names h)
      ]

  lookup-scan_setid :
      (names : List String)
      → elem rel names ≡ true
      → loses_mode (fs (t.inode_of rel)) ≡ true
      → lookup rel (scan_setid t fs names) ≡ some (fs (t.inode_of rel)).mode
  unfolding scan_setid elem
  lookup-scan_setid [] m h = cc
  lookup-scan_setid (first ∷ names) m h =
      lookup_if (loses_mode (fs (t.inode_of first))) rel first _ _
      ∙ elim (Bool-cases (str_eq first rel)) [
        | inl e ↦ rw ((eq_iff first rel).0 e, h, eq_refl rel) refl
        | inr e ↦ ground (arith, e, eq_iff rel first, eq_iff first rel, lookup-scan_setid names)
      ]

-- A journalled list knows the first mode of every entry of the tree that a chown would change.
abbrev pub Knows : Tree → Fs → Dict ℕ → Type 0
Knows t fs₀ setid =
    (rel : String)
    → elem rel t.names ≡ true
    → (lookup rel setid ≡ some (fs₀ (t.inode_of rel)).mode)
      ⊎ ((lookup rel setid ≡ none) × (loses_mode (fs₀ (t.inode_of rel)) ≡ false))

regular-loses :
    (st : Inode) → is_regular st.kind ≡ true → loses_mode st ≡ false → loses st.mode ≡ false
unfolding loses_mode
regular-loses st r h = ground arith

module _ (offset : ℕ) (direction : Direction) (t : Tree) (fs₀ fs : Fs)
    (s : StageFs offset direction fs₀ fs) where
  still_keeps : (i : ℕ) → loses_mode (fs₀ i) ≡ false → loses_mode (fs i) ≡ false
  still_keeps i h = ground (arith, loses_mode-Stage offset direction fs₀ fs (fs₀ i) (fs i) (s i))

  pub merge-Knows :
      (a setid : Dict ℕ)
      → ((rel : String) → lookup rel a ≡ none)
      → Knows t fs₀ setid
      → Knows t fs₀ (merge (merge a (scan_setid t fs t.names)) setid)
  merge-Knows a setid empty known rel m = elim (known rel m) [
    | inl h ↦ inl (lookup-merge-some rel _ setid h)
    | inr (h, keeps) ↦ inr (
      lookup-merge-none rel _ setid h
          ∙ lookup-merge-none rel a _
              (lookup-scan_setid-none t fs rel t.names (still_keeps _ keeps))
          ∙ empty rel,
      keeps,
    )
  ]

  -- The modes that a walk is given are those that it should put back.
  pub Knows-Known :
      (setid : Dict ℕ)
      → Knows t fs₀ setid
      → (rel : String) → elem rel t.names ≡ true
      → Known (fs₀ (t.inode_of rel)) (lookup rel (merge (scan_setid t fs t.names) setid))
  Knows-Known setid known rel m = elim (known rel m) [
    | inl h ↦ inl (lookup-merge-some rel _ setid h)
    | inr (h, keeps) ↦ inr (
      lookup-merge-none rel _ setid h
          ∙ lookup-scan_setid-none t fs rel t.names (still_keeps _ keeps),
      λ r. cleared_of_keeping _ (regular-loses (fs₀ (t.inode_of rel)) r keeps),
    )
  ]

pub scan-Knows : (t : Tree) (fs : Fs) → Knows t fs (merge (merge [] (scan_setid t fs t.names)) [])
unfolding merge
scan-Knows t fs rel m = elim (Bool-cases (loses_mode (fs (t.inode_of rel)))) [
  | inl e ↦ inl (lookup-merge-some rel [] _ (lookup-scan_setid t fs rel t.names m e))
  | inr e ↦
      inr
        (lookup-merge-none rel [] _ (lookup-scan_setid-none t fs rel t.names e) ∙ lookup-nil rel, e)
]
