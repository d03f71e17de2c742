-- ===== src/Release/Selection/Newest.antt =====
-- src/boxmunge/release_selection.py, `_newest`: what the loop returns.
use boxmunge.Prelude.{
  ◌≡◌, refl, sym, ◌∙◌, subst, ◌⊎◌, inl, inr, Bool, true, false, ◌&&◌, Option, none, some, List, [],
  ◌∷◌, arith, if◌then◌else◌,
}
use boxmunge.Release.Selection.{Release, newer, newest_from}
use boxmunge.Release.Selection.Versions.{newer_asym, newer_irrefl, newer_neg_trans}

pub data In (r : Release) : List Release → Type 0 where
  first : {rs : List Release} → In r (r ∷ rs)
  later : {x : Release} {rs : List Release} → In r rs → In r (x ∷ rs)

pub in_cons :
    (P : Release → Type 0) (x : Release) (rs : List Release)
    → P x
    → ((y : Release) → In y rs → P y)
    → (y : Release) → In y (x ∷ rs)
    → P y
in_cons P x rs p rest y first = p
in_cons P x rs p rest y (later i) = rest y i

pub not_in_nil : {x : Release} → In x [] → ⊥
not_in_nil i = elim i [ ]

abbrev pub NotNewer : Option Release → Release → Type 0
NotNewer none r = Unit
NotNewer (some b) r = newer b.version r.version ≡ false

some_inj : {a b : Release} → some a ≡ some b → a ≡ b
some_inj h = cc

start_NotNewer : (best : Option Release) (r : Release) → best ≡ some r → NotNewer best r
start_NotNewer none r h = tt
start_NotNewer (some b) r h =
    subst (λ (x : Release). newer b.version x.version ≡ false) (some_inj h) (newer_irrefl b.version)

module _ (kept : Release → Bool) where
  -- the loop's body
  abbrev pub choose : Option Release → Release → Option Release
  choose none x = if kept x then some x else none
  choose (some b) x = if kept x && newer x.version b.version then some x else some b

  newest_from-cons :
      (best : Option Release) (x : Release) (rs : List Release)
      → newest_from best kept (x ∷ rs) ≡ newest_from (choose best x) kept rs
  unfolding newest_from
  newest_from-cons none x rs = refl
  newest_from-cons (some b) x rs = refl

  choose-cases :
      (best : Option Release) (x : Release)
      → ((choose best x ≡ some x) × (kept x ≡ true)) ⊎ (choose best x ≡ best)
  choose-cases none x = ground arith
  choose-cases (some b) x = ground arith

  choose-NotNewer :
      (best : Option Release) (x r : Release)
      → NotNewer (choose best x) r
      → NotNewer best r × (kept x ≡ true → newer x.version r.version ≡ false)
  choose-NotNewer none x r h = ground arith
  choose-NotNewer (some b) x r h = ground (
    arith,
    newer_asym x.version b.version,
    newer_neg_trans b.version x.version r.version,
    newer_neg_trans x.version b.version r.version,
  )

  choose-none :
      (best : Option Release) (x : Release)
      → choose best x ≡ none
      → (best ≡ none) × (kept x ≡ false)
  choose-none none x h = ground arith
  choose-none (some b) x h = ground arith

  -- What the loop gives is the best before it, or a release that is kept.
  pub newest_from-kept :
      (best : Option Release) (rs : List Release) (r : Release)
      → newest_from best kept rs ≡ some r
      → (best ≡ some r) ⊎ (In r rs × (kept r ≡ true))
  unfolding newest_from
  newest_from-kept best [] r h = inl h
  newest_from-kept best (x ∷ rs) r h =
      elim (newest_from-kept (choose best x) rs r (sym (newest_from-cons best x rs) ∙ h)) [
        | inl e ↦ elim (choose-cases best x) [
          | inl (c, k) ↦
              let same : x ≡ r = some_inj (sym c ∙ e) in
              inr (subst (λ y. In y (x ∷ rs) × (kept y ≡ true)) same (first, k))
          | inr c ↦ inl (sym c ∙ e)
        ]
        | inr (i, k) ↦ inr (later i, k)
      ]

  -- None of the best before it and of the releases that are kept is newer.
  pub newest_from-max :
      (best : Option Release) (rs : List Release) (r : Release)
      → newest_from best kept rs ≡ some r
      → NotNewer best r
        × ((x : Release) → In x rs → kept x ≡ true → newer x.version r.version ≡ false)
  unfolding newest_from
  newest_from-max best [] r h = (start_NotNewer best r h, λ x i. absurd (not_in_nil i))
  newest_from-max best (x ∷ rs) r h =
      let (c, rest) = newest_from-max (choose best x) rs r (sym (newest_from-cons best x rs) ∙ h) in
      let (b, k) = choose-NotNewer best x r c in
      (b, λ y i. in_cons (λ z. kept z ≡ true → newer z.version r.version ≡ false) x rs k rest y i)

  pub newest_from-none :
      (best : Option Release) (rs : List Release)
      → newest_from best kept rs ≡ none
      → (best ≡ none) × ((x : Release) → In x rs → kept x ≡ false)
  unfolding newest_from
  newest_from-none best [] h = (h, λ x i. absurd (not_in_nil i))
  newest_from-none best (x ∷ rs) h =
      let (c, rest) = newest_from-none (choose best x) rs (sym (newest_from-cons best x rs) ∙ h) in
      let (b, k) = choose-none best x c in (b, λ y i. in_cons (λ z. kept z ≡ false) x rs k rest y i)
