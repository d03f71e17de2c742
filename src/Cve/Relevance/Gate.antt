-- ===== src/Cve/Relevance/Gate.antt =====
-- What the relevance gate exempts, and which runtimes it is given.
use mathlib.Core.Option.{some-injective}
use boxmunge.Prelude.{
  ℕ, String, ◌≡◌, refl, sym, ap, ◌∙◌, ◌≢◌, inl, inr, Bool, true, false, Option, none, some, List,
  [], ◌∷◌, map, arith, if◌then◌else◌, Bool-cases, Option-cases, any, Some, here, there, Dict,
  lookup, str_eq, elem, subset, Value, str, arr, codes, items_of, subset-elem, cons, list_of,
  items_of-list_of, nil,
}
use boxmunge.Cve.Scanner.{Finding, os}
use boxmunge.Cve.Relevance.{
  Glob, glob_match, accepted, effective_runtimes, first_family, infer_runtimes,
  irrelevant_ecosystem, trivy_type_to_ecosystem, runtime_families, valid_ecosystems, checked_texts,
  ecosystem_for_package, texts_of,
}

-- The family of the table whose patterns match the package.
abbrev pub IsFamily : String → List ℕ → Dict (List Glob) → Type 0
IsFamily eco name families =
    Some (λ (e, patterns). (e ≡ eco) × (any (λ pat. glob_match pat name) patterns ≡ true)) families

when-false :
    (b : Bool) (o : Option String) {eco : String}
    → (if b then none else o) ≡ some eco
    → o ≡ some eco
when-false true o h = cc
when-false false o h = h

first_family-IsFamily :
    (name : List ℕ) (families : Dict (List Glob)) (eco : String)
    → first_family name families ≡ some eco
    → IsFamily eco name families
unfolding first_family
first_family-IsFamily name [] eco h = cc
first_family-IsFamily name ((e, patterns) ∷ rest) eco h =
    elim (Bool-cases (any (λ pat. glob_match pat name) patterns)) [
      | inl m ↦ here (ground arith, m)
      | inr m ↦ there (first_family-IsFamily name rest eco (rw m at h))
    ]

ecosystem-IsFamily :
    (name : String) (eco : String)
    → ecosystem_for_package name ≡ some eco
    → IsFamily eco (codes name) runtime_families
unfolding ecosystem_for_package
ecosystem-IsFamily name eco h =
    first_family-IsFamily (codes name) runtime_families eco (when-false (str_eq name "") _ h)

-- The gate exempts a finding only if its package comes from the base image, belongs to a language
-- runtime of the table, and the project does not use that runtime.
pub irrelevant_ecosystem_sound :
    (f : Finding) (used : List String) (eco : String)
    → irrelevant_ecosystem f used ≡ some eco
    → (f.pkg_class ≡ os)
      × IsFamily eco (codes f.pkg_name) runtime_families
      × (elem eco used ≡ false)
unfolding irrelevant_ecosystem
irrelevant_ecosystem_sound f used eco h =
    let found : ecosystem_for_package f.pkg_name ≡ some eco = ground arith in
    (ground arith, ecosystem-IsFamily f.pkg_name eco found, ground arith)

-- A project that uses more runtimes has fewer findings exempted, and for the same reason.
irrelevant_ecosystem_antitone :
    (f : Finding) (used more : List String) (eco : String)
    → subset used more ≡ true
    → irrelevant_ecosystem f more ≡ some eco
    → irrelevant_ecosystem f used ≡ some eco
unfolding irrelevant_ecosystem
irrelevant_ecosystem_antitone f used more eco h k = ground (arith, subset-elem eco used more)

texts_of-eq : (vs : List Value) (ss : List String) → texts_of vs ≡ some ss → vs ≡ map str ss
texts_of-eq [] ss h = ap (map str) (some-injective [] ss h)
texts_of-eq (str s ∷ vs) ss h = elim (Option-cases (texts_of vs)) [
  | inl e ↦ cc (rw e at h)
  | inr (ts, e) ↦
      ap (◌∷◌ (str s)) (texts_of-eq vs ts e) ∙ ap (map str) (some-injective (s ∷ ts) ss (rw e at h))
]
texts_of-eq (_ ∷ vs) ss h = cc

accepted-injective : (xs ys : List String) → accepted xs ≡ accepted ys → xs ≡ ys
accepted-injective xs ys h = cc

checked_texts-accepted :
    (o : Option (List String)) (used : List String)
    → checked_texts o ≡ accepted used
    → (o ≡ some used) × (subset used valid_ecosystems ≡ true)
checked_texts-accepted none used h = cc
checked_texts-accepted (some xs) used h = elim (Bool-cases (subset xs valid_ecosystems)) [
  | inl e ↦ let p : xs ≡ used = accepted-injective xs used (rw e at h) in (ap some p, rw p at e)
  | inr e ↦ cc (rw e at h)
]

-- A declaration that is accepted is the declared list itself: it is not empty, and names only
-- ecosystems of the vocabulary. A typo or an empty list is never an exemption.
effective_runtimes_declared :
    (lang_types : List String) (declared : Value) (used : List String)
    → effective_runtimes lang_types (some declared) ≡ accepted used
    → (declared ≡ arr (items_of (map str used)))
      × (used ≢ [])
      × (subset used valid_ecosystems ≡ true)
unfolding effective_runtimes
effective_runtimes_declared lang_types (arr nil) used h = cc
effective_runtimes_declared lang_types (arr (cons v xs)) used h =
    let (t, valid) = checked_texts-accepted (texts_of (v ∷ list_of xs)) used h in
    let e : v ∷ list_of xs ≡ map str used = texts_of-eq (v ∷ list_of xs) used t in
    (
      sym (ap arr (items_of-list_of (cons v xs))) ∙ ap (λ vs. arr (items_of vs)) e,
      λ p. cc (e, ap (map str) p),
      valid,
    )
effective_runtimes_declared lang_types _ used h = cc

abbrev pub opt_eq : String → Option String → Bool
opt_eq eco none = false
opt_eq eco (some e) = str_eq eco e

-- What is inferred is what the recognised types name, and nothing else.
elem-infer_runtimes :
    (eco : String) (lang_types : List String)
    → elem eco (infer_runtimes lang_types)
      ≡ any (λ t. opt_eq eco (lookup t trivy_type_to_ecosystem)) lang_types
unfolding infer_runtimes elem
elem-infer_runtimes eco [] = refl
elem-infer_runtimes eco (t ∷ rest) = elim (Option-cases (lookup t trivy_type_to_ecosystem)) [
  | inl e ↦ rw e (elem-infer_runtimes eco rest)
  | inr (e, p) ↦ rw p (rw (elem-infer_runtimes eco rest))
]
