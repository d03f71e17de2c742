-- ===== src/Cve/Scanner/Vectors/Priority.antt =====
-- src/boxmunge/cve/scanner.py, `_parse_attack_vector`: which source gives the attack vector.
use boxmunge.Prelude.{
  ℕ, ◌<◌, String, ◌≡◌, refl, sym, ap, ◌∙◌, subst, ◌⊎◌, inl, inr, Bool, true, false, not, ◌&&◌, ◌||◌,
  none, some, List, [], ◌∷◌, arith, eq_iff, ltb, ◌==◌, if◌then◌else◌, Bool-cases, Option-cases,
  keep, All, Dict, keys, str_eq, str_le, elem, sorted, IsSorted, Value, obj, All-sorted, Fields,
  str_le_total, dict_of, sorted-IsSorted, str_le_trans,
}
use boxmunge.Cve.Scanner.{AttackVector}
use boxmunge.Cve.Scanner.Vectors.{
  source_av, first_av, cvss_source_priority, ordered_sources, parse_attack_vector,
}
use boxmunge.Cve.Scanner.Vectors.Laws.{
  missing_source, unordered_missing, parse_attack_vector-none_iff,
}

-- NVD's rating comes first, then Red Hat's, then GitHub's, then any other.
abbrev pub source_rank : String → ℕ
source_rank s =
    if str_eq s "nvd" then 0 else if str_eq s "redhat" then 1 else if str_eq s "ghsa" then 2 else 3

-- One source is asked before another; the others by name.
abbrev pub IsAskedBefore : String → String → Type 0
IsAskedBefore a b =
    (source_rank a < source_rank b)
    ⊎ ((source_rank a ≡ 3) × (source_rank b ≡ 3) × (str_le b a ≡ false))

abbrev asked_le : String → String → Bool
asked_le a b = ltb (source_rank a) (source_rank b) || (source_rank a == source_rank b && str_le a b)

asked_le-not_before : (a b : String) → asked_le a b ≡ true → ¬ IsAskedBefore b a
asked_le-not_before a b h k = elim k [ inl lt ↦ ground arith | inr (p, q, r) ↦ ground arith ]

asked_le_refl : (a : String) → asked_le a a ≡ true
asked_le_refl a = ground (arith, str_le_total a a)

abbrev IsOther : String → Type 0
IsOther s = source_rank s ≡ 3

IsOther-rank : (s : String) → not (elem s cvss_source_priority) ≡ true → IsOther s
unfolding elem
IsOther-rank s h = ground arith

keep-IsOther : (xs : List String) → All IsOther (keep (λ k. not (elem k cvss_source_priority)) xs)
keep-IsOther [] = tt
keep-IsOther (x ∷ xs) = elim (Bool-cases (not (elem x cvss_source_priority))) [
  | inl e ↦ rw e (IsOther-rank x e, keep-IsOther xs)
  | inr e ↦ rw e (keep-IsOther xs)
]

priority_first :
    (a : String) (xs : List String)
    → source_rank a < 3
    → All IsOther xs
    → All (λ y. asked_le a y ≡ true) xs
priority_first a [] h t = tt
priority_first a (x ∷ xs) h (e, t) = (ground arith, priority_first a xs h t)

others_after :
    (x : String) (xs : List String)
    → IsOther x
    → All IsOther xs
    → All (λ y. str_le x y ≡ true) xs
    → All (λ y. asked_le x y ≡ true) xs
others_after x [] e t a = tt
others_after x (y ∷ xs) e (f, t) (h, a) = (ground arith, others_after x xs e t a)

others-IsSorted : (xs : List String) → All IsOther xs → IsSorted str_le xs → IsSorted asked_le xs
others-IsSorted [] t a = tt
others-IsSorted (x ∷ xs) (e, t) (h, a) = (others_after x xs e t h, others-IsSorted xs t a)

ordered_sources-IsSorted : (m : Dict Value) → IsSorted asked_le (ordered_sources m)
ordered_sources-IsSorted m =
    let others = keep (λ k. not (elem k cvss_source_priority)) (keys m) in
    let last = All-sorted str_le IsOther others (keep-IsOther (keys m)) in
    let tail =
      others-IsSorted (sorted str_le others) last
        (sorted-IsSorted str_le str_le_total str_le_trans others) in
    let nvd = priority_first "nvd" (sorted str_le others) (omega arith) last in
    let redhat = priority_first "redhat" (sorted str_le others) (omega arith) last in
    let ghsa = priority_first "ghsa" (sorted str_le others) (omega arith) last in
    ((refl, (refl, nvd)), ((refl, redhat), (ghsa, tail)))

-- A source has the attack vector, and none of those asked before it has one.
abbrev pub IsFirst : Dict Value → AttackVector → String → Type 0
IsFirst cvss av s =
    (source_av cvss s ≡ some av) × ((t : String) → IsAskedBefore t s → source_av cvss t ≡ none)

not_before_later :
    (x : String) (xs : List String) (t : String)
    → All (λ y. asked_le x y ≡ true) xs
    → elem t (x ∷ xs) ≡ true
    → asked_le x t ≡ true
unfolding elem
not_before_later x xs t a i = elim (Bool-cases (str_eq t x)) [
  | inl e ↦
      let (to, _) = eq_iff t x in subst (λ z. asked_le x z ≡ true) (sym (to e)) (asked_le_refl x)
  | inr e ↦ among xs a (ground arith)
]
  where
    among :
        (ys : List String)
        → All (λ y. asked_le x y ≡ true) ys
        → elem t ys ≡ true
        → asked_le x t ≡ true
    among [] a i = cc
    among (y ∷ ys) (h, a) i = elim (Bool-cases (str_eq t y)) [
      | inl e ↦ let (to, _) = eq_iff t y in subst (λ z. asked_le x z ≡ true) (sym (to e)) h
      | inr e ↦ among ys a (ground arith)
    ]

found_first :
    (cvss : Dict Value) (xs : List String) (av : AttackVector)
    → IsSorted asked_le xs
    → first_av cvss xs ≡ some av
    → (s : String) × (source_av cvss s ≡ some av)
      × ((t : String) → elem t xs ≡ true → IsAskedBefore t s → source_av cvss t ≡ none)
unfolding first_av elem
found_first cvss [] av a h = cc
found_first cvss (x ∷ xs) av (le, a) h = elim (Option-cases (source_av cvss x)) [
  | inl e ↦
      let (s, got, before) = found_first cvss xs av a (ground arith) in
      (
        s,
        got,
        λ t i b. elim (Bool-cases (str_eq t x)) [
          | inl q ↦ let (to, _) = eq_iff t x in ap (source_av cvss) (to q) ∙ e
          | inr q ↦ before t (ground arith) b
        ],
      )
  | inr (v, e) ↦
      (x, ground arith, λ t i b. absurd (asked_le-not_before x t (not_before_later x xs t le i) b))
]

none_before :
    (m : Dict Value) (t s : String)
    → (elem t (ordered_sources m) ≡ true → IsAskedBefore t s → source_av m t ≡ none)
    → IsAskedBefore t s
    → source_av m t ≡ none
none_before m t s before b = elim (Bool-cases (elem t (ordered_sources m))) [
  | inl i ↦ before i b
  | inr i ↦ missing_source m t (unordered_missing m t i)
]

-- The attack vector of a CVSS block is that of the first source that has a readable one, NVD asked
-- first, then Red Hat, GitHub and the others by name; there is none exactly where no source has one.
pub parse_attack_vector-priority :
    (cvss : Fields)
    → let m = dict_of cvss in
      let found = parse_attack_vector (some (obj cvss)) in
      ((found ≡ none) × ((s : String) → source_av m s ≡ none))
      ⊎ ((av : AttackVector) × (s : String) × (found ≡ some av) × IsFirst m av s)
unfolding parse_attack_vector
parse_attack_vector-priority cvss =
    let m = dict_of cvss in
    elim (Option-cases (first_av m (ordered_sources m))) [
      | inl e ↦ let (to, _) = parse_attack_vector-none_iff cvss in inl (e, to e)
      | inr (av, e) ↦
          let (s, got, before) =
            found_first m (ordered_sources m) av (ordered_sources-IsSorted m) e in
          inr (av, s, e, (got, λ t b. none_before m t s (before t) b))
    ]
