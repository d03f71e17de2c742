-- ===== src/Cve/Kev/Laws.antt =====
-- A refresh keeps the cache or replaces it by what the feed lists; a stale catalog knows nothing.
use boxmunge.Prelude.{
  String, ◌≡◌, refl, ap, ◌∙◌, inl, inr, Bool, true, false, Option, none, some, List, [],
  get_or_else, subst, sym, ◌||◌, elem-any, any-insert_sorted, is_some, insert_sorted, sorted,
  str_le, ◌∷◌, ◌^◌, ◌<◌, ◌↔◌, arith, eq_iff, eq_refl, Bool-cases, length, str_eq, elem, Value,
  Instant, ◌⊎◌, elem-sorted,
}
use boxmunge.Cve.Kev.Sanity.{IsSane, sane_lem}
use boxmunge.Cve.Kev.{
  KevCatalog, KevRefresh, Implausible, is_known_exploited, check_catalog_sanity, feed_ids, distinct,
  catalog_ids, vulnerabilities, store, refresh_from, refresh_kev,
}

elem-distinct : (x : String) (xs : List String) → elem x (distinct xs) ≡ elem x xs
unfolding distinct elem
elem-distinct x [] = refl
elem-distinct x (y ∷ ys) = elim (Bool-cases (str_eq x y)) [
  | inl e ↦
      let (to, _) = eq_iff x y in ground (arith, eq_refl x, ap (λ t. elem t (distinct ys)) (to e))
  | inr e ↦ ground (arith, elem-distinct x ys)
]

elem-catalog_ids :
    (x : String) (vulns : List Value) → elem x (catalog_ids vulns) ≡ elem x (feed_ids vulns)
unfolding catalog_ids
elem-catalog_ids x vulns =
    elem-sorted x (distinct (feed_ids vulns)) ∙ elem-distinct x (feed_ids vulns)

fresh_known :
    (now : Instant) (ids : List String) (cve : String)
    → is_known_exploited (record { cve_ids = ids; fetched_at = some now }) now.date cve
      ≡ elem cve ids
unfolding is_known_exploited
fresh_known now ids cve = ground arith

-- The list of the feed, where there is one.
abbrev pub feed_list : Option Value → Option (List Value)
feed_list none = none
feed_list (some payload) = vulnerabilities payload

-- The feed answered with a list of plausibly many CVEs.
abbrev pub IsPlausible : KevCatalog → Option (List Value) → Type 0
IsPlausible cached o =
    (vulns : List Value) × (o ≡ some vulns)
    × IsSane (length (catalog_ids vulns)) (length cached.cve_ids)

abbrev pub HasNoRepeats : List String → Type 0
HasNoRepeats [] = Unit
HasNoRepeats (x ∷ xs) = (elem x xs ≡ false) × HasNoRepeats xs

distinct-HasNoRepeats : (xs : List String) → HasNoRepeats (distinct xs)
unfolding distinct
distinct-HasNoRepeats [] = tt
distinct-HasNoRepeats (x ∷ xs) = elim (Bool-cases (elem x (distinct xs))) [
  | inl e ↦ rw e (distinct-HasNoRepeats xs)
  | inr e ↦ rw e (e, distinct-HasNoRepeats xs)
]

other : (y x : String) → str_eq x y ≡ false → (str_eq y x || false) ≡ false
other y x e =
    let (to, _) = eq_iff y x in
    elim (Bool-cases (str_eq y x)) [
      | inl q ↦
          let same = to q in ground (arith, subst (λ z. str_eq z y ≡ false) (sym same) e, eq_refl y)
      | inr q ↦ ground arith
    ]

elem-insert_sorted :
    (y x : String) (xs : List String)
    → elem y (insert_sorted str_le x xs) ≡ (str_eq y x || elem y xs)
elem-insert_sorted y x xs =
    elem-any y (insert_sorted str_le x xs)
    ∙ (any-insert_sorted str_le (str_eq y) x xs ∙ ap (λ b. str_eq y x || b) (sym (elem-any y xs)))

insert_sorted-HasNoRepeats :
    (x : String) (xs : List String)
    → elem x xs ≡ false
    → HasNoRepeats xs
    → HasNoRepeats (insert_sorted str_le x xs)
unfolding insert_sorted elem
insert_sorted-HasNoRepeats x [] e t = (e, tt)
insert_sorted-HasNoRepeats x (y ∷ ys) e (new, t) = elim (Bool-cases (str_le x y)) [
  | inl le ↦ rw le (e, (new, t))
  | inr le ↦
      let differs : str_eq x y ≡ false = ground arith in
      let absent : elem x ys ≡ false = ground arith in
      let later : elem y (insert_sorted str_le x ys) ≡ false =
        elem-insert_sorted y x ys ∙ rw new (other y x differs) in
      rw le (later, insert_sorted-HasNoRepeats x ys absent t)
]

sorted-HasNoRepeats : (xs : List String) → HasNoRepeats xs → HasNoRepeats (sorted str_le xs)
unfolding sorted
sorted-HasNoRepeats [] t = tt
sorted-HasNoRepeats (x ∷ xs) (new, t) =
    insert_sorted-HasNoRepeats x (sorted str_le xs) (elem-sorted x xs ∙ new)
      (sorted-HasNoRepeats xs t)

-- The cache is replaced: each of its CVEs stands there once, and that day those of the feed are
-- known, and no other.
abbrev pub Replaced : Instant → List Value → KevRefresh × KevCatalog → Type 0
Replaced now vulns (result, after) =
    (result.updated ≡ true)
    × (result.rejected ≡ none)
    × HasNoRepeats after.cve_ids
    × ((cve : String) → is_known_exploited after now.date cve ≡ elem cve (feed_ids vulns))

abbrev pub WithReason : KevCatalog → KevRefresh × KevCatalog → Type 0
WithReason cached (result, after) =
    (result.updated ≡ false) × (is_some result.rejected ≡ true) × (after ≡ cached)

abbrev pub Failed : KevCatalog → KevRefresh × KevCatalog → Type 0
Failed cached (result, after) =
    (result.updated ≡ false) × (result.rejected ≡ none) × (after ≡ cached)

-- What became of a feed that answered.
abbrev pub Answered :
    Bool → Instant → KevCatalog → Option (List Value) → KevRefresh × KevCatalog → Type 0
Answered disk now cached o r =
    ((disk ≡ true)
      × ((vulns : List Value) × (o ≡ some vulns)
          × IsSane (length (catalog_ids vulns)) (length cached.cve_ids)
          × Replaced now vulns r))
    ⊎ (((disk ≡ false) × IsPlausible cached o × Failed cached r)
        ⊎ ((¬ IsPlausible cached o) × WithReason cached r))

store_outcome :
    (disk : Bool) (now : Instant) (cached : KevCatalog) (vulns : List Value)
    (o : Option Implausible)
    → ((o ≡ none) ↔ IsSane (length (catalog_ids vulns)) (length cached.cve_ids))
    → Answered disk now cached (some vulns) (store disk now cached (catalog_ids vulns) o)
unfolding catalog_ids
store_outcome disk now cached vulns (some why) (to, from) = inr (
    inr (
      λ (v, e, sane).
          let same : vulns ≡ v = ap (λ o. get_or_else o vulns) e in
          let no = from (
            subst (λ u. IsSane (length (catalog_ids u)) (length cached.cve_ids)) (sym same) sane) in
          cc,
      (refl, refl, refl),
    ))
store_outcome false now cached vulns none (to, from) =
    inr (inl (refl, (vulns, refl, to refl), (refl, refl, refl)))
store_outcome true now cached vulns none (to, from) =
    inl (refl, (vulns, refl, to refl, (refl, refl, once, known)))
  where
    once : HasNoRepeats (catalog_ids vulns)
    once = sorted-HasNoRepeats (distinct (feed_ids vulns)) (distinct-HasNoRepeats (feed_ids vulns))

    known :
        (cve : String)
        → is_known_exploited
            (record { cve_ids = catalog_ids vulns; fetched_at = some now })
            now.date
            cve
          ≡ elem cve (feed_ids vulns)
    known cve = fresh_known now (catalog_ids vulns) cve ∙ elem-catalog_ids cve vulns

refresh_from_outcome :
    (disk : Bool) (now : Instant) (cached : KevCatalog) (o : Option (List Value))
    → length cached.cve_ids < 2 ^ 40
    → Answered disk now cached o (refresh_from disk now cached o)
refresh_from_outcome disk now cached none small = inr (inr (λ (v, e, sane). cc, (refl, refl, refl)))
refresh_from_outcome disk now cached (some vulns) small =
    let size = length (catalog_ids vulns) in
    let old = length cached.cve_ids in
    store_outcome disk now cached vulns (check_catalog_sanity size old) (sane_lem size old small)

-- A refresh replaces the cached catalog exactly when the feed has a list, of a thousand different
-- CVEs at least and at most a twentieth fewer than are cached, and the file can be written; each of
-- its CVEs then stands in the catalog once, and that day a CVE is known to be exploited exactly
-- when the feed lists it. An answer without such a list is rejected with a reason; without an
-- answer, or where the write fails, there is no update and no reason. In all three the cached
-- catalog stays. The cached catalog has fewer than 2 ^ 40 CVEs.
pub refresh_kev_outcome :
    (disk : Bool) (now : Instant) (feed : Option Value) (cached : KevCatalog)
    → length cached.cve_ids < 2 ^ 40
    → let r = refresh_kev disk now feed cached in
      ((feed ≡ none) × Failed cached r)
      ⊎ ((is_some feed ≡ true) × Answered disk now cached (feed_list feed) r)
unfolding refresh_kev
refresh_kev_outcome disk now none cached small = inl (refl, (refl, refl, refl))
refresh_kev_outcome disk now (some payload) cached small =
    inr (refl, refresh_from_outcome disk now cached (vulnerabilities payload) small)
