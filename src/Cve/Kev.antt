-- ===== src/Cve/Kev.antt =====
-- src/boxmunge/cve/kev.py: the catalog of exploited CVEs, its staleness, and its refresh. The cache
-- is what load_kev makes of the file; the feed is the parsed payload, absent on a network failure.
pub mod Sanity
pub mod Laws
use boxmunge.Prelude.{
  ℕ, zero, suc, ◌+◌, ◌-◌, ◌*◌, ◌/◌, ◌%◌, ◌^◌, ◌≤◌, ◌<◌, min, max, String, ◌≡◌, refl, sym, ap, ◌∙◌,
  subst, ◌≢◌, ◌↔◌, ◌⊎◌, inl, inr, Bool, true, false, not, ◌&&◌, ◌||◌, Option, none, some, List, [],
  ◌∷◌, ◌++◌, map, Perm, arith, eq_iff, eq_refl, ltb, leb, ◌==◌, if◌then◌else◌, Bool-cases,
  Option-cases, is_some, get_or_else, length, any, all, keep, All, Some, here, there, Dict, lookup,
  insert, keys, values, str_eq, str_le, elem, subset, sorted, insert_sorted, IsSorted, Value, null,
  bool, int, float, str, day, instant, arr, obj, Date, Instant, date_lt, as_dict, dict_of,
  float_times, to_ordinal, as_list,
}

pub record KevCatalog : Type 0 where
  pub cve_ids : List String
  pub fetched_at : Option Instant

abbrev pub kev_max_age_days : ℕ
kev_max_age_days = 8

abbrev pub kev_min_entries : ℕ
kev_min_entries = 1000

abbrev max_future_days : ℕ
max_future_days = 1

-- `(today - fetched).days`, over the maximum or under the least of a fetch in the future
abbrev too_old : ℕ → ℕ → Bool
too_old today fetched =
    ltb (fetched + kev_max_age_days) today || ltb (today + max_future_days) fetched

-- KevCatalog.is_stale, with the default maximum
unfoldable pub is_stale : KevCatalog → Date → Bool
is_stale catalog today = elim catalog.fetched_at [
  | none ↦ true
  | some t ↦ too_old (to_ordinal today) (to_ordinal t.date)
]

-- KevCatalog.is_known_exploited, with `today` given
unfoldable pub is_known_exploited : KevCatalog → Date → String → Bool
unfolding is_stale
is_known_exploited catalog today cve_id =
    if is_stale catalog today then false else elem cve_id catalog.cve_ids

-- load_kev, where there is no readable document
abbrev pub no_catalog : KevCatalog
no_catalog = record { cve_ids = []; fetched_at = none }

-- Why a refresh was rejected.
pub data Implausible : Type 0 where
  malformed : Implausible
  below_floor shrunk : ℕ → Implausible

pub record KevRefresh : Type 0 where
  pub updated : Bool
  pub rejected : Option Implausible

-- The double 1 - KEV_MAX_SHRINK = 0.95 is kept_share / 2 ^ 52.
abbrev pub kept_share : ℕ
kept_share = 4278419646001971

-- new_count < cached_count * (1 - KEV_MAX_SHRINK)
unfoldable pub shrinks : ℕ → ℕ → Bool
unfolding float_times
shrinks new_count cached_count = ltb (new_count * 2 ^ 52) (float_times kept_share cached_count)

unfoldable pub check_catalog_sanity : ℕ → ℕ → Option Implausible
unfolding shrinks
check_catalog_sanity new_count cached_count =
    if ltb new_count kev_min_entries
    then some (below_floor new_count)
    else if ltb 0 cached_count && shrinks new_count cached_count
    then some (shrunk new_count)
    else none

-- the IDs of the feed's entries that are mappings with a text under cveID
abbrev id_of : Option Value → List String
id_of (some (str s)) = s ∷ []
id_of _ = []

abbrev entry_ids : Option (Dict Value) → List String
entry_ids none = []
entry_ids (some entry) = id_of (lookup "cveID" entry)

unfoldable pub feed_ids : List Value → List String
feed_ids [] = []
feed_ids (v ∷ rest) = entry_ids (as_dict v) ++ feed_ids rest

-- {x for x in xs}: each text once
unfoldable pub distinct : List String → List String
distinct [] = []
distinct (x ∷ xs) = let rest = distinct xs in if elem x rest then rest else x ∷ rest

abbrev pub vulnerabilities : Value → Option (List Value)
vulnerabilities (obj fields) = elim (lookup "vulnerabilities" (dict_of fields)) [
  | none ↦ none
  | some v ↦ as_list v
]
vulnerabilities _ = none

-- sorted(set(ids))
unfoldable pub catalog_ids : List Value → List String
unfolding feed_ids distinct
catalog_ids vulns = sorted str_le (distinct (feed_ids vulns))

abbrev refused : KevCatalog → Implausible → KevRefresh × KevCatalog
refused cached why = (record { updated = false; rejected = some why }, cached)

-- the end of refresh_kev, with the verdict on the counts; the write may fail
abbrev pub store :
    Bool → Instant → KevCatalog → List String → Option Implausible → KevRefresh × KevCatalog
store disk now cached ids (some why) = refused cached why
store true now cached ids none =
    (record { updated = true; rejected = none }, record { cve_ids = ids; fetched_at = some now })
store false now cached ids none = (record { updated = false; rejected = none }, cached)

abbrev pub refresh_from :
    Bool → Instant → KevCatalog → Option (List Value) → KevRefresh × KevCatalog
refresh_from disk now cached none = refused cached malformed
refresh_from disk now cached (some vulns) =
    let ids = catalog_ids vulns in
    store disk now cached ids (check_catalog_sanity (length ids) (length cached.cve_ids))

-- refresh_kev: what it returns, and the catalog that the cache holds then
unfoldable pub refresh_kev : Bool → Instant → Option Value → KevCatalog → KevRefresh × KevCatalog
unfolding catalog_ids check_catalog_sanity
refresh_kev disk now none cached = (record { updated = false; rejected = none }, cached)
refresh_kev disk now (some payload) cached = refresh_from disk now cached (vulnerabilities payload)
