-- ===== src/Tests/Kev.antt =====
-- The refresh of a small catalog by a feed of a thousand CVEs.
use boxmunge.Prelude.{
  ◌≡◌, refl, true, none, [], ◌∷◌, ◌++◌, elem, Instant, Value, some, List, map, str, float_times,
  excess, lookup, codes_le, arith, sorted, insert_sorted, obj, fields_of, arr, items_of, ◌⊎◌,
}
use Prim.Native.String.{String, ◌++◌ as ◌<>◌}
use boxmunge.Cve.Kev.{
  KevCatalog, refresh_kev, catalog_ids, distinct, feed_ids, check_catalog_sanity, shrinks,
}
use boxmunge.Cve.Kev.Laws.{refresh_kev_outcome, Failed, Answered, feed_list}

abbrev noon : Instant
noon = record { date = record { year = 2026; month = 6; day_of_month = 1 }; micros = 43200000000 }

abbrev cached : KevCatalog
cached = record { cve_ids = "CVE-2021-44228" ∷ []; fetched_at = some noon }

abbrev digits : List String
digits = "0" ∷ "1" ∷ "2" ∷ "3" ∷ "4" ∷ "5" ∷ "6" ∷ "7" ∷ "8" ∷ "9" ∷ []

abbrev with_each : List String → List String → List String
with_each [] suffixes = []
with_each (x ∷ xs) suffixes = map (λ s. x <> s) suffixes ++ with_each xs suffixes

abbrev thousand_ids : List String
thousand_ids = with_each ("CVE-2024-1" ∷ []) (with_each digits (with_each digits digits))

abbrev feed_entry : String → Value
feed_entry s = obj (fields_of (("cveID", str s) ∷ []))

abbrev full_feed : Value
full_feed = obj (fields_of (("vulnerabilities", arr (items_of (map feed_entry thousand_ids))) ∷ []))

full_feed_updates : (refresh_kev true noon (some full_feed) cached).0.updated ≡ true
unfolding refresh_kev catalog_ids distinct feed_ids check_catalog_sanity shrinks float_times excess
    sorted insert_sorted elem lookup codes_le
full_feed_updates = refl

refresh_kev_outcome_example :
    let r = refresh_kev true noon (some full_feed) cached in
    ((some full_feed ≡ none) × Failed cached r)
    ⊎ ((true ≡ true) × Answered true noon cached (feed_list (some full_feed)) r)
refresh_kev_outcome_example = refresh_kev_outcome true noon (some full_feed) cached (omega arith)
