-- ===== src/Cve/Breaker.antt =====
-- src/boxmunge/cve/breaker.py: the fleet's circuit breaker on new quarantines.
pub mod Outcomes
pub mod Laws
pub mod Hysteresis
use boxmunge.Prelude.{
  ℕ, ◌+◌, max, String, Bool, not, ◌&&◌, ◌||◌, List, [], ◌∷◌, ◌++◌, ltb, leb, if◌then◌else◌, length,
  keep, Dict, keys, values, elem, subset, float_times, ceil_of,
}

pub record Candidate : Type 0 where
  pub cves : List String
  pub kev : Bool

pub record Verdict : Type 0 where
  pub applied : List String
  pub held : Dict (List String)
  pub newly_held : List String
  pub tripped : Bool

-- The double TRIP_SHARE = 0.34 is trip_share / 2 ^ 54.
abbrev trip_share : ℕ
trip_share = 6124895493223875

abbrev pub min_trip : ℕ
min_trip = 2

unfoldable pub trip_threshold : ℕ → ℕ
unfolding float_times
trip_threshold projects_scanned =
    max min_trip (ceil_of 54 (float_times trip_share projects_scanned))

-- The sets of CVEs are lists, read by `elem` and `subset` only.
abbrev pub union : List (List String) → List String
union [] = []
union (s ∷ rest) = s ++ union rest

abbrev pub cves_of : Dict Candidate → Dict (List String)
cves_of [] = []
cves_of ((p, c) ∷ rest) = (p, c.cves) ∷ cves_of rest

-- per_cve[cve], the number of the sets that hold the CVE, and max(per_cve.values())
unfoldable pub per_cve : List (List String) → String → ℕ
per_cve fresh cve = length (keep (elem cve) fresh)

abbrev pub most : (String → ℕ) → List String → ℕ
most f [] = 0
most f (x ∷ rest) = max (f x) (most f rest)

abbrev pub is_kev : String × Candidate → Bool
is_kev (p, c) = c.kev

abbrev pub is_still_held : List String → String × Candidate → Bool
is_still_held held_cves (p, c) = not c.kev && subset c.cves held_cves

abbrev pub is_fresh : List String → String × Candidate → Bool
is_fresh held_cves (p, c) = not c.kev && not (subset c.cves held_cves)

unfoldable pub fresh_trips : ℕ → Dict (List String) → Bool
unfolding per_cve
fresh_trips threshold fresh =
    ltb 0 (length fresh)
    && (leb threshold (length fresh)
        || leb threshold (most (per_cve (values fresh)) (union (values fresh))))

unfoldable pub decide : Dict Candidate → ℕ → Dict (List String) → Verdict
unfolding fresh_trips
decide candidates projects_scanned already_held =
    let held_cves = union (values already_held) in
    let applied = keys (keep is_kev candidates) in
    let still_held = cves_of (keep (is_still_held held_cves) candidates) in
    let fresh = cves_of (keep (is_fresh held_cves) candidates) in
    let tripped = fresh_trips (trip_threshold projects_scanned) fresh in
    record {
      applied = if tripped then applied else applied ++ keys fresh;
      held = if tripped then still_held ++ fresh else still_held;
      newly_held = if tripped then keys fresh else [];
      tripped = tripped;
    }
