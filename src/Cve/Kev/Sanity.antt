-- ===== src/Cve/Kev/Sanity.antt =====
-- src/boxmunge/cve/kev.py, `check_catalog_sanity`: the rounded product of its test is exact enough.
use boxmunge.Prelude.{
  ℕ, ◌≤◌, ◌≡◌, refl, Bool, true, false, none, some, if◌then◌else◌, ◌&&◌, ltb, float_times,
  float_times_near, float_times_under, ◌+◌, ◌*◌, ◌^◌, ◌<◌, ◌↔◌, arith,
}
use boxmunge.Cve.Kev.{
  check_catalog_sanity, shrinks, kept_share, kev_min_entries, below_floor, shrunk,
}

-- A thousand CVEs at least, and at most a twentieth fewer than are cached.
abbrev pub IsSane : ℕ → ℕ → Type 0
IsSane new_count cached_count = (kev_min_entries ≤ new_count) × (19 * cached_count ≤ 20 * new_count)

no_shrink :
    (n c product : ℕ)
    → c < 2 ^ 40
    → 2 ^ 53 * (kept_share * c) ≤ 2 ^ 53 * product + kept_share * c
    → product ≤ n * 2 ^ 52
    → 19 * c ≤ 20 * n
no_shrink n c product small near le = omega arith

ltb-false : (a b : ℕ) → (ltb a b ≡ false) ↔ (b ≤ a)
ltb-false a b = (λ h. ground arith, λ h. ground arith)

shrinks_lem :
    (new_count cached_count : ℕ)
    → cached_count < 2 ^ 40
    → (shrinks new_count cached_count ≡ false) ↔ (19 * cached_count ≤ 20 * new_count)
unfolding shrinks
shrinks_lem n c small =
    let product = float_times kept_share c in
    let (to, from) = ltb-false (n * 2 ^ 52) product in
    (
      λ h. no_shrink n c product small (float_times_near kept_share c) (to h),
      λ h. from (float_times_under kept_share c n (omega arith) (omega arith)),
    )

IsSane-verdict :
    (n c : ℕ) (s : Bool)
    → ((s ≡ false) ↔ (19 * c ≤ 20 * n))
    → ((if ltb n kev_min_entries
          then some (below_floor n)
          else if ltb 0 c && s
          then some (shrunk n)
          else none)
        ≡ none)
      ↔ IsSane n c
IsSane-verdict n c false (to, from) = (λ h. (ground arith, to refl), λ (floor, kept). ground arith)
IsSane-verdict n c true (to, from) =
    (λ h. (ground arith, ground arith), λ (floor, kept). let no = from kept in ground (arith, no))

pub sane_lem :
    (new_count cached_count : ℕ)
    → cached_count < 2 ^ 40
    → (check_catalog_sanity new_count cached_count ≡ none) ↔ IsSane new_count cached_count
unfolding check_catalog_sanity
sane_lem n c small = IsSane-verdict n c (shrinks n c) (shrinks_lem n c small)
