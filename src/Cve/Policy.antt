-- ===== src/Cve/Policy.antt =====
-- src/boxmunge/cve/policy.py and policy_types.py: the decision on one finding. An explanation is
-- kept as the message that is chosen and what it is given (policy_explain.py words it).
pub mod Types
pub mod Project
pub mod Kev
pub mod Gates
pub mod Ladder
pub mod Postures
pub mod Fix
pub mod Subject
pub mod Verdicts
use boxmunge.Prelude.{
  ℕ, zero, suc, ◌+◌, ◌-◌, ◌*◌, ◌/◌, ◌%◌, ◌^◌, ◌≤◌, ◌<◌, min, max, String, ◌≡◌, refl, sym, ap, ◌∙◌,
  subst, ◌≢◌, ◌↔◌, ◌⊎◌, inl, inr, Bool, true, false, not, ◌&&◌, ◌||◌, Option, none, some, List, [],
  ◌∷◌, ◌++◌, map, Perm, arith, eq_iff, eq_refl, ltb, leb, ◌==◌, if◌then◌else◌, Bool-cases,
  Option-cases, is_some, get_or_else, length, any, all, keep, All, Some, here, there, Dict, lookup,
  insert, keys, values, str_eq, str_le, elem, subset, sorted, insert_sorted, IsSorted, Value, null,
  bool, int, float, str, day, instant, arr, obj, Date, Instant, date_lt,
}
use boxmunge.Cve.Scanner.{
  Finding, Severity, severity_rank, distro_severity, is_unknown, is_network, fix_available,
  VulnStatus, will_not_fix, fix_deferred, not_affected, under_investigation, AttackVector,
}
use boxmunge.Cve.Suppressions.{Suppression, find_active_suppression}
use boxmunge.Cve.Relevance.{irrelevant_ecosystem}
unfoldable pub use Types.*

-- The keyword arguments of evaluate_finding.
pub record Context : Type 0 where
  pub posture : Posture
  pub hardening_penalty : ℕ
  pub dangerously_disable_quarantine : Bool
  pub suppressions : List Suppression
  pub today : Date
  pub kev_lookup : String → Bool
  pub runtimes : Option (List String)

-- `_DEPRIORITIZED_STATUS`
abbrev pub is_deprioritized : VulnStatus → Bool
is_deprioritized will_not_fix = true
is_deprioritized fix_deferred = true
is_deprioritized not_affected = true
is_deprioritized under_investigation = true
is_deprioritized _ = false

-- `max` by rank: the first of the highest
abbrev pub higher : Severity → Severity → Severity
higher a b = if ltb (severity_rank a) (severity_rank b) then b else a

unfoldable pub highest : Severity → List Severity → Severity
highest acc [] = acc
highest acc (s ∷ rest) = highest (higher acc s) rest

-- the severity of _paranoid_severity
unfoldable pub paranoid_severity : Finding → Severity
unfolding highest
paranoid_severity finding = highest finding.severity (values finding.vendor_severities)

-- the sources of _paranoid_severity: NVD first, the others in order; Trivy's own where none
abbrev rating_is : Severity → String × Severity → Bool
rating_is sev (source, s) = severity_rank s == severity_rank sev

abbrev source_le : String → String → Bool
source_le a b = if str_eq a "nvd" then true else if str_eq b "nvd" then false else str_le a b

abbrev or_trivy : List String → List String
or_trivy [] = "trivy" ∷ []
or_trivy (s ∷ ss) = s ∷ ss

unfoldable pub paranoid_sources : Finding → List String
unfolding paranoid_severity
paranoid_sources finding = or_trivy (
    sorted source_le
      (keys (keep (rating_is (paranoid_severity finding)) finding.vendor_severities)))

abbrev pub base_severity_of : Posture → Finding → Severity
base_severity_of paranoid finding = paranoid_severity finding
base_severity_of _ finding = finding.severity

abbrev sources_of : Posture → Finding → List String
sources_of paranoid finding = paranoid_sources finding
sources_of _ finding = []

-- step 7: the runtime that the project does not use, where the gate is not opted out
abbrev pub foreign : Option (List String) → Finding → Option String
foreign none finding = none
foreign (some used) finding = irrelevant_ecosystem finding used

abbrev pub until_of : Option Suppression → Option Date
until_of none = none
until_of (some s) = some s.until

abbrev pub is_relaxed : Posture → Bool
is_relaxed relaxed = true
is_relaxed _ = false

abbrev pub at_gate : Disposition → Bool
at_gate quarantine = true
at_gate still_running_at_risk = true
at_gate _ = false

module _ (c : Context) where
  -- The disposition that the early returns share; the callers change the rest.
  abbrev pub disposed : Finding → Severity → Disposition → Explanation → FindingDisposition
  disposed finding effective disposition explanation = record {
    finding = finding;
    base_severity = base_severity_of c.posture finding;
    hardening_penalty = c.hardening_penalty;
    effective_severity = effective;
    disposition = disposition;
    suppression = none;
    explanation = explanation;
    kev_listed = false;
    fix_would_quarantine = false;
    hardening_would_quarantine = false;
  }

  abbrev pub effective_of : Finding → Severity
  effective_of finding = elevate_severity (base_severity_of c.posture finding) c.hardening_penalty

  -- _informational
  abbrev pub informational_for : Finding → Explanation → FindingDisposition
  informational_for finding explanation =
      disposed finding (effective_of finding) informational explanation

  -- _threshold_disposition; `effective` and `compare_sev` are the same severity in both calls
  unfoldable pub threshold_disposition : Finding → Severity → List String → FindingDisposition
  threshold_disposition finding effective sources =
      let over = leb (severity_rank (posture_threshold c.posture)) (severity_rank effective) in
      let disposition =
        if over
        then (if c.dangerously_disable_quarantine then still_running_at_risk else quarantine)
        else informational in
      disposed finding effective disposition
        (by_threshold over c.dangerously_disable_quarantine sources)

  -- step 11, once the distro's severity is there
  unfoldable pub distro_ladder : Finding → Option Severity → FindingDisposition
  distro_ladder finding none =
      informational_for finding (no_distro_verdict (base_severity_of c.posture finding))
  distro_ladder finding (some distro_sev) =
      if is_network finding.attack_vector
      then threshold_disposition finding (elevate_severity distro_sev c.hardening_penalty) []
      else informational_for finding (av_filtered finding.attack_vector)

  -- steps 8 to 11
  unfoldable pub distro_gate : Finding → FindingDisposition
  distro_gate finding =
      if is_deprioritized finding.status
      then informational_for finding (distro_deprioritized finding.status (distro_severity finding))
      else distro_ladder finding (distro_severity finding)

  -- steps 7 to 11
  unfoldable pub relevance_gate : Finding → Option String → FindingDisposition
  relevance_gate finding none = distro_gate finding
  relevance_gate finding (some ecosystem) =
      informational_for finding (irrelevant_runtime finding.pkg_name ecosystem)

  -- steps 5 to 7
  unfoldable pub posture_gate : Posture → Finding → FindingDisposition
  posture_gate paranoid finding =
      threshold_disposition finding (effective_of finding) (sources_of paranoid finding)
  posture_gate relaxed finding = informational_for finding relaxed_kev_only
  posture_gate _ finding = relevance_gate finding (foreign c.runtimes finding)

  -- steps 3 and 4
  unfoldable pub unfixed : Finding → Option Suppression → FindingDisposition
  unfixed finding (some s) =
      let d : FindingDisposition =
        disposed finding (effective_of finding) suppressed (suppressed_until s) in
      record d { suppression = some s }
  unfixed finding none =
      if is_unknown (base_severity_of c.posture finding)
      then informational_for finding unknown_severity
      else posture_gate c.posture finding

  -- step 1: the CVE is known to be exploited
  unfoldable pub kev_override : Finding → Option Suppression → FindingDisposition
  kev_override finding suppression =
      let fix = finding.fixed_version in
      let effective = effective_of finding in
      let d : FindingDisposition =
        if c.dangerously_disable_quarantine
        then disposed finding effective still_running_at_risk (kev_opted_out finding.cve_id fix)
        else if is_some fix && is_relaxed c.posture
        then disposed finding effective ignored_fixed (kev_fix_not_running finding.cve_id fix)
        else disposed finding effective quarantine
            (kev_quarantine finding.cve_id (until_of suppression) fix) in
      record d { kev_listed = true }

  -- step 2: `rec` is the function's own call, on the finding without its fix
  abbrev pub fixed_upstream : (Finding → FindingDisposition) → Finding → FindingDisposition
  fixed_upstream rec finding =
      let would = at_gate (rec (record finding { fixed_version = none })).disposition in
      let d : FindingDisposition =
        disposed finding (effective_of finding) ignored_fixed
          (fix_available_upstream finding.fixed_version would) in
      record d { fix_would_quarantine = would }

  -- The body of evaluate_finding, with its own call as an argument.
  unfoldable pub evaluate_with : (Finding → FindingDisposition) → Finding → FindingDisposition
  evaluate_with rec finding =
      let suppression = find_active_suppression c.suppressions finding.cve_id c.today in
      if c.kev_lookup finding.cve_id
      then kev_override finding suppression
      else if fix_available finding
      then fixed_upstream rec finding
      else unfixed finding suppression

  -- The call inside is made on a finding without a fix and makes no further call.
  unfoldable pub evaluate_finding : Finding → FindingDisposition
  evaluate_finding finding =
      evaluate_with (evaluate_with (λ f. informational_for f unknown_severity)) finding
