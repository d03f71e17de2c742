-- ===== src/Tests/Policy.antt =====
-- The policy engine on a network-reachable finding of a base image, its fix, and a KEV listing.
use boxmunge.Prelude.{
  ◌≤◌, ◌≡◌, refl, ◌↔◌, true, false, none, some, [], ◌∷◌, Perm, arith, any, Dict, lookup, Value,
  null, bool, str, arr, obj, Date, Instant, fields_of, items_of, map, All,
}
use boxmunge.Cve.Scanner.{
  Finding, ScanResult, high, critical, network, affected, os, distro_severity, severity_rank,
}
use boxmunge.Cve.Hardening.{
  HardeningProfile, UpcomingHardening, hardened, calculate_hardening_penalty, worst,
  hardening_profile_from_compose, compose_services,
}
use boxmunge.Cve.Hardening.Laws.{
  penalty_bounds, hardening_profile-IsWorstOf, IsWorstOf, service_profiles,
}
use boxmunge.Cve.Suppressions.{Suppression, find_active_suppression, project}
use boxmunge.Cve.Policy.{
  Context, evaluate_finding, evaluate_with, at_gate, unfixed, posture_gate, relevance_gate,
  distro_gate, distro_ladder, threshold_disposition,
}
use boxmunge.Cve.Policy.Types.{
  balanced, strict, suppressed, quarantine, still_running_at_risk, elevate_severity,
  FindingDisposition,
}
use boxmunge.Cve.Policy.Ladder.{gate_iff, Reaches}
use boxmunge.Cve.Policy.Kev.{kev_decides, kev_disposition}
use boxmunge.Cve.Policy.Postures.{gate_mono, judged}
use boxmunge.Cve.Policy.Verdicts.{opt_out, suppressed_iff}
use boxmunge.Cve.Policy.Project.{evaluate_project, judge, is_quarantine, is_at_risk}
use boxmunge.Cve.Policy.Project.Laws.{
  evaluate_project-findings, evaluate_project-requires, Ordered, Today,
}

abbrev perl : Finding
perl = record {
  cve_id = "CVE-2026-1001";
  severity = critical;
  pkg_name = "perl-base";
  installed_version = "5.36.0";
  fixed_version = none;
  title = "heap overflow";
  primary_url = none;
  attack_vector = some network;
  status = affected;
  vendor_severities = ("debian", high) ∷ [];
  severity_source = some "debian";
  pkg_class = os;
  pkg_type = some "debian";
}

abbrev perl_fixed : Finding
perl_fixed = record perl { fixed_version = some "5.36.1" }

abbrev today : Date
today = record { year = 2026; month = 6; day_of_month = 1 }

abbrev next_year : Date
next_year = record { year = 2027; month = 6; day_of_month = 1 }

abbrev accepted_risk : Suppression
accepted_risk = record {
  cve_id = "CVE-2026-1001";
  until = next_year;
  reason = "not reachable";
  reviewed_by = "jo";
  added = today;
  scope = project;
}

abbrev at_balanced : Context
at_balanced = record {
  posture = balanced;
  hardening_penalty = 0;
  dangerously_disable_quarantine = false;
  suppressions = [];
  today = today;
  kev_lookup = λ cve. false;
  runtimes = none;
}

abbrev with_suppression : Context
with_suppression = record at_balanced { suppressions = accepted_risk ∷ [] }

abbrev exploited : Context
exploited = record with_suppression { kev_lookup = λ cve. true }

gate_iff_example :
    (at_gate (evaluate_finding at_balanced perl).disposition ≡ true)
    ↔ ((find_active_suppression [] "CVE-2026-1001" today ≡ none) × Reaches at_balanced perl)
gate_iff_example = gate_iff at_balanced perl refl refl

kev_decides_example :
    ((evaluate_finding exploited perl).disposition ≡ kev_disposition false balanced none)
    × ((evaluate_finding exploited perl).kev_listed ≡ true)
    × ((evaluate_finding exploited perl).suppression ≡ none)
kev_decides_example = kev_decides exploited perl refl

perl_stops : at_gate (evaluate_finding (judged balanced 0 at_balanced) perl).disposition ≡ true
unfolding evaluate_finding evaluate_with unfixed find_active_suppression posture_gate relevance_gate
    distro_gate distro_ladder distro_severity lookup threshold_disposition severity_rank
    elevate_severity
perl_stops = refl

gate_mono_example : at_gate (evaluate_finding (judged strict 1 at_balanced) perl).disposition ≡ true
gate_mono_example =
    gate_mono at_balanced perl balanced strict 0 1 (omega arith) (omega arith) perl_stops

opt_out_example :
    ((evaluate_finding at_balanced perl).disposition ≡ quarantine → false ≡ false)
    × ((evaluate_finding at_balanced perl).disposition ≡ still_running_at_risk → false ≡ true)
opt_out_example = opt_out at_balanced perl

suppressed_iff_example :
    (((evaluate_finding with_suppression perl).disposition ≡ suppressed) ↔ (
      (false ≡ false)
      × (false ≡ false)
      × ((s : Suppression) × (find_active_suppression (accepted_risk ∷ []) "CVE-2026-1001" today
            ≡ some s))))
    × ((evaluate_finding with_suppression perl).disposition ≡ suppressed
        → (evaluate_finding with_suppression perl).suppression
          ≡ find_active_suppression (accepted_risk ∷ []) "CVE-2026-1001" today)
suppressed_iff_example = suppressed_iff with_suppression perl

abbrev noon : Instant
noon = record { date = today; micros = 43200000000 }

abbrev scan : ScanResult
scan = record {
  image_ref = "demo:1";
  scanned_at = noon;
  findings = perl_fixed ∷ perl ∷ [];
  lang_types = [];
  db_version = none;
}

abbrev soft : HardeningProfile
soft = record hardened { read_only = false }

abbrev later : UpcomingHardening
later = record { profile = soft; services = "web" ∷ [] }

evaluate_project-findings_example :
    let found = (evaluate_project "demo" scan at_balanced soft (some later)).findings in
    Perm (map (λ (d : FindingDisposition). d.finding) found) (perl_fixed ∷ perl ∷ [])
    × Ordered found
    × All (Today at_balanced soft) found
evaluate_project-findings_example =
    evaluate_project-findings "demo" scan at_balanced soft (some later)

evaluate_project-requires_example :
    ((evaluate_project "demo" scan at_balanced soft none).quarantine_required
      ≡ any
          (λ f. is_quarantine (judge at_balanced (calculate_hardening_penalty soft) f).disposition)
          (perl_fixed ∷ perl ∷ []))
    × ((evaluate_project "demo" scan at_balanced soft none).at_risk_running
        ≡ any
            (λ f. is_at_risk (judge at_balanced (calculate_hardening_penalty soft) f).disposition)
            (perl_fixed ∷ perl ∷ []))
evaluate_project-requires_example = evaluate_project-requires "demo" scan at_balanced soft none

penalty_bounds_example :
    (calculate_hardening_penalty soft ≤ 2)
    × ((calculate_hardening_penalty soft ≡ 0) ↔ (soft ≡ hardened))
    × (calculate_hardening_penalty soft ≤ calculate_hardening_penalty (worst soft hardened))
    × (calculate_hardening_penalty hardened ≤ calculate_hardening_penalty (worst soft hardened))
penalty_bounds_example = penalty_bounds soft hardened

-- services: {web: {read_only: false, cap_add: [NET_ADMIN]}, db: null}
abbrev compose : Dict Value
compose =
    (
      "services",
      obj (
          fields_of (
            (
              "web",
              obj (
                  fields_of (
                    ("read_only", bool false)
                    ∷ ("cap_add", arr (items_of (str "NET_ADMIN" ∷ [])))
                    ∷ [])),
            )
            ∷ ("db", null)
            ∷ [])),
    )
    ∷ []

hardening_profile-IsWorstOf_example :
    IsWorstOf
      (hardening_profile_from_compose compose none)
      (service_profiles none (compose_services compose))
hardening_profile-IsWorstOf_example = hardening_profile-IsWorstOf compose none
