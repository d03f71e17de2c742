-- ===== src/Cve/Policy/Project.antt =====
-- src/boxmunge/cve/policy.py: evaluate_project, and hardening_upcoming.py.
pub mod Laws
use boxmunge.Prelude.{
  ℕ, ◌-◌, String, Bool, true, false, not, ◌&&◌, ◌||◌, Option, none, some, List, map, ltb, ◌==◌,
  if◌then◌else◌, any, str_le, sorted,
}
use boxmunge.Cve.Scanner.{Finding, ScanResult, severity_rank}
use boxmunge.Cve.Hardening.{HardeningProfile, UpcomingHardening, calculate_hardening_penalty}
use boxmunge.Cve.Policy.{Context, evaluate_finding}
use boxmunge.Cve.Policy.Types.{
  Disposition, FindingDisposition, ProjectDecision, hardening_upcoming, quarantine,
  still_running_at_risk,
}

abbrev pub is_quarantine : Disposition → Bool
is_quarantine quarantine = true
is_quarantine _ = false

abbrev pub is_at_risk : Disposition → Bool
is_at_risk still_running_at_risk = true
is_at_risk _ = false

-- flag_upcoming
unfoldable pub flag_upcoming :
    FindingDisposition → FindingDisposition → UpcomingHardening → FindingDisposition
flag_upcoming now later upcoming =
    if is_quarantine now.disposition || not (is_quarantine later.disposition)
    then now
    else record now {
      hardening_would_quarantine = true;
      explanation =
          hardening_upcoming upcoming.services (later.hardening_penalty - now.hardening_penalty);
    }

-- the key (-rank, cve_id) of the sort
abbrev pub by_severity : FindingDisposition → FindingDisposition → Bool
by_severity a b =
    ltb (severity_rank b.effective_severity) (severity_rank a.effective_severity)
    || (severity_rank b.effective_severity == severity_rank a.effective_severity
        && str_le a.finding.cve_id b.finding.cve_id)

-- The context of evaluate_project holds no penalty: it comes from the profile.
abbrev pub judge : Context → ℕ → Finding → FindingDisposition
judge c penalty f = evaluate_finding (record c { hardening_penalty = penalty }) f

-- the two passes over the findings
unfoldable pub judged_findings :
    Context → HardeningProfile → Option UpcomingHardening → List Finding → List FindingDisposition
judged_findings c profile none findings =
    map (judge c (calculate_hardening_penalty profile)) findings
judged_findings c profile (some upcoming) findings =
    map
      (λ d.
        flag_upcoming d (judge c (calculate_hardening_penalty upcoming.profile) d.finding) upcoming)
      (map (judge c (calculate_hardening_penalty profile)) findings)

unfoldable pub evaluate_project :
    String → ScanResult → Context → HardeningProfile → Option UpcomingHardening → ProjectDecision
unfolding judged_findings
evaluate_project project_name scan c profile upcoming =
    let ordered = sorted by_severity (judged_findings c profile upcoming scan.findings) in
    record {
      project_name = project_name;
      image_ref = scan.image_ref;
      findings = ordered;
      quarantine_required = any (λ d. is_quarantine d.disposition) ordered;
      at_risk_running = any (λ d. is_at_risk d.disposition) ordered;
      scanned_at = scan.scanned_at;
    }
