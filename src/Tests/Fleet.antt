-- ===== src/Tests/Fleet.antt =====
-- The breaker on four projects with one CVE, and the alerts of a scan that changed nothing.
use boxmunge.Prelude.{
  ◌≡◌, refl, true, false, none, [], ◌∷◌, ◌++◌, leb, length, keep, All, Dict, keys, elem, subset,
  Instant, some, ◌↔◌, Some, ◌&&◌, not,
}
use boxmunge.Cve.Breaker.{Candidate, decide, trip_threshold, is_fresh}
use boxmunge.Cve.Breaker.Laws.{decide-trips}
use boxmunge.Cve.Breaker.Hysteresis.{decide-keeps_held}
use boxmunge.Cve.Alerting.{
  detect_transitions, findings_by_key, alert_if, kev_at_risk, kev_fix_pending, scan_date,
  expired_alert, is_host,
}
use boxmunge.Cve.Alerting.Quiet.{detect-unchanged, standing, is_kev_at_risk, is_kev_fixed}
use boxmunge.Cve.Alerting.Represent.{findings_by_key-represents, Represented}
use boxmunge.Cve.Policy.Types.{
  FindingDisposition, ProjectDecision, informational, unknown_severity, still_running_at_risk,
}
use boxmunge.Cve.Scanner.{Finding, medium, affected, os}
use boxmunge.Cve.Breaker.Outcomes.{Stops, Holds, IsNewlyHeld, decide-outcomes}
use boxmunge.Cve.Suppressions.{is_active, Suppression, project}
use boxmunge.Cve.Alerting.Alike.{same_image, no_image}

threshold_150 : trip_threshold 150 ≡ 52
unfolding trip_threshold
threshold_150 = refl

threshold_100 : trip_threshold 100 ≡ 34
unfolding trip_threshold
threshold_100 = refl

abbrev shared : Candidate
shared = record { cves = "CVE-2026-1001" ∷ []; kev = false }

abbrev attacked : Candidate
attacked = record { cves = "CVE-2026-1001" ∷ "CVE-2026-7" ∷ []; kev = true }

abbrev fleet : Dict Candidate
fleet = ("api", shared) ∷ ("blog", shared) ∷ ("shop", attacked) ∷ []

decide-trips_example :
    (decide fleet 4 []).tripped ≡ leb (trip_threshold 4) (length (keep (is_fresh []) fleet))
decide-trips_example = decide-trips fleet 4 []

decide-outcomes_example :
    let v = decide fleet 4 [] in
    ((elem "shop" v.applied ≡ true) ↔ Some (λ e. ("shop" ≡ e.0) × Stops [] v.tripped e) fleet)
    × ((elem "shop" (keys v.held) ≡ true) ↔ Some (λ e. ("shop" ≡ e.0) × Holds [] v.tripped e) fleet)
    × ((elem "shop" v.newly_held ≡ true)
        ↔ Some (λ e. ("shop" ≡ e.0) × IsNewlyHeld [] v.tripped e) fleet)
decide-outcomes_example = decide-outcomes fleet 4 [] "shop"

api_held : elem "api" (keys (decide fleet 4 []).held) ≡ true
unfolding decide elem subset trip_threshold
api_held = refl

decide-keeps_held_example : elem "api" (keys (decide fleet 1 (decide fleet 4 []).held).held) ≡ true
decide-keeps_held_example = decide-keeps_held fleet 4 1 [] "api" api_held

abbrev one : Dict Candidate
one = ("api", shared) ∷ []

abbrev zlib : Finding
zlib = record {
  cve_id = "CVE-2026-7";
  severity = medium;
  pkg_name = "zlib1g";
  installed_version = "1.2.13";
  fixed_version = none;
  title = "overflow";
  primary_url = none;
  attack_vector = none;
  status = affected;
  vendor_severities = [];
  severity_source = none;
  pkg_class = os;
  pkg_type = none;
}

abbrev info : FindingDisposition
info = record {
  finding = zlib;
  base_severity = medium;
  hardening_penalty = 0;
  effective_severity = medium;
  disposition = informational;
  suppression = none;
  explanation = unknown_severity;
  kev_listed = false;
  fix_would_quarantine = false;
  hardening_would_quarantine = false;
}

abbrev at_risk : FindingDisposition
at_risk = record info { disposition = still_running_at_risk; kev_listed = true }

abbrev noon : Instant
noon = record { date = record { year = 2026; month = 6; day_of_month = 1 }; micros = 43200000000 }

abbrev decision : ProjectDecision
decision = record {
  project_name = "demo";
  image_ref = "demo:1";
  findings = at_risk ∷ info ∷ [];
  quarantine_required = false;
  at_risk_running = true;
  scanned_at = noon;
}

decision_day : scan_date (decision ∷ []) ≡ some noon.date
unfolding scan_date
decision_day = refl

-- The next day, in a rebuilt image, with a suppression that has run out.
abbrev next_day : Instant
next_day = record noon { date = record { year = 2026; month = 6; day_of_month = 2 } }

abbrev rebuilt : ProjectDecision
rebuilt = record decision { image_ref = "demo:2"; scanned_at = next_day }

rebuilt_day : scan_date (rebuilt ∷ []) ≡ some next_day.date
unfolding scan_date
rebuilt_day = refl

abbrev run_out : Suppression
run_out = record {
  cve_id = "CVE-2026-1001";
  reason = "not reachable";
  reviewed_by = "jo";
  added = record { year = 2026; month = 5; day_of_month = 1 };
  until = noon.date;
  scope = project;
}

detect-unchanged_example :
    let t = detect_transitions (rebuilt ∷ []) (decision ∷ []) (run_out ∷ []) in
    let found = findings_by_key (rebuilt ∷ []) in
    let expired =
      keep (λ s. is_active noon.date s && not (is_active next_day.date s)) (run_out ∷ []) in
    (t.alerts
      ≡ alert_if kev_at_risk (standing is_kev_at_risk found)
        ++ alert_if kev_fix_pending (standing is_kev_fixed found)
        ++ expired_alert (keep (λ s. not (is_host s)) expired))
    × (t.host_expired ≡ keep is_host expired)
detect-unchanged_example =
    detect-unchanged (decision ∷ []) (rebuilt ∷ []) (run_out ∷ []) noon.date next_day.date
      (same_image decision rebuilt refl no_image) decision_day rebuilt_day

findings_by_key-represents_example :
    All (λ d. All (Represented (findings_by_key (decision ∷ []))) d.findings) (decision ∷ [])
findings_by_key-represents_example = findings_by_key-represents (decision ∷ [])
