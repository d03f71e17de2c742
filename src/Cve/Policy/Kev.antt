-- ===== src/Cve/Policy/Kev.antt =====
-- A CVE that is known to be exploited comes before everything else.
use boxmunge.Prelude.{String, ◌≡◌, refl, Bool, true, false, Option, none, some, arith}
use boxmunge.Cve.Scanner.{Finding}
use boxmunge.Cve.Policy.Fix.{evaluate_kev}
use boxmunge.Cve.Policy.Types.{relaxed}
use boxmunge.Cve.Policy.{Context, evaluate_finding, kev_override}
use boxmunge.Cve.Policy.Types.{
  Posture, Disposition, still_running_at_risk, ignored_fixed, quarantine,
}
use boxmunge.Cve.Suppressions.{Suppression}

-- The decision on an exploited CVE, from three things alone.
abbrev pub kev_disposition : Bool → Posture → Option String → Disposition
kev_disposition true posture fix = still_running_at_risk
kev_disposition false relaxed (some _) = ignored_fixed
kev_disposition false _ _ = quarantine

kev_override_decides :
    (c : Context) (f : Finding) (s : Option Suppression)
    → ((kev_override c f s).disposition
        ≡ kev_disposition c.dangerously_disable_quarantine c.posture f.fixed_version)
      × ((kev_override c f s).kev_listed ≡ true)
      × ((kev_override c f s).suppression ≡ none)
unfolding kev_override
kev_override_decides c f s = (ground arith, refl, ground arith)

-- An exploited CVE is decided by the opt-out, the posture and the fix alone: no suppression,
-- status, attack vector, severity, runtime or penalty has a say. The decision is marked as KEV, and
-- never counts as suppressed.
pub kev_decides :
    (c : Context) (f : Finding)
    → c.kev_lookup f.cve_id ≡ true
    → ((evaluate_finding c f).disposition
        ≡ kev_disposition c.dangerously_disable_quarantine c.posture f.fixed_version)
      × ((evaluate_finding c f).kev_listed ≡ true)
      × ((evaluate_finding c f).suppression ≡ none)
kev_decides c f h = rw (evaluate_kev c f h) (kev_override_decides c f _)
