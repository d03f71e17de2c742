-- ===== src/Cve/Policy/Subject.antt =====
-- src/boxmunge/cve/policy.py: every decision is about the finding that it was asked for.
use boxmunge.Prelude.{
  String, ◌≡◌, refl, Bool, true, false, ◌&&◌, Option, none, some, List, [], if◌then◌else◌, is_some,
}
use boxmunge.Cve.Scanner.{Finding, Severity, is_unknown, is_network, fix_available, distro_severity}
use boxmunge.Cve.Suppressions.{Suppression, find_active_suppression}
use boxmunge.Cve.Policy.{
  Context, evaluate_finding, evaluate_with, kev_override, unfixed, posture_gate, relevance_gate,
  distro_gate, distro_ladder, threshold_disposition, informational_for, fixed_upstream,
  is_deprioritized, foreign, base_severity_of, disposed, effective_of, is_relaxed, kev_opted_out,
  kev_fix_not_running, kev_quarantine, until_of,
}
use boxmunge.Cve.Policy.Types.{
  FindingDisposition, Posture, unknown_severity, av_filtered, distro_deprioritized,
}

abbrev About : Finding → FindingDisposition → Type 0
About f d = d.finding ≡ f

if-About :
    (f : Finding) (b : Bool) (x y : FindingDisposition)
    → About f x
    → About f y
    → About f (if b then x else y)
if-About f true x y h k = h
if-About f false x y h k = k

module _ (c : Context) (f : Finding) where
  threshold-About :
      (effective : Severity) (sources : List String)
      → About f (threshold_disposition c f effective sources)
  unfolding threshold_disposition
  threshold-About effective sources = refl

  ladder-About : (o : Option Severity) → About f (distro_ladder c f o)
  unfolding distro_ladder
  ladder-About none = refl
  ladder-About (some s) = if-About f (is_network f.attack_vector) _ _ (threshold-About _ []) refl

  gate-About : About f (distro_gate c f)
  unfolding distro_gate
  gate-About = if-About f (is_deprioritized f.status) _ _ refl (ladder-About (distro_severity f))

  relevance-About : (o : Option String) → About f (relevance_gate c f o)
  unfolding relevance_gate
  relevance-About none = gate-About
  relevance-About (some ecosystem) = refl

  posture-About : (p : Posture) → About f (posture_gate c p f)
  unfolding posture_gate
  posture-About boxmunge.Cve.Policy.Types.paranoid = threshold-About _ _
  posture-About boxmunge.Cve.Policy.Types.relaxed = refl
  posture-About boxmunge.Cve.Policy.Types.balanced = relevance-About (foreign c.runtimes f)
  posture-About boxmunge.Cve.Policy.Types.strict = relevance-About (foreign c.runtimes f)

  unfixed-About : (o : Option Suppression) → About f (unfixed c f o)
  unfolding unfixed
  unfixed-About (some s) = refl
  unfixed-About none =
      if-About f (is_unknown (base_severity_of c.posture f)) _ _ refl (posture-About c.posture)

  kev-About : (o : Option Suppression) → About f (kev_override c f o)
  unfolding kev_override
  kev-About o =
      if-About f c.dangerously_disable_quarantine _ _ refl
        (if-About f (is_some f.fixed_version && is_relaxed c.posture) _ _ refl refl)

  with-About : (rec : Finding → FindingDisposition) → About f (evaluate_with c rec f)
  unfolding evaluate_with
  with-About rec =
      let found = find_active_suppression c.suppressions f.cve_id c.today in
      if-About f (c.kev_lookup f.cve_id) _ _ (kev-About found)
        (if-About f (fix_available f) _ _ refl (unfixed-About found))

pub evaluate_finding-finding : (c : Context) (f : Finding) → (evaluate_finding c f).finding ≡ f
unfolding evaluate_finding
evaluate_finding-finding c f = with-About c f _
