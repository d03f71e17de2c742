-- ===== src/Cve/Policy/Fix.antt =====
-- A finding with an upstream fix: evaluate_finding calls itself once, on the finding without it.
use boxmunge.Prelude.{◌≡◌, refl, true, false, none}
use boxmunge.Cve.Scanner.{Finding, fix_available}
use boxmunge.Cve.Policy.{
  Context, evaluate_finding, evaluate_with, at_gate, informational_for, kev_override, unfixed,
}
use boxmunge.Cve.Policy.Types.{FindingDisposition, ignored_fixed, unknown_severity}
use boxmunge.Cve.Suppressions.{find_active_suppression}

abbrev pub without_fix : Finding → Finding
without_fix f = record f { fixed_version = none }

-- On a finding without a fix the function makes no call of itself.
evaluate_with-without_fix :
    (c : Context) (f : Finding) (rec other : Finding → FindingDisposition)
    → f.fixed_version ≡ none
    → evaluate_with c rec f ≡ evaluate_with c other f
unfolding evaluate_with
evaluate_with-without_fix c f rec other h = rw (h, fix_available) refl

-- The unrolling of evaluate_finding satisfies the equation of its body.
evaluate_finding-fix :
    (c : Context) (f : Finding) → evaluate_finding c f ≡ evaluate_with c (evaluate_finding c) f
unfolding evaluate_finding evaluate_with
evaluate_finding-fix c f = rw (
    evaluate_with-without_fix c (without_fix f) (λ g. informational_for c g unknown_severity)
      (evaluate_with c (λ g. informational_for c g unknown_severity)) refl)

pub fixed_flag :
    (c : Context) (f : Finding)
    → c.kev_lookup f.cve_id ≡ false
    → fix_available f ≡ true
    → ((evaluate_finding c f).disposition ≡ ignored_fixed)
      × ((evaluate_finding c f).fix_would_quarantine
          ≡ at_gate (evaluate_finding c (without_fix f)).disposition)
fixed_flag c f kev fix =
    rw (evaluate_finding-fix c f) (unfold evaluate_with in rw kev (rw fix (refl, refl)))

-- Without a fix and out of the KEV catalog, the decision is that of steps 3 to 11.
pub evaluate_unfixed :
    (c : Context) (f : Finding)
    → c.kev_lookup f.cve_id ≡ false
    → fix_available f ≡ false
    → evaluate_finding c f ≡ unfixed c f (find_active_suppression c.suppressions f.cve_id c.today)
unfolding evaluate_finding evaluate_with
evaluate_unfixed c f kev fix = rw kev (rw fix)

pub evaluate_kev :
    (c : Context) (f : Finding)
    → c.kev_lookup f.cve_id ≡ true
    → evaluate_finding c f
      ≡ kev_override c f (find_active_suppression c.suppressions f.cve_id c.today)
unfolding evaluate_finding evaluate_with
evaluate_kev c f kev = rw kev
