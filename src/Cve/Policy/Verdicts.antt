-- ===== src/Cve/Policy/Verdicts.antt =====
-- The opt-out and the suppressions: what a disposition says of them.
use boxmunge.Prelude.{
  String, ◌≡◌, refl, ◌≢◌, ◌↔◌, inl, inr, Bool, true, false, not, Option, none, some, List, [],
  arith, Bool-cases,
}
use boxmunge.Cve.Scanner.{Finding, fix_available, Severity, distro_severity, is_unknown}
use boxmunge.Cve.Policy.{
  Context, evaluate_finding, distro_ladder, kev_override, posture_gate, relevance_gate,
  threshold_disposition, unfixed, distro_gate, effective_of, sources_of, foreign, base_severity_of,
}
use boxmunge.Cve.Policy.Fix.{evaluate_kev, evaluate_unfixed, fixed_flag}
use boxmunge.Cve.Policy.Types.{
  Disposition, FindingDisposition, quarantine, suppressed, Posture, still_running_at_risk,
  elevate_severity, paranoid, relaxed, balanced, strict, ignored_fixed, informational,
}
use boxmunge.Cve.Suppressions.{Suppression, find_active_suppression}

-- A disposition that goes with the opt-out flag.
-- What the gates from step 4 on may answer.
abbrev graded : Bool → Disposition → Bool
graded opted_out quarantine = not opted_out
graded opted_out still_running_at_risk = opted_out
graded opted_out informational = true
graded _ _ = false

abbrev honest : Bool → Disposition → Bool
honest opted_out quarantine = not opted_out
honest opted_out still_running_at_risk = opted_out
honest _ _ = true

graded-honest :
    (b : Bool) (d : Disposition) → graded b d ≡ true → (honest b d ≡ true) × (d ≢ suppressed)
graded-honest b d h = (ground arith, λ e. ground arith)

module _ (c : Context) (f : Finding) where
  abbrev IsHonest : FindingDisposition → Type 0
  IsHonest d = honest c.dangerously_disable_quarantine d.disposition ≡ true

  abbrev IsGraded : FindingDisposition → Type 0
  IsGraded d = graded c.dangerously_disable_quarantine d.disposition ≡ true

  threshold-IsGraded : (e : Severity) (s : List String) → IsGraded (threshold_disposition c f e s)
  unfolding threshold_disposition
  threshold-IsGraded e s = ground arith

  ladder-IsGraded : (o : Option Severity) → IsGraded (distro_ladder c f o)
  unfolding distro_ladder
  ladder-IsGraded none = refl
  ladder-IsGraded (some s) =
      ground (arith, threshold-IsGraded (elevate_severity s c.hardening_penalty) [])

  relevance-IsGraded : (o : Option String) → IsGraded (relevance_gate c f o)
  unfolding relevance_gate distro_gate
  relevance-IsGraded none = ground (arith, ladder-IsGraded (distro_severity f))
  relevance-IsGraded (some e) = refl

  posture-IsGraded : (p : Posture) → IsGraded (posture_gate c p f)
  unfolding posture_gate
  posture-IsGraded paranoid = threshold-IsGraded (effective_of c f) (sources_of paranoid f)
  posture-IsGraded relaxed = refl
  posture-IsGraded balanced = relevance-IsGraded (foreign c.runtimes f)
  posture-IsGraded strict = relevance-IsGraded (foreign c.runtimes f)

  unfixed-none : IsHonest (unfixed c f none) × ((unfixed c f none).disposition ≢ suppressed)
  unfolding unfixed
  unfixed-none = elim (Bool-cases (is_unknown (base_severity_of c.posture f))) [
    | inl e ↦ rw e (refl, λ h. cc)
    | inr e ↦ rw e (graded-honest _ _ (posture-IsGraded c.posture))
  ]

  unfixed-IsHonest : (s : Option Suppression) → IsHonest (unfixed c f s)
  unfolding unfixed
  unfixed-IsHonest none = unfixed-none.0
  unfixed-IsHonest (some s) = refl

  kev-IsHonest : (s : Option Suppression) → IsHonest (kev_override c f s)
  unfolding kev_override
  kev-IsHonest s = ground arith

  evaluate-IsHonest : IsHonest (evaluate_finding c f)
  evaluate-IsHonest = elim (Bool-cases (c.kev_lookup f.cve_id)) [
    | inl kev ↦ rw (evaluate_kev c f kev) (kev-IsHonest _)
    | inr kev ↦ elim (Bool-cases (fix_available f)) [
      | inl fix ↦ rw (fixed_flag c f kev fix).0 refl
      | inr fix ↦ rw (evaluate_unfixed c f kev fix) (unfixed-IsHonest _)
    ]
  ]

  -- A project that opted out of quarantine is never quarantined, whatever the finding, and no other
  -- project is left running at risk.
  pub opt_out :
      ((evaluate_finding c f).disposition ≡ quarantine → c.dangerously_disable_quarantine ≡ false)
      × ((evaluate_finding c f).disposition ≡ still_running_at_risk
          → c.dangerously_disable_quarantine ≡ true)
  opt_out =
      let e : IsHonest (evaluate_finding c f) = evaluate-IsHonest in
      (λ h. ground arith, λ h. ground arith)

  kev-unsuppressed : (s : Option Suppression) → (kev_override c f s).disposition ≢ suppressed
  unfolding kev_override
  kev-unsuppressed s h = ground arith

  unfixed-suppressed :
      (o : Option Suppression)
      → (unfixed c f o).disposition ≡ suppressed
      → (s : Suppression) × (o ≡ some s)
  unfixed-suppressed none h = absurd (unfixed-none.1 h)
  unfixed-suppressed (some s) h = (s, refl)

  -- A finding counts as suppressed exactly when it is not known to be exploited, has no fix, and an
  -- active suppression covers its CVE; the decision then carries that suppression.
  pub suppressed_iff :
      (((evaluate_finding c f).disposition ≡ suppressed) ↔ (
        (c.kev_lookup f.cve_id ≡ false)
        × (fix_available f ≡ false)
        × ((s : Suppression) × (find_active_suppression c.suppressions f.cve_id c.today ≡ some s))))
      × ((evaluate_finding c f).disposition ≡ suppressed
          → (evaluate_finding c f).suppression
            ≡ find_active_suppression c.suppressions f.cve_id c.today)
  suppressed_iff = elim (Bool-cases (c.kev_lookup f.cve_id)) [
    | inl kev ↦
        let no_way : (evaluate_finding c f).disposition ≢ suppressed =
          rw (evaluate_kev c f kev) (kev-unsuppressed _) in
        ((λ h. absurd (no_way h), λ h. cc (kev, h.0)), λ h. absurd (no_way h))
    | inr kev ↦ elim (Bool-cases (fix_available f)) [
      | inl fix ↦
          let e : (evaluate_finding c f).disposition ≡ ignored_fixed = (fixed_flag c f kev fix).0 in
          ((λ h. cc (e, h), λ h. cc (fix, h.1)), λ h. cc (e, h))
      | inr fix ↦ rw (evaluate_unfixed c f kev fix) (
          let found = find_active_suppression c.suppressions f.cve_id c.today in
          (
            (
              (λ h. (kev, fix, unfixed-suppressed found h)),
              (λ (_, _, (s, e)). rw e (unfold unfixed in refl)),
            ),
            λ h. let (s, e) = unfixed-suppressed found h in rw e (unfold unfixed in refl),
          ))
    ]
  ]
