-- ===== src/Cve/Policy/Ladder.antt =====
-- The trust ladder: exactly which findings meet the quarantine gate.
use boxmunge.Prelude.{
  ◌+◌, ◌≤◌, min, ◌≡◌, ◌⊎◌, false, none, some, arith, leb, Option, true, refl, inl, inr, ◌↔◌,
}
use boxmunge.Cve.Scanner.{
  Finding, network, Severity, is_unknown, severity_rank, distro_severity, fix_available,
}
use boxmunge.Cve.Policy.{
  Context, threshold_disposition, at_gate, paranoid_severity, foreign, is_deprioritized,
  relevance_gate, base_severity_of, posture_gate, unfixed, evaluate_finding, effective_of,
  sources_of,
}
use boxmunge.Cve.Policy.Types.{
  paranoid, balanced, posture_threshold, strict, elevate_severity, Posture, relaxed,
}
use boxmunge.Cve.Suppressions.{Suppression, find_active_suppression}
use boxmunge.Cve.Policy.Gates.{
  threshold-gate, elevated-rank, distro_severity-known, ladder-gate, gate-ladder, relevance-gate,
  gate-relevance,
}
use boxmunge.Cve.Policy.Fix.{evaluate_unfixed}

-- What a finding that is not known to be exploited must meet, besides not being suppressed.
pub data Reaches (c : Context) (f : Finding) : Type 0 where
  -- paranoid: some source's rating, elevated, is medium or more
  by_highest :
      c.posture ≡ paranoid
      → is_unknown (paranoid_severity f) ≡ false
      → 2 ≤ min (severity_rank (paranoid_severity f) + c.hardening_penalty) 4
      → Reaches c f
  -- balanced and strict: the distro rates it and has not put it aside, it is reachable from the
  -- network and in a runtime that the project uses, and its elevated rating is over the threshold
  by_distro :
      (sev : Severity)
      → (c.posture ≡ balanced) ⊎ (c.posture ≡ strict)
      → is_unknown f.severity ≡ false
      → foreign c.runtimes f ≡ none
      → is_deprioritized f.status ≡ false
      → f.attack_vector ≡ some network
      → distro_severity f ≡ some sev
      → severity_rank (posture_threshold c.posture)
        ≤ min (severity_rank sev + c.hardening_penalty) 4
      → Reaches c f

-- Balanced and strict share the distro's gate.
abbrev TrustsDistro : Posture → Type 0
TrustsDistro p = (p ≡ balanced) ⊎ (p ≡ strict)

posture-relevance :
    (c : Context) (f : Finding)
    → TrustsDistro c.posture
    → (posture_gate c c.posture f ≡ relevance_gate c f (foreign c.runtimes f))
      × (base_severity_of c.posture f ≡ f.severity)
unfolding posture_gate
posture-relevance c f (inl p) = rw p (refl, refl)
posture-relevance c f (inr p) = rw p (refl, refl)

unsuppressed-gate :
    (c : Context) (f : Finding)
    → is_unknown (base_severity_of c.posture f) ≡ false
    → unfixed c f none ≡ posture_gate c c.posture f
unfolding unfixed
unsuppressed-gate c f h = rw h

unfixed-known :
    (c : Context) (f : Finding) (s : Option Suppression)
    → at_gate (unfixed c f s).disposition ≡ true
    → (s ≡ none)
      × (is_unknown (base_severity_of c.posture f) ≡ false)
      × (at_gate (posture_gate c c.posture f).disposition ≡ true)
unfolding unfixed
unfixed-known c f (some s) h = cc
unfixed-known c f none h = (refl, ground arith, ground arith)

distro-Reaches :
    (c : Context) (f : Finding)
    → TrustsDistro c.posture
    → is_unknown (base_severity_of c.posture f) ≡ false
    → at_gate (posture_gate c c.posture f).disposition ≡ true
    → Reaches c f
distro-Reaches c f p known h =
    let (e, b) = posture-relevance c f p in
    let (runs, status, h1) = relevance-gate c f (foreign c.runtimes f) (rw e at h) in
    let (s, rating, network_only, over) = ladder-gate c f (distro_severity f) h1 in
    by_distro s p (rw b at known) runs status network_only rating
      (rw (elevated-rank s c.hardening_penalty (distro_severity-known f s rating)) at over)

paranoid-gate :
    (c : Context) (f : Finding)
    → c.posture ≡ paranoid
    → (at_gate (posture_gate c c.posture f).disposition
        ≡ leb 2 (severity_rank (elevate_severity (paranoid_severity f) c.hardening_penalty)))
      × (base_severity_of c.posture f ≡ paranoid_severity f)
unfolding posture_gate severity_rank
paranoid-gate c f p =
    let t : at_gate
          (threshold_disposition c f (effective_of c f) (sources_of paranoid f)).disposition
        ≡ leb (severity_rank (posture_threshold c.posture)) (severity_rank (effective_of c f)) =
      threshold-gate c f (effective_of c f) (sources_of paranoid f) in
    (rw p (rw p at t), rw p refl)

Reaches-gate :
    (c : Context) (f : Finding)
    → Reaches c f
    → (is_unknown (base_severity_of c.posture f) ≡ false)
      × (at_gate (posture_gate c c.posture f).disposition ≡ true)
unfolding posture_gate
Reaches-gate c f (by_highest p known over) =
    let (g, b) = paranoid-gate c f p in
    let r : severity_rank (elevate_severity (paranoid_severity f) c.hardening_penalty)
        ≡ min (severity_rank (paranoid_severity f) + c.hardening_penalty) 4 =
      elevated-rank (paranoid_severity f) c.hardening_penalty known in
    (rw b known, rw g (rw r (ground arith)))
Reaches-gate c f (by_distro s p known runs status network_only rating over) =
    let (e, b) = posture-relevance c f p in
    (
      rw b known,
      rw e (
          rw runs (
            gate-relevance c f status (
              rw rating (
                gate-ladder c f s network_only (
                  rw (elevated-rank s c.hardening_penalty (distro_severity-known f s rating))
                    over))))),
    )

gate-Reaches :
    (c : Context) (f : Finding)
    → (p : Posture) → c.posture ≡ p
    → is_unknown (base_severity_of c.posture f) ≡ false
    → at_gate (posture_gate c c.posture f).disposition ≡ true
    → Reaches c f
unfolding posture_gate
gate-Reaches c f relaxed p known h = cc (rw p at h)
gate-Reaches c f balanced p known h = distro-Reaches c f (inl p) known h
gate-Reaches c f strict p known h = distro-Reaches c f (inr p) known h
gate-Reaches c f paranoid p known h =
    let (g, b) = paranoid-gate c f p in
    let k : is_unknown (paranoid_severity f) ≡ false = rw b at known in
    let r : severity_rank (elevate_severity (paranoid_severity f) c.hardening_penalty)
        ≡ min (severity_rank (paranoid_severity f) + c.hardening_penalty) 4 =
      elevated-rank (paranoid_severity f) c.hardening_penalty k in
    let h1 : leb 2 (min (severity_rank (paranoid_severity f) + c.hardening_penalty) 4) ≡ true =
      rw r at (rw g at h) in
    by_highest p k (ground arith)

-- A finding that is not known to be exploited and has no fix meets the quarantine gate exactly when
-- no active suppression covers it and it reaches the rung of the ladder that its posture sets.
pub gate_iff :
    (c : Context) (f : Finding)
    → c.kev_lookup f.cve_id ≡ false
    → fix_available f ≡ false
    → (at_gate (evaluate_finding c f).disposition ≡ true)
      ↔ ((find_active_suppression c.suppressions f.cve_id c.today ≡ none) × Reaches c f)
gate_iff c f kev fix = rw (evaluate_unfixed c f kev fix) (
  (λ h.
      let (none_active, known, h1) =
        unfixed-known c f (find_active_suppression c.suppressions f.cve_id c.today) h in
      (none_active, gate-Reaches c f c.posture refl known h1)),
  (λ (none_active, reaches).
      let (known, h) = Reaches-gate c f reaches in
      rw none_active (rw (unsuppressed-gate c f known) h)),
)
