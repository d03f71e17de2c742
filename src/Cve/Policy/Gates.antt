-- ===== src/Cve/Policy/Gates.antt =====
-- When each gate of the policy ladder stops a finding.
use boxmunge.Prelude.{
  ◌+◌, ◌≤◌, min, String, ◌≡◌, false, none, some, List, arith, leb, ℕ, Dict, ◌∷◌, Option, true, [],
  lookup, refl,
}
use boxmunge.Cve.Scanner.{
  Finding, network, Severity, is_unknown, severity_rank, distro_severity, first_rated, low, medium,
  high, critical, distro_sources, first_rating, rated,
}
use boxmunge.Cve.Policy.{
  Context, threshold_disposition, at_gate, is_deprioritized, distro_ladder, relevance_gate,
  distro_gate,
}
use boxmunge.Cve.Policy.Types.{posture_threshold, elevate_severity, elevate_severity-rank}

pub threshold-gate :
    (c : Context) (f : Finding) (e : Severity) (s : List String)
    → at_gate (threshold_disposition c f e s).disposition
      ≡ leb (severity_rank (posture_threshold c.posture)) (severity_rank e)
unfolding threshold_disposition
threshold-gate c f e s = ground arith

pub elevated-rank :
    (s : Severity) (n : ℕ)
    → is_unknown s ≡ false
    → severity_rank (elevate_severity s n) ≡ min (severity_rank s + n) 4
unfolding severity_rank
elevated-rank low n h = elevate_severity-rank low n
elevated-rank medium n h = elevate_severity-rank medium n
elevated-rank high n h = elevate_severity-rank high n
elevated-rank critical n h = elevate_severity-rank critical n
elevated-rank Severity.unknown n h = cc

first_rated-known :
    (sources : List String) (ratings : Dict Severity) (s : Severity)
    → first_rated sources ratings ≡ some s
    → is_unknown s ≡ false
unfolding first_rated
first_rated-known [] ratings s h = cc
first_rated-known (x ∷ xs) ratings s h =
    rated-known (lookup x ratings) s (first_rated xs ratings) (first_rated-known xs ratings s) h
  where
    rated-known :
        (o : Option Severity) (t : Severity) (rest : Option Severity)
        → (rest ≡ some t → is_unknown t ≡ false)
        → first_rating (rated o) rest ≡ some t
        → is_unknown t ≡ false
    rated-known none t rest k p = k p
    rated-known (some Severity.unknown) t rest k p = k p
    rated-known (some low) t rest k p = ground arith
    rated-known (some medium) t rest k p = ground arith
    rated-known (some high) t rest k p = ground arith
    rated-known (some critical) t rest k p = ground arith

pub distro_severity-known :
    (f : Finding) (s : Severity) → distro_severity f ≡ some s → is_unknown s ≡ false
unfolding distro_severity
distro_severity-known f s = first_rated-known distro_sources f.vendor_severities s

pub ladder-gate :
    (c : Context) (f : Finding) (o : Option Severity)
    → at_gate (distro_ladder c f o).disposition ≡ true
    → (s : Severity) × (o ≡ some s)
      × (f.attack_vector ≡ some network)
      × (severity_rank (posture_threshold c.posture)
          ≤ severity_rank (elevate_severity s c.hardening_penalty))
unfolding distro_ladder
ladder-gate c f none h = cc
ladder-gate c f (some s) h =
    let t : at_gate
          (threshold_disposition c f (elevate_severity s c.hardening_penalty) []).disposition
        ≡ leb (severity_rank (posture_threshold c.posture))
            (severity_rank (elevate_severity s c.hardening_penalty)) =
      threshold-gate c f (elevate_severity s c.hardening_penalty) [] in
    (s, refl, ground arith, ground arith)

pub gate-ladder :
    (c : Context) (f : Finding) (s : Severity)
    → f.attack_vector ≡ some network
    → severity_rank (posture_threshold c.posture)
      ≤ severity_rank (elevate_severity s c.hardening_penalty)
    → at_gate (distro_ladder c f (some s)).disposition ≡ true
unfolding distro_ladder
gate-ladder c f s v h =
    ground (arith, threshold-gate c f (elevate_severity s c.hardening_penalty) [])

pub relevance-gate :
    (c : Context) (f : Finding) (o : Option String)
    → at_gate (relevance_gate c f o).disposition ≡ true
    → (o ≡ none)
      × (is_deprioritized f.status ≡ false)
      × (at_gate (distro_ladder c f (distro_severity f)).disposition ≡ true)
unfolding relevance_gate distro_gate
relevance-gate c f none h = (refl, ground arith, ground arith)
relevance-gate c f (some e) h = cc

pub gate-relevance :
    (c : Context) (f : Finding)
    → is_deprioritized f.status ≡ false
    → at_gate (distro_ladder c f (distro_severity f)).disposition ≡ true
    → at_gate (relevance_gate c f none).disposition ≡ true
unfolding relevance_gate distro_gate
gate-relevance c f s h = rw s h
