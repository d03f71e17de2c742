-- ===== src/Cve/Policy/Postures.antt =====
-- A stricter posture, or a larger hardening penalty, never lets a finding past the gate.
use boxmunge.Prelude.{
  ℕ, ◌≤◌, String, ◌≡◌, refl, ◌∙◌, subst, inl, inr, Bool, true, false, Option, none, some, List, [],
  ◌∷◌, arith, Bool-cases, Option-cases, Dict, lookup, values, str_eq,
}
use mathlib.Core.Option.{some-injective}
use boxmunge.Cve.Scanner.{
  Finding, Severity, severity_rank, first_rated, is_unknown, rated, distro_severity, low,
  distro_sources, medium, high, critical, fix_available,
}
use boxmunge.Cve.Policy.{Context, evaluate_finding, at_gate, higher, highest, paranoid_severity}
use boxmunge.Cve.Policy.Types.{Posture, relaxed, balanced, strict, paranoid, posture_threshold}
use boxmunge.Cve.Policy.Ladder.{Reaches, by_highest, by_distro, gate_iff}
use boxmunge.Cve.Policy.Kev.{kev_disposition, kev_decides}
use boxmunge.Cve.Policy.Fix.{fixed_flag}

higher-le :
    (a b : Severity)
    → (severity_rank a ≤ severity_rank (higher a b))
      × (severity_rank b ≤ severity_rank (higher a b))
higher-le a b = ground arith

highest-ge :
    (acc : Severity) (vs : List Severity) → severity_rank acc ≤ severity_rank (highest acc vs)
unfolding highest
highest-ge acc [] = omega arith
highest-ge acc (v ∷ vs) = omega (arith, (higher-le acc v).0, highest-ge (higher acc v) vs)

highest-ge-lookup :
    (acc : Severity) (ratings : Dict Severity) (k : String) (s : Severity)
    → lookup k ratings ≡ some s
    → severity_rank s ≤ severity_rank (highest acc (values ratings))
unfolding highest lookup
highest-ge-lookup acc [] k s h = cc
highest-ge-lookup acc ((j, v) ∷ m) k s h = elim (Bool-cases (str_eq j k)) [
  | inl e ↦
      let p : v ≡ s = some-injective v s (rw e at h) in
      subst (λ t. severity_rank t ≤ severity_rank (highest (higher acc v) (values m))) p
        (omega (arith, (higher-le acc v).1, highest-ge (higher acc v) (values m)))
  | inr e ↦ highest-ge-lookup (higher acc v) m k s (rw e at h)
]

rated-eq : (o : Option Severity) (s : Severity) → rated o ≡ some s → o ≡ some s
rated-eq none s h = cc
rated-eq (some Severity.unknown) s h = cc
rated-eq (some low) s h = h
rated-eq (some medium) s h = h
rated-eq (some high) s h = h
rated-eq (some critical) s h = h

first_rated-lookup :
    (sources : List String) (ratings : Dict Severity) (s : Severity)
    → first_rated sources ratings ≡ some s
    → (k : String) × (lookup k ratings ≡ some s)
unfolding first_rated
first_rated-lookup [] ratings s h = cc
first_rated-lookup (x ∷ xs) ratings s h = elim (Option-cases (rated (lookup x ratings))) [
  | inl e ↦ first_rated-lookup xs ratings s (rw e at h)
  | inr (t, e) ↦ (x, rated-eq (lookup x ratings) s (e ∙ rw e at h))
]

-- The rating that paranoid decides on is at least the distro's and at least Trivy's own.
paranoid_severity-ge :
    (f : Finding)
    → (severity_rank f.severity ≤ severity_rank (paranoid_severity f))
      × ((s : Severity)
          → distro_severity f ≡ some s
          → severity_rank s ≤ severity_rank (paranoid_severity f))
unfolding paranoid_severity distro_severity
paranoid_severity-ge f = (
  highest-ge f.severity (values f.vendor_severities),
  λ s h.
      let (k, e) = first_rated-lookup distro_sources f.vendor_severities s h in
      highest-ge-lookup f.severity f.vendor_severities k s e,
)

abbrev pub strictness : Posture → ℕ
strictness relaxed = 0
strictness balanced = 1
strictness strict = 2
strictness paranoid = 3

abbrev pub judged : Posture → ℕ → Context → Context
judged p n c = record c { posture = p; hardening_penalty = n }

known-rank : (s : Severity) → is_unknown s ≡ false → 1 ≤ severity_rank s
unfolding severity_rank
known-rank s h = ground arith

rank-known : (s : Severity) → 1 ≤ severity_rank s → is_unknown s ≡ false
unfolding severity_rank
rank-known s h = ground arith

threshold-anti :
    (p q : Posture)
    → strictness p ≤ strictness q
    → severity_rank (posture_threshold q) ≤ severity_rank (posture_threshold p)
unfolding severity_rank
threshold-anti p q h = ground arith

Reaches-mono :
    (c : Context) (f : Finding) (p q : Posture) (n m : ℕ)
    → strictness p ≤ strictness q
    → n ≤ m
    → Reaches (judged p n c) f
    → Reaches (judged q m c) f
Reaches-mono c f p q n m pq nm (by_highest e known over) =
    by_highest (ground arith) known (omega arith)
Reaches-mono c f p relaxed n m pq nm (by_distro s e known runs status net rating over) =
    absurd (ground arith)
Reaches-mono c f p balanced n m pq nm (by_distro s e known runs status net rating over) =
    by_distro s (inl refl) known runs status net rating
      (omega (arith, threshold-anti p balanced pq))
Reaches-mono c f p strict n m pq nm (by_distro s e known runs status net rating over) =
    by_distro s (inr refl) known runs status net rating (omega (arith, threshold-anti p strict pq))
Reaches-mono c f p paranoid n m pq nm (by_distro s e known runs status net rating over) =
    let (own, distro) = paranoid_severity-ge f in
    by_highest refl
      (rank-known (paranoid_severity f) (omega (arith, own, known-rank f.severity known)))
      (let two : 2 ≤ severity_rank (posture_threshold p) =
          unfold severity_rank in threshold-anti p paranoid pq in
        omega (arith, two, distro s rating))

kev_mono :
    (d : Bool) (p q : Posture) (fix : Option String)
    → strictness p ≤ strictness q
    → at_gate (kev_disposition d p fix) ≡ true
    → at_gate (kev_disposition d q fix) ≡ true
kev_mono true p q fix h k = refl
kev_mono false p q none h k = ground arith
kev_mono false p q (some v) h k = ground arith

gate-mono_unfixed :
    (c : Context) (f : Finding) (p q : Posture) (n m : ℕ)
    → strictness p ≤ strictness q
    → n ≤ m
    → c.kev_lookup f.cve_id ≡ false
    → fix_available f ≡ false
    → at_gate (evaluate_finding (judged p n c) f).disposition ≡ true
    → at_gate (evaluate_finding (judged q m c) f).disposition ≡ true
gate-mono_unfixed c f p q n m pq nm kev fix h =
    let (active, reaches) = (gate_iff (judged p n c) f kev fix).0 h in
    (gate_iff (judged q m c) f kev fix).1 (active, Reaches-mono c f p q n m pq nm reaches)

-- What one posture and penalty stop, every stricter posture with an equal or larger penalty stops
-- too, whatever else is known of the finding, exploited or not, fixed or not.
pub gate_mono :
    (c : Context) (f : Finding) (p q : Posture) (n m : ℕ)
    → strictness p ≤ strictness q
    → n ≤ m
    → at_gate (evaluate_finding (judged p n c) f).disposition ≡ true
    → at_gate (evaluate_finding (judged q m c) f).disposition ≡ true
gate_mono c f p q n m pq nm h = elim (Bool-cases (c.kev_lookup f.cve_id)) [
  | inl kev ↦ rw (kev_decides (judged q m c) f kev).0 (
      kev_mono c.dangerously_disable_quarantine p q f.fixed_version pq
        (rw (kev_decides (judged p n c) f kev).0 at h))
  | inr kev ↦ elim (Bool-cases (fix_available f)) [
    | inl fix ↦ cc (rw (fixed_flag (judged p n c) f kev fix).0 at h)
    | inr fix ↦ gate-mono_unfixed c f p q n m pq nm kev fix h
  ]
]
