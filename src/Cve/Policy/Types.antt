-- ===== src/Cve/Policy/Types.antt =====
-- src/boxmunge/cve/policy_types.py
use boxmunge.Prelude.{
  ℕ, zero, suc, ◌+◌, ◌≤◌, min, String, ◌≡◌, refl, Bool, Option, none, some, List, arith, ◌==◌,
  if◌then◌else◌, get_or_else, str_eq, Value, null, str, Date, Instant, strip, lower, codes_eq,
  codes,
}
use boxmunge.Cve.Scanner.{
  Finding, Severity, severity_rank, low, medium, high, critical, AttackVector, VulnStatus,
}
use boxmunge.Cve.Suppressions.{Suppression}

pub data Posture : Type 0 where
  relaxed balanced strict paranoid : Posture

pub data Disposition : Type 0 where
  ignored_fixed suppressed informational quarantine still_running_at_risk : Disposition

-- The message of an explanation, one constructor for each function of policy_explain.py that
-- evaluate_finding calls, and for its two literal texts.
pub data Explanation : Type 0 where
  kev_opted_out : String → Option String → Explanation
  kev_fix_not_running : String → Option String → Explanation
  kev_quarantine : String → Option Date → Option String → Explanation
  fix_available_upstream : Option String → Bool → Explanation
  suppressed_until : Suppression → Explanation
  unknown_severity relaxed_kev_only : Explanation
  by_threshold : Bool → Bool → List String → Explanation
  irrelevant_runtime : String → String → Explanation
  distro_deprioritized : VulnStatus → Option Severity → Explanation
  no_distro_verdict : Severity → Explanation
  av_filtered : Option AttackVector → Explanation
  -- explain_hardening_upcoming: the services, the penalty's growth; the later message is left out
  hardening_upcoming : List String → ℕ → Explanation
  -- read back from a stored state
  stored : String → Explanation

pub record FindingDisposition : Type 0 where
  pub finding : Finding
  pub base_severity : Severity
  pub hardening_penalty : ℕ
  pub effective_severity : Severity
  pub disposition : Disposition
  pub suppression : Option Suppression
  pub explanation : Explanation
  pub kev_listed : Bool
  pub fix_would_quarantine : Bool
  pub hardening_would_quarantine : Bool

pub record ProjectDecision : Type 0 where
  pub project_name : String
  pub image_ref : String
  pub findings : List FindingDisposition
  pub quarantine_required : Bool
  pub at_risk_running : Bool
  pub scanned_at : Instant

-- `_RANK_TO_SEVERITY`, and Python's KeyError for a rank that is not there
abbrev pub rank_to_severity : ℕ → Option Severity
rank_to_severity zero = none
rank_to_severity (suc zero) = some low
rank_to_severity (suc (suc zero)) = some medium
rank_to_severity (suc (suc (suc zero))) = some high
rank_to_severity (suc (suc (suc (suc zero)))) = some critical
rank_to_severity _ = none

-- `_POSTURE_THRESHOLDS`
abbrev pub posture_threshold : Posture → Severity
posture_threshold relaxed = critical
posture_threshold balanced = high
posture_threshold strict = medium
posture_threshold paranoid = medium

-- The lookup never misses (elevate_severity-rank below), so its KeyError has no case here.
unfoldable pub elevate_severity : Severity → ℕ → Severity
unfolding severity_rank
elevate_severity Severity.unknown penalty = Severity.unknown
elevate_severity base penalty =
    get_or_else (rank_to_severity (min (severity_rank base + penalty) (severity_rank critical)))
      Severity.unknown

rank_to_severity-lem :
    (n : ℕ) → 1 ≤ n → n ≤ 4 → severity_rank (get_or_else (rank_to_severity n) Severity.unknown) ≡ n
unfolding severity_rank
rank_to_severity-lem zero h k = absurd (omega arith)
rank_to_severity-lem (suc zero) h k = refl
rank_to_severity-lem (suc (suc zero)) h k = refl
rank_to_severity-lem (suc (suc (suc zero))) h k = refl
rank_to_severity-lem (suc (suc (suc (suc zero)))) h k = refl
rank_to_severity-lem (suc (suc (suc (suc (suc n))))) h k = absurd (omega arith)

-- Elevating a known severity by a penalty adds the penalty to its rank, up to that of critical; an
-- unknown severity stays unknown.
pub elevate_severity-rank :
    (base : Severity) (penalty : ℕ)
    → severity_rank (elevate_severity base penalty)
      ≡ (if severity_rank base == 0 then 0 else min (severity_rank base + penalty) 4)
unfolding elevate_severity
elevate_severity-rank low p = rank_to_severity-lem (min (1 + p) 4) (omega arith) (omega arith)
elevate_severity-rank medium p = rank_to_severity-lem (min (2 + p) 4) (omega arith) (omega arith)
elevate_severity-rank high p = rank_to_severity-lem (min (3 + p) 4) (omega arith) (omega arith)
elevate_severity-rank critical p = rank_to_severity-lem (min (4 + p) 4) (omega arith) (omega arith)
elevate_severity-rank Severity.unknown p = refl

pub data PostureError : Type 0 where
  not_a_text blank unknown_posture : PostureError

pub data Parsed : Type 0 where
  posture : Posture → Parsed
  refused : PostureError → Parsed

-- parse_posture
unfoldable pub parse_posture : Value → Parsed
unfolding strip lower codes_eq
parse_posture null = posture balanced
parse_posture (str value) =
    let normalized = lower (strip value) in
    if str_eq (strip value) ""
    then refused blank
    else if codes_eq normalized (codes "relaxed")
    then posture relaxed
    else if codes_eq normalized (codes "balanced")
    then posture balanced
    else if codes_eq normalized (codes "strict")
    then posture strict
    else if codes_eq normalized (codes "paranoid")
    then posture paranoid
    else refused unknown_posture
parse_posture _ = refused not_a_text
