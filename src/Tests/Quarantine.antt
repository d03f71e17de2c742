-- ===== src/Tests/Quarantine.antt =====
-- A project whose quarantine fails at the stop, is re-asserted, and a window of grace.
use boxmunge.Prelude.{
  ◌≤◌, String, ◌≡◌, refl, ◌↔◌, ◌⊎◌, true, false, none, some, [], ◌∷◌, arith, lookup, inl,
}
use boxmunge.Cve.SecurityPolicy.{SecurityPolicy, relaxations}
use boxmunge.Cve.SecurityPolicy.Laws.{relaxations-none, RuntimesKept}
use boxmunge.Cve.Policy.Types.{balanced, strict}
use boxmunge.Cve.Quarantine.{
  World, QuarantineRecord, Notice, Faults, no_record, recorded, maintenance, normal,
  quarantine_project, reassert_quarantine,
}
use boxmunge.Cve.Quarantine.Enforce.{enforce, absent}
use boxmunge.Cve.Quarantine.History.{start, attempt, Attempts-Safe, Ends}
use boxmunge.Cve.Quarantine.Safe.{Safe}
use boxmunge.Cve.Quarantine.Outcomes.{
  quarantine_project-lands, reassert_quarantine-converges, faultless, Down, Marked,
}
use boxmunge.Cve.Quarantine.Lift.{LiftFaults, lift_quarantine}
use boxmunge.Cve.Quarantine.Lift.Restores.{Back, StillHeld, lift_quarantine-Back}
use boxmunge.Cve.Grace.{GraceState, missing, holds, init_grace_if_missing, mark_heads_up_sent}
use boxmunge.Cve.Grace.Laws.{Steps, scan, heads_up, stop, step, grace-once, InGrace}

abbrev policy : SecurityPolicy
policy = record {
  posture = balanced;
  dangerously_disable_quarantine = false;
  runtimes = some ("python" ∷ []);
}

abbrev tighter : SecurityPolicy
tighter = record policy { posture = strict; runtimes = some ("python" ∷ "node" ∷ []) }

relaxations-none_example : (relaxations policy tighter ≡ []) ↔ (
    (1 ≤ 2)
    × (false ≡ false → false ≡ false)
    × RuntimesKept (some ("python" ∷ [])) (some ("python" ∷ "node" ∷ [])))
relaxations-none_example = relaxations-none policy tighter

abbrev notice : Notice
notice = record {
  quarantined_at = "2026-06-01T03:00:00+00:00";
  cve_id = "CVE-2026-1001";
  severity = "high";
  effective_severity = "high";
  explanation = "reachable";
  image_ref = "demo:1";
  policy = policy;
}

abbrev world : World
world = record {
  record_file = no_record;
  site = normal "demo";
  live = normal "demo";
  running = true;
  policies = ("demo-db-1", "always") ∷ ("demo-web-1", "always") ∷ [];
  paused_policies = [];
}

abbrev original : String → String
original name = "always"

-- `docker update` changes the second container only.
abbrev update_breaks : Faults
update_breaks = record faultless { update = some ("demo-web-1" ∷ []) }

abbrev after_one : World
after_one = (enforce absent update_breaks (some notice) false world).1

abbrev after_two : World
after_two = (enforce absent faultless none false after_one).1

all_always : (n p : String) → lookup n world.policies ≡ some p → p ≡ original n
unfolding lookup
all_always n p h = ground arith

Attempts-Safe_example : Safe original after_two
Attempts-Safe_example =
    Attempts-Safe original world after_two refl all_always
      (attempt absent update_breaks (some notice) false (attempt absent faultless none false start))

quarantine_project-lands_example :
    Ends Down
      (λ u. (u ≡ world) ⊎ Marked (some false) u)
      (quarantine_project update_breaks notice world)
quarantine_project-lands_example = quarantine_project-lands update_breaks notice world

abbrev half_done : QuarantineRecord
half_done = record {
  notice = notice;
  action_complete = some false;
  restart_policies = some (("demo-web-1", "always") ∷ []);
}

abbrev half_world : World
half_world = record world { record_file = recorded half_done; site = maintenance }

reassert_quarantine-converges_example :
    Ends Down (λ u. ⊥) (reassert_quarantine faultless half_world)
reassert_quarantine-converges_example = reassert_quarantine-converges half_done half_world refl

-- A first scan at time 5, another one two days later, and the heads-up.
abbrev opened : GraceState
opened = record { installed_at = 5; expires_at = 86400000005; heads_up_sent = false }

abbrev told : GraceState
told = record opened { heads_up_sent = true }

steps : Steps (init_grace_if_missing missing 5).1 (holds told)
unfolding init_grace_if_missing mark_heads_up_sent
steps = step (scan 172800000000 (holds opened)) (step (heads_up opened) stop)

grace-once_example : InGrace 5 (holds told)
grace-once_example = grace-once 5 (holds told) steps

-- The lift of the half-done quarantine, in which `docker update` fails once it changed nothing.
abbrev lift_breaks : LiftFaults
lift_breaks = record {
  site_file = false;
  reload = false;
  list_policies = false;
  updates = some [] ∷ [];
  up = false;
  after_start = none;
  hand_over = none;
}

half_Safe : Safe original half_world
unfolding lookup
half_Safe = (λ n p h. ground arith, λ n p h. inl (ground arith))

lift_quarantine-Back_example :
    Ends
      (Back original "demo")
      (StillHeld original half_world)
      (lift_quarantine lift_breaks (some "demo") none half_world)
lift_quarantine-Back_example =
    lift_quarantine-Back original lift_breaks "demo" half_done half_world refl half_Safe
