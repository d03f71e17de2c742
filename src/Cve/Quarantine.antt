-- ===== src/Cve/Quarantine.antt =====
-- src/boxmunge/cve/quarantine.py, with restart_hold.py: taking a project offline, and lifting it.
-- Caddy and Docker are outside: each call of theirs and each file write may fail, as the faults say.
pub mod Enforce
pub mod Lift
pub mod Safe
pub mod History
pub mod Outcomes
use boxmunge.Prelude.{
  ℕ, zero, suc, ◌+◌, String, Bool, true, false, not, Option, none, some, List, [], ◌∷◌, ◌++◌,
  if◌then◌else◌, get_or_else, keep, Dict, lookup, keys, str_eq, str_le, elem, sorted,
}
use boxmunge.Cve.SecurityPolicy.{SecurityPolicy}

-- What write_quarantine_state stores of the headline.
pub record Notice : Type 0 where
  pub quarantined_at : String
  pub cve_id : String
  pub severity : String
  pub effective_severity : String
  pub explanation : String
  pub image_ref : String
  pub policy : SecurityPolicy

-- The document; a field that an old record lacks is `none`.
pub record QuarantineRecord : Type 0 where
  pub notice : Notice
  pub action_complete : Option Bool
  pub restart_policies : Option (Dict String)

pub data RecordFile : Type 0 where
  no_record unreadable : RecordFile
  recorded : QuarantineRecord → RecordFile

pub data Site : Type 0 where
  maintenance : Site
  normal : String → Site

-- The project's files and containers: the site file, the site that Caddy serves, whether the
-- containers run, and each container's restart policy.
pub record World : Type 0 where
  pub record_file : RecordFile
  pub site : Site
  pub live : Site
  pub running : Bool
  pub policies : Dict String
  -- the originals in the pause record, where the project is paused as well
  pub paused_policies : Dict String

-- The message of a QuarantineError.
pub data Failure : Type 0 where
  no_record_to_reassert cannot_read_record cannot_write_record : Failure
  cannot_write_site cannot_reload cannot_stop : Failure
  cannot_hold cannot_restore cannot_restart not_as_scanned : Failure

pub data Outcome : Type 0 where
  done : World → Outcome
  failed : Failure → World → Outcome

abbrev pub world_of : Outcome → World
world_of (done w) = w
world_of (failed e w) = w

-- One step after another, as an exception stops the rest.
abbrev pub then_do : Outcome → (World → Outcome) → Outcome
then_do (done w) next = next w
then_do (failed e w) next = failed e w

-- Which calls fail. A `docker update` that fails has still changed some of its containers, whichever.
pub record Faults : Type 0 where
  pub first_record : Bool
  pub site_file : Bool
  pub reload : Bool
  pub stop : Bool
  pub list_policies : Bool
  pub saved_record : Bool
  pub update : Option (List String)
  pub last_record : Bool

-- `_write_record`
abbrev pub write_record : Bool → QuarantineRecord → World → Outcome
write_record fails r w =
    if fails then failed cannot_write_record w else done (record w { record_file = recorded r })

abbrev pub write_site : Bool → Site → World → Outcome
write_site fails s w = if fails then failed cannot_write_site w else done (record w { site = s })

abbrev pub caddy_reload : Bool → World → Outcome
caddy_reload fails w = if fails then failed cannot_reload w else done (record w { live = w.site })

abbrev pub compose_stop : Bool → World → Outcome
compose_stop fails w = if fails then failed cannot_stop w else done (record w { running = false })

-- `docker update --restart=policy names`
unfoldable pub updated : List String → String → Dict String → Dict String
updated names policy [] = []
updated names policy ((n, p) ∷ rest) =
    (n, if elem n names then policy else p) ∷ updated names policy rest

abbrev pub reached_of : List String → List String → List String
reached_of changed names = keep (λ n. elem n changed) names

-- Without names nothing is called. A call that fails goes on past a container that it cannot change:
-- `some changed` has the containers that it did change.
abbrev pub set_restart_policy : Option (List String) → List String → String → World → Outcome
set_restart_policy none names policy w =
    done (record w { policies = updated names policy w.policies })
set_restart_policy (some changed) [] policy w =
    done (record w { policies = updated [] policy w.policies })
set_restart_policy (some changed) (n ∷ names) policy w =
    failed cannot_hold
      (record w { policies = updated (reached_of changed (n ∷ names)) policy w.policies })

-- merged.setdefault(name, policy), over the current policies
abbrev pub set_default : String → String → Option String → Dict String → Dict String
set_default n p none m = m ++ (n, p) ∷ []
set_default n p (some _) m = m

unfoldable pub set_defaults : Dict String → Dict String → Dict String
set_defaults saved [] = saved
set_defaults saved ((n, p) ∷ rest) = set_defaults (set_default n p (lookup n saved) saved) rest

abbrev pub is_restarting : String × String → Bool
is_restarting (n, p) = not (str_eq p "no")

abbrev pub restarting : Dict String → List String
restarting current = sorted str_le (keys (keep is_restarting current))

abbrev pub saved_of : QuarantineRecord → Dict String
saved_of r = get_or_else r.restart_policies []

-- restart_hold.hold, with the `persist` that _pin_restart_policies passes
unfoldable pub hold : Faults → QuarantineRecord → World → Outcome
unfolding set_defaults
hold f r w =
    let merged = set_defaults (saved_of r) w.policies in
    if f.list_policies
    then failed cannot_hold w
    else then_do (write_record f.saved_record (record r { restart_policies = some merged }) w)
        (set_restart_policy f.update (restarting w.policies) "no")

-- `_complete_action`
unfoldable pub complete_action : Faults → QuarantineRecord → World → Outcome
unfolding hold
complete_action f r w =
    let held = λ (u : World). record r {
      action_complete = some true;
      restart_policies = some (set_defaults (saved_of r) u.policies);
    } in
    then_do (write_site f.site_file maintenance w) (λ a. then_do (caddy_reload f.reload a) (λ b.
      then_do (compose_stop f.stop b)
        (λ c. then_do (hold f r c) (write_record f.last_record (held c)))))

-- quarantine_project: the record first
unfoldable pub quarantine_project : Faults → Notice → World → Outcome
unfolding complete_action
quarantine_project f notice w =
    let r : QuarantineRecord = record {
      notice = notice;
      action_complete = some false;
      restart_policies = none;
    } in
    then_do (write_record f.first_record r w) (complete_action f r)

-- reassert_quarantine, on what the record file holds
abbrev pub reassert_on : RecordFile → Faults → World → Outcome
reassert_on no_record f w = failed no_record_to_reassert w
reassert_on unreadable f w = failed cannot_read_record w
reassert_on (recorded r) f w = complete_action f r w

unfoldable pub reassert_quarantine : Faults → World → Outcome
reassert_quarantine f w = reassert_on w.record_file f w

abbrev pub has_record : RecordFile → Bool
has_record no_record = false
has_record _ = true

abbrev pub is_quarantined : World → Bool
is_quarantined w = has_record w.record_file
