-- ===== src/Cve/Quarantine/Enforce.antt =====
-- src/boxmunge/commands/security_enforce.py: one attempt to take or re-assert a quarantine.
use boxmunge.Prelude.{
  String, Bool, true, false, not, ◌||◌, Option, none, some, if◌then◌else◌, is_some, get_or_else,
  str_eq,
}
use boxmunge.Cve.Quarantine.{
  World, RecordFile, QuarantineRecord, Notice, Failure, Faults, Outcome, done, failed, no_record,
  unreadable, recorded, cannot_read_record, quarantine_project, reassert_quarantine, is_quarantined,
}

-- Whether a stage of boxmunge 0.10.1 is on disk; the OSError where that cannot be told.
pub data LegacyStage : Type 0 where
  absent staged cannot_tell : LegacyStage

pub data EnforceError : Type 0 where
  action_failed : Failure → EnforceError
  names_no_cve action_not_taken : EnforceError

pub record Enforcement : Type 0 where
  pub error : Option EnforceError
  pub landed : Bool
  pub held : Option String

abbrev pub outcome : Option EnforceError → Bool → Option String → Enforcement
outcome error landed held = record { error = error; landed = landed; held = held }

-- The record's own flag, `is True`
abbrev pub is_complete : QuarantineRecord → Bool
is_complete r = get_or_else r.action_complete false

-- the try block's end
abbrev pub concluded : Bool → Outcome → Enforcement × World
concluded landed (done w) = (outcome none landed none, w)
concluded landed (failed e w) = (outcome (some (action_failed e)) false none, w)

-- `_hold` of a recorded quarantine: `_recorded_cve` first
abbrev pub hold_recorded : RecordFile → Enforcement
hold_recorded no_record = outcome (some names_no_cve) false none
hold_recorded unreadable = outcome (some (action_failed cannot_read_record)) false none
hold_recorded (recorded r) =
    if str_eq r.notice.cve_id ""
    then outcome (some names_no_cve) false none
    else outcome none false (some r.notice.cve_id)

abbrev pub reassert : RecordFile → Faults → World → Enforcement × World
reassert (recorded r) f w = concluded (not (is_complete r)) (reassert_quarantine f w)
reassert _ f w = (outcome (some (action_failed cannot_read_record)) false none, w)

abbrev pub due : Option Notice → Bool → Option Notice
due none in_grace = none
due (some notice) in_grace = if in_grace then none else some notice

-- `enforce` on a project that is not quarantined
abbrev pub take : LegacyStage → Faults → Option Notice → World → Enforcement × World
take found f none w = (outcome none false none, w)
take staged f (some notice) w = (outcome none false (some notice.cve_id), w)
take found f (some notice) w = concluded true (quarantine_project f notice w)

abbrev pub undetermined : Bool → World → Enforcement × World
undetermined is_due w =
    (outcome (if is_due || is_quarantined w then some action_not_taken else none) false none, w)

unfoldable pub enforce : LegacyStage → Faults → Option Notice → Bool → World → Enforcement × World
enforce cannot_tell f headline in_grace w = undetermined (is_some (due headline in_grace)) w
enforce staged f headline in_grace w =
    if is_quarantined w
    then (hold_recorded w.record_file, w)
    else take staged f (due headline in_grace) w
enforce absent f headline in_grace w =
    if is_quarantined w then reassert w.record_file f w else take absent f (due headline in_grace) w
