-- ===== src/Cve/Quarantine/History.antt =====
-- The restart policies through any history of enforcement attempts, whatever fails in each.
use boxmunge.Prelude.{
  String, ◌≡◌, refl, sym, subst, inl, inr, Bool, true, false, not, Option, none, some, List, [],
  if◌then◌else◌, Bool-cases, Dict, lookup, ◌∷◌,
}
use boxmunge.Cve.Quarantine.{
  World, RecordFile, QuarantineRecord, Notice, Faults, Outcome, done, failed, no_record, unreadable,
  recorded, quarantine_project, reassert_quarantine, is_quarantined, set_defaults, hold,
  complete_action, then_do, world_of, saved_of, write_record, write_site, caddy_reload,
  compose_stop, set_restart_policy, restarting, cannot_hold, cannot_write_record, maintenance,
  cannot_write_site, cannot_reload, cannot_stop, reached_of, reassert_on, has_record,
}
use boxmunge.Cve.Quarantine.Enforce.{
  enforce, LegacyStage, concluded, take, reassert, absent, staged, cannot_tell, due, is_complete,
}
use boxmunge.Cve.Quarantine.Safe.{Safe, Settled, held-Settled, saved_in}

-- A step that ends in P when it is done, and in Q when it fails.
abbrev pub Ends : (World → Type 0) → (World → Type 0) → Outcome → Type 0
Ends P Q (done w) = P w
Ends P Q (failed e w) = Q w

pub then_do-Ends :
    (P R Q : World → Type 0) (o : Outcome) (next : World → Outcome)
    → Ends P Q o
    → ((w : World) → P w → Ends R Q (next w))
    → Ends R Q (then_do o next)
then_do-Ends P R Q (done w) next h k = k w h
then_do-Ends P R Q (failed e w) next h k = h

Ends-world : (Q : World → Type 0) (o : Outcome) → Ends Q Q o → Q (world_of o)
Ends-world Q (done w) h = h
Ends-world Q (failed e w) h = h

pub if-Ends :
    (P Q : World → Type 0) (b : Bool) (x y : Outcome)
    → Ends P Q x
    → Ends P Q y
    → Ends P Q (if b then x else y)
if-Ends P Q true x y h k = h
if-Ends P Q false x y h k = k

-- The world while the action on this record runs.
abbrev Acting : (String → String) → QuarantineRecord → World → Type 0
Acting original r w = (w.record_file ≡ recorded r) × Settled original (saved_of r) w.policies

Acting-Safe :
    (original : String → String) (r : QuarantineRecord) (w : World)
    → Acting original r w
    → Safe original w
Acting-Safe original r w (e, s) = subst (λ f. Settled original (saved_in f) w.policies) (sym e) s

-- The world after the hold: safe already, and safe once this record is written again.
abbrev Held : (String → String) → Dict String → World → Type 0
Held original saved w = Safe original w × Settled original saved w.policies

update-Held :
    (original : String → String) (after : Option (List String)) (names : List String)
    (r : QuarantineRecord) (w : World)
    → Settled original (saved_of r) w.policies
    → let merged = set_defaults (saved_of r) w.policies in
      Ends (Held original merged) (Safe original) (
        set_restart_policy after names "no"
          (record w { record_file = recorded (record r { restart_policies = some merged }) }))
update-Held original none names r w s =
    let h = held-Settled original (saved_of r) w.policies names s in (h, h)
update-Held original (some changed) [] r w s =
    let h = held-Settled original (saved_of r) w.policies [] s in (h, h)
update-Held original (some changed) (n ∷ names) r w s =
    held-Settled original (saved_of r) w.policies (reached_of changed (n ∷ names)) s

hold-Held :
    (original : String → String) (f : Faults) (r : QuarantineRecord) (w : World)
    → Acting original r w
    → Ends (Held original (set_defaults (saved_of r) w.policies)) (Safe original) (hold f r w)
unfolding hold
hold-Held original f r w (e, s) =
    let merged = set_defaults (saved_of r) w.policies in
    let saved : QuarantineRecord = record r { restart_policies = some merged } in
    let u : World = record w { record_file = recorded saved } in
    let P = Held original merged in
    let Q = Safe original in
    let update = set_restart_policy f.update (restarting w.policies) "no" in
    let safe = Acting-Safe original r w (e, s) in
    if-Ends P Q f.list_policies (failed cannot_hold w)
      (then_do (write_record f.saved_record saved w) update) safe
      (then_do-Ends (λ v. v ≡ u) P Q (write_record f.saved_record saved w) update
        (if-Ends (λ v. v ≡ u) Q f.saved_record (failed cannot_write_record w) (done u) safe refl)
        (λ v same.
          subst (λ t. Ends P Q (update t)) (sym same)
            (update-Held original f.update (restarting w.policies) r w s)))

complete_action-Safe :
    (original : String → String) (f : Faults) (r : QuarantineRecord) (w : World)
    → Acting original r w
    → Ends (Safe original) (Safe original) (complete_action f r w)
unfolding complete_action
complete_action-Safe original f r w a =
    let P = Acting original r in
    let Q = Safe original in
    let held = λ (u : World). record r {
      action_complete = some true;
      restart_policies = some (set_defaults (saved_of r) u.policies);
    } in
    then_do-Ends P Q Q (write_site f.site_file maintenance w) _
      (if-Ends P Q f.site_file (failed cannot_write_site w) _ (Acting-Safe original r w a) a)
      (λ x ax.
        then_do-Ends P Q Q (caddy_reload f.reload x) _
          (if-Ends P Q f.reload (failed cannot_reload x) _ (Acting-Safe original r x ax) ax)
          (λ y ay.
            then_do-Ends P Q Q (compose_stop f.stop y) _
              (if-Ends P Q f.stop (failed cannot_stop y) _ (Acting-Safe original r y ay) ay)
              (λ z az.
                then_do-Ends (Held original (set_defaults (saved_of r) z.policies)) Q Q (hold f r z)
                  _ (hold-Held original f r z az)
                  (λ v hv.
                    if-Ends Q Q f.last_record (failed cannot_write_record v) _ (hv.0) (hv.1)))))

quarantine_project-Safe :
    (original : String → String) (f : Faults) (notice : Notice) (w : World)
    → Safe original w
    → w.record_file ≡ no_record
    → Safe original (world_of (quarantine_project f notice w))
unfolding quarantine_project
quarantine_project-Safe original f notice w s e =
    let r : QuarantineRecord = record {
      notice = notice;
      action_complete = some false;
      restart_policies = none;
    } in
    let Q = Safe original in
    let P = Acting original r in
    Ends-world Q (quarantine_project f notice w) (
      then_do-Ends P Q Q (write_record f.first_record r w) (complete_action f r)
        (if-Ends P Q f.first_record (failed cannot_write_record w) _ s
          (refl, subst (λ t. Settled original (saved_in t) w.policies) e s))
        (complete_action-Safe original f r))

concluded_world : (b : Bool) (o : Outcome) → (concluded b o).1 ≡ world_of o
concluded_world b (done w) = refl
concluded_world b (failed e w) = refl

reassert-Safe :
    (original : String → String) (f : Faults) (w : World) (file : RecordFile)
    → w.record_file ≡ file
    → Safe original w
    → Safe original (reassert file f w).1
unfolding reassert_quarantine
reassert-Safe original f w no_record e s = s
reassert-Safe original f w unreadable e s = s
reassert-Safe original f w (recorded r) e s =
    rw (concluded_world (not (is_complete r)) (reassert_on w.record_file f w)) (
      subst (λ t. Safe original (world_of (reassert_on t f w))) (sym e)
        (Ends-world (Safe original) (complete_action f r w) (
          complete_action-Safe original f r w
            (e, subst (λ t. Settled original (saved_in t) w.policies) e s))))

take-Safe :
    (original : String → String) (found : LegacyStage) (f : Faults) (o : Option Notice) (w : World)
    → w.record_file ≡ no_record
    → Safe original w
    → Safe original (take found f o w).1
take-Safe original absent f none w e s = s
take-Safe original staged f none w e s = s
take-Safe original cannot_tell f none w e s = s
take-Safe original staged f (some notice) w e s = s
take-Safe original absent f (some notice) w e s =
    rw (concluded_world true (quarantine_project f notice w))
      (quarantine_project-Safe original f notice w s e)
take-Safe original cannot_tell f (some notice) w e s =
    rw (concluded_world true (quarantine_project f notice w))
      (quarantine_project-Safe original f notice w s e)

has_record-none : (file : RecordFile) → has_record file ≡ false → file ≡ no_record
has_record-none no_record h = refl
has_record-none unreadable h = cc
has_record-none (recorded r) h = cc

not_quarantined : (w : World) → is_quarantined w ≡ false → w.record_file ≡ no_record
not_quarantined w h = has_record-none w.record_file h

enforce-Safe :
    (original : String → String) (found : LegacyStage) (f : Faults) (headline : Option Notice)
    (in_grace : Bool) (w : World)
    → Safe original w
    → Safe original (enforce found f headline in_grace w).1
unfolding enforce
enforce-Safe original cannot_tell f headline in_grace w s = s
enforce-Safe original staged f headline in_grace w s = elim (Bool-cases (is_quarantined w)) [
  | inl e ↦ rw e s
  | inr e ↦ rw e (take-Safe original staged f (due headline in_grace) w (not_quarantined w e) s)
]
enforce-Safe original absent f headline in_grace w s = elim (Bool-cases (is_quarantined w)) [
  | inl e ↦ rw e (reassert-Safe original f w w.record_file refl s)
  | inr e ↦ rw e (take-Safe original absent f (due headline in_grace) w (not_quarantined w e) s)
]

-- Scans one after another, each with its own faults and findings.
pub data Attempts : World → World → Type 0 where
  start : {w : World} → Attempts w w
  attempt :
      {w u : World} (found : LegacyStage) (f : Faults) (headline : Option Notice) (in_grace : Bool)
      → Attempts (enforce found f headline in_grace w).1 u
      → Attempts w u

Attempts-keep :
    (original : String → String) {w u : World} → Attempts w u → Safe original w → Safe original u
Attempts-keep original start s = s
Attempts-keep original {w} (attempt found f headline in_grace rest) s =
    Attempts-keep original rest (enforce-Safe original found f headline in_grace w s)

nothing_saved : {P : Type 0} (n p : String) → lookup n [] ≡ some p → P
unfolding lookup
nothing_saved n p h = cc

-- From a project that is not quarantined, after any number of enforcement attempts, with any step
-- of any attempt failing: each restart policy that a record has saved is the one the container had
-- at first, and each container has that policy still or has "no" with the first one saved.
pub Attempts-Safe :
    (original : String → String) (w u : World)
    → w.record_file ≡ no_record
    → ((n p : String) → lookup n w.policies ≡ some p → p ≡ original n)
    → Attempts w u
    → Safe original u
Attempts-Safe original w u e h steps = Attempts-keep original steps (
    subst (λ t. Settled original (saved_in t) w.policies) (sym e)
      (λ n p k. nothing_saved n p k, λ n p k. inl (h n p k)))
