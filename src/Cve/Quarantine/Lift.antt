-- ===== src/Cve/Quarantine/Lift.antt =====
-- src/boxmunge/cve/quarantine.py: lift_quarantine, with release and originals of restart_hold.py.
pub mod Groups
pub mod Release
pub mod Restores
use boxmunge.Prelude.{
  ℕ, zero, suc, ◌+◌, ◌-◌, ◌*◌, ◌/◌, ◌%◌, ◌^◌, ◌≤◌, ◌<◌, min, max, String, ◌≡◌, refl, sym, ap, ◌∙◌,
  subst, ◌≢◌, ◌↔◌, ◌⊎◌, inl, inr, Bool, true, false, not, ◌&&◌, ◌||◌, Option, none, some, List, [],
  ◌∷◌, ◌++◌, map, Perm, arith, eq_iff, eq_refl, ltb, leb, ◌==◌, if◌then◌else◌, Bool-cases,
  Option-cases, is_some, get_or_else, length, any, all, keep, All, Some, here, there, Dict, lookup,
  insert, keys, values, str_eq, str_le, elem, subset, sorted, insert_sorted, IsSorted, Value, null,
  bool, int, float, str, day, instant, arr, obj, Date, Instant, date_lt,
}
use boxmunge.Cve.Quarantine.{
  World, RecordFile, QuarantineRecord, Failure, Outcome, Site, normal, done, failed, no_record,
  unreadable, recorded, then_do, saved_of, write_site, caddy_reload, set_restart_policy,
  cannot_restore, cannot_read_record, cannot_restart,
}

-- Which calls fail. Each `docker update` of a release has an entry, and succeeds without one.
pub record LiftFaults : Type 0 where
  pub site_file : Bool
  pub reload : Bool
  pub list_policies : Bool
  pub updates : List (Option (List String))
  pub up : Bool
  pub after_start : Option Failure
  pub hand_over : Option Failure

-- by_policy.setdefault(policy, []).append(name)
abbrev pub append_name : String → String → Dict (List String) → Dict (List String)
append_name policy name groups =
    insert policy (get_or_else (lookup policy groups) [] ++ name ∷ []) groups

-- `if name in present and policy != present[name]`
abbrev pub regroup :
    String → Option String → Option String → Dict (List String) → Dict (List String)
regroup name (some policy) (some present) groups =
    if str_eq policy present then groups else append_name policy name groups
regroup name _ _ groups = groups

-- The loop over saved.items(), by its names.
unfoldable pub group_names :
    Dict String → Dict String → List String → Dict (List String) → Dict (List String)
group_names saved present [] groups = groups
group_names saved present (name ∷ rest) groups =
    group_names saved present rest (regroup name (lookup name saved) (lookup name present) groups)

abbrev pub by_policy : String × List String → String × List String → Bool
by_policy (p, _) (q, _) = str_le p q

abbrev pub raised_as : Failure → Outcome → Outcome
raised_as e (done w) = done w
raised_as e (failed _ w) = failed e w

unfoldable pub set_groups :
    List (Option (List String)) → List (String × List String) → World → Outcome
set_groups faults [] w = done w
set_groups [] ((policy, names) ∷ rest) w =
    then_do (set_restart_policy none (sorted str_le names) policy w) (set_groups [] rest)
set_groups (fault ∷ faults) ((policy, names) ∷ rest) w =
    then_do (set_restart_policy fault (sorted str_le names) policy w) (set_groups faults rest)

-- restart_hold.release, as _restore_restart_policies calls it
unfoldable pub release : LiftFaults → Dict String → World → Outcome
unfolding group_names set_groups
release f saved w =
    if f.list_policies
    then failed cannot_restore w
    else raised_as cannot_restore
        (set_groups f.updates (sorted by_policy (group_names saved w.policies (keys saved) [])) w)

abbrev pub compose_up : Bool → World → Outcome
compose_up fails w = if fails then failed cannot_restart w else done (record w { running = true })

-- restart_hold.originals, one record's items into the result
abbrev pub take_original : String → String → Option String → Dict String → Dict String
take_original name policy none out = insert name policy out
take_original name policy (some p) out = if str_eq p "no" then insert name policy out else out

unfoldable pub add_originals : Dict String → Dict String → Dict String
add_originals [] out = out
add_originals ((name, policy) ∷ rest) out =
    add_originals rest (take_original name policy (lookup name out) out)

unfoldable pub originals : Dict String → Dict String → Dict String
unfolding add_originals
originals paused saved = add_originals saved (add_originals paused [])

-- clear_quarantine_state
abbrev pub clear_record : World → Outcome
clear_record w = done (record w { record_file = no_record })

abbrev pub or_fail : Option Failure → World → Outcome
or_fail none w = done w
or_fail (some e) w = failed e w

-- the rest of lift_quarantine on a record: `none` where the project is paused as well
unfoldable pub lift_record :
    LiftFaults → Option String → Option (Dict String) → QuarantineRecord → World → Outcome
unfolding release originals
lift_record f none restore r w =
    then_do (or_fail f.hand_over w)
      (λ a. clear_record (record a { paused_policies = originals a.paused_policies (saved_of r) }))
lift_record f (some content) restore r w = then_do (write_site f.site_file (normal content) w) (λ a.
    then_do (caddy_reload f.reload a) (λ b.
      then_do (release f (get_or_else restore (saved_of r)) b)
        (λ c. then_do (compose_up f.up c) (λ d. then_do (or_fail f.after_start d) clear_record))))

abbrev pub lift_on :
    RecordFile → LiftFaults → Option String → Option (Dict String) → World → Outcome
lift_on no_record f content restore w = done w
lift_on unreadable f content restore w = failed cannot_read_record w
lift_on (recorded r) f content restore w = lift_record f content restore r w

unfoldable pub lift_quarantine : LiftFaults → Option String → Option (Dict String) → World → Outcome
unfolding lift_record
lift_quarantine f content restore w = lift_on w.record_file f content restore w
