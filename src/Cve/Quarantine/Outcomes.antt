-- ===== src/Cve/Quarantine/Outcomes.antt =====
-- What a quarantine that landed guarantees, and what one that failed leaves behind.
use boxmunge.Prelude.{
  String, ◌≡◌, refl, sym, ◌∙◌, subst, ◌⊎◌, inl, inr, Bool, true, false, ◌||◌, Option, none, some,
  [], ◌∷◌, arith, eq_iff, if◌then◌else◌, Bool-cases, keep, Dict, lookup, keys, str_eq, elem,
  elem-sorted, List,
}
use boxmunge.Cve.Quarantine.{
  World, QuarantineRecord, Notice, Faults, Outcome, maintenance, done, failed, recorded,
  quarantine_project, reassert_quarantine, updated, set_defaults, hold, complete_action, then_do,
  saved_of, write_record, write_site, caddy_reload, compose_stop, set_restart_policy, restarting,
  is_restarting, cannot_hold, cannot_write_site, cannot_reload, cannot_write_record, cannot_stop,
  reassert_on,
}
use boxmunge.Cve.Quarantine.History.{Ends, then_do-Ends, if-Ends}
use boxmunge.Cve.Quarantine.Safe.{updated-lookup, put_policy}

some-inj : (a b : String) → some a ≡ some b → a ≡ b
some-inj a b h = cc

if_true : (b : Bool) (x y z : Option String) → b ≡ true → (if b then x else y) ≡ z → x ≡ z
if_true b x y z e h = ground arith

if_false : (b : Bool) (x y z : Option String) → b ≡ false → (if b then x else y) ≡ z → y ≡ z
if_false b x y z e h = ground arith

restarting_keys :
    (n p : String) (m : Dict String)
    → lookup n m ≡ some p
    → (str_eq p "no" || elem n (keys (keep is_restarting m))) ≡ true
unfolding lookup elem
restarting_keys n p [] h = cc
restarting_keys n p ((k, q) ∷ m) h = elim (Bool-cases (str_eq k n)) [
  | inl e ↦
      let same : q ≡ p = some-inj q p (if_true (str_eq k n) (some q) (lookup n m) (some p) e h) in
      subst (λ t. (str_eq t "no" || elem n (keys (keep is_restarting ((k, q) ∷ m)))) ≡ true) same
        (ground (arith, eq_iff k n, eq_iff n k))
  | inr e ↦
      ground
        (arith, restarting_keys n p m (if_false (str_eq k n) (some q) (lookup n m) (some p) e h))
]

-- No container restarts by itself.
abbrev pub AllHeld : Dict String → Type 0
AllHeld policies = (n p : String) → lookup n policies ≡ some p → p ≡ "no"

put_policy-no : (o : Option String) (p : String) → put_policy "no" o ≡ some p → p ≡ "no"
put_policy-no none p h = cc
put_policy-no (some q) p h = cc

stop_all : (m : Dict String) → AllHeld (updated (restarting m) "no" m)
stop_all m n p h =
    let found = sym (updated-lookup n "no" (restarting m) m) ∙ h in
    let held = put_policy "no" (lookup n m) in
    elim (Bool-cases (elem n (restarting m))) [
      | inl e ↦
          put_policy-no (lookup n m) p
            (if_true (elem n (restarting m)) held (lookup n m) (some p) e found)
      | inr e ↦
          let (to, _) = eq_iff p "no" in
          to (
            ground (
              arith,
              restarting_keys n p m
                  (if_false (elem n (restarting m)) held (lookup n m) (some p) e found),
              elem-sorted n (keys (keep is_restarting m)),
            ))
    ]

-- The project is offline: the record is complete, Caddy serves the maintenance page, nothing runs,
-- and nothing restarts when Docker does.
abbrev pub Down : World → Type 0
Down w =
    ((r : QuarantineRecord) × ((w.record_file ≡ recorded r) × (r.action_complete ≡ some true)))
    × (w.live ≡ maintenance)
    × (w.running ≡ false)
    × AllHeld w.policies

-- The record is there, and not complete unless it was before.
abbrev pub Marked : Option Bool → World → Type 0
Marked complete w =
    (r : QuarantineRecord) × ((w.record_file ≡ recorded r) × (r.action_complete ≡ complete))

abbrev Idle : Option Bool → World → World → Type 0
Idle complete w u =
    (u.live ≡ w.live) × (u.running ≡ w.running) × AllHeld u.policies × Marked complete u

update-Idle :
    (after : Option (List String)) (names : List String) (r : QuarantineRecord) (w : World)
    → restarting w.policies ≡ names
    → w.record_file ≡ recorded r
    → Ends
        (Idle r.action_complete w)
        (Marked r.action_complete)
        (set_restart_policy after names "no" w)
update-Idle none names r w k e = (
  refl,
  refl,
  subst (λ ns. AllHeld (updated ns "no" w.policies)) k (stop_all w.policies),
  (r, (e, refl)),
)
update-Idle (some changed) [] r w k e = (
  refl,
  refl,
  subst (λ ns. AllHeld (updated ns "no" w.policies)) k (stop_all w.policies),
  (r, (e, refl)),
)
update-Idle (some changed) (n ∷ names) r w k e = (r, (e, refl))

hold-Idle :
    (f : Faults) (r : QuarantineRecord) (w : World)
    → w.record_file ≡ recorded r
    → Ends (Idle r.action_complete w) (Marked r.action_complete) (hold f r w)
unfolding hold
hold-Idle f r w e =
    let saved : QuarantineRecord = record r {
      restart_policies = some (set_defaults (saved_of r) w.policies);
    } in
    let u : World = record w { record_file = recorded saved } in
    let Q = Marked r.action_complete in
    let update = set_restart_policy f.update (restarting w.policies) "no" in
    let here_ : Q w = (r, (e, refl)) in
    if-Ends (Idle r.action_complete w) Q f.list_policies (failed cannot_hold w)
      (then_do (write_record f.saved_record saved w) update) here_
      (then_do-Ends (λ v. v ≡ u) (Idle r.action_complete w) Q (write_record f.saved_record saved w)
        update
        (if-Ends (λ v. v ≡ u) Q f.saved_record (failed cannot_write_record w) (done u) here_ refl)
        (λ v same.
          subst (λ t. Ends (Idle r.action_complete w) Q (update t)) (sym same)
            (update-Idle f.update (restarting w.policies) saved u refl refl)))

complete_action-Down :
    (f : Faults) (r : QuarantineRecord) (w : World)
    → w.record_file ≡ recorded r
    → Ends Down (Marked r.action_complete) (complete_action f r w)
unfolding complete_action
complete_action-Down f r w e =
    let Q = Marked r.action_complete in
    let At = λ (v : World). v.record_file ≡ recorded r in
    let Routed = λ (v : World). At v × (v.site ≡ maintenance) in
    let Live = λ (v : World). At v × (v.live ≡ maintenance) in
    let Stopped = λ (v : World). At v × (v.live ≡ maintenance) × (v.running ≡ false) in
    then_do-Ends Routed Down Q (write_site f.site_file maintenance w) _
      (if-Ends Routed Q f.site_file (failed cannot_write_site w) _ (r, (e, refl)) (e, refl))
      (λ a (ea, sa).
        then_do-Ends Live Down Q (caddy_reload f.reload a) _
          (if-Ends Live Q f.reload (failed cannot_reload a) _ (r, (ea, refl)) (ea, sa))
          (λ b (eb, lb).
            then_do-Ends Stopped Down Q (compose_stop f.stop b) _
              (if-Ends Stopped Q f.stop (failed cannot_stop b) _ (r, (eb, refl)) (eb, lb, refl))
              (λ c (ec, lc, rc).
                then_do-Ends (Idle r.action_complete c) Down Q (hold f r c) _ (hold-Idle f r c ec)
                  (λ v (lv, rv, hv, mv).
                    if-Ends Down Q f.last_record (failed cannot_write_record v) _ mv
                      ((_, (refl, refl)), lv ∙ lc, rv ∙ rc, hv)))))

Ends-weaken :
    (P Q R : World → Type 0) (o : Outcome) → ((w : World) → Q w → R w) → Ends P Q o → Ends P R o
Ends-weaken P Q R (done w) k h = h
Ends-weaken P Q R (failed e w) k h = k w h

Ends-both :
    (P Q : World → Type 0) (o : Outcome)
    → Ends P Q o
    → Ends (λ w. Unit) (λ w. ⊥) o
    → Ends P (λ w. ⊥) o
Ends-both P Q (done w) h k = h
Ends-both P Q (failed e w) h k = k

-- A quarantine that succeeds leaves the project offline with a complete record. One that fails, at
-- whatever step, leaves the record in place and not complete; only where the record could not be
-- written at all, nothing at all has changed.
pub quarantine_project-lands :
    (f : Faults) (notice : Notice) (w : World)
    → Ends Down (λ u. (u ≡ w) ⊎ Marked (some false) u) (quarantine_project f notice w)
unfolding quarantine_project
quarantine_project-lands f notice w =
    let r : QuarantineRecord = record {
      notice = notice;
      action_complete = some false;
      restart_policies = none;
    } in
    let Q = λ (u : World). (u ≡ w) ⊎ Marked (some false) u in
    let At = λ (v : World). v.record_file ≡ recorded r in
    then_do-Ends At Down Q (write_record f.first_record r w) (complete_action f r)
      (if-Ends At Q f.first_record (failed cannot_write_record w) _ (inl refl) refl)
      (λ v e.
        Ends-weaken Down (Marked (some false)) Q (complete_action f r v) (λ u m. inr m)
          (complete_action-Down f r v e))

-- No call and no write fails.
abbrev pub faultless : Faults
faultless = record {
  first_record = false;
  site_file = false;
  reload = false;
  stop = false;
  list_policies = false;
  saved_record = false;
  update = none;
  last_record = false;
}

faultless_done :
    (r : QuarantineRecord) (w : World) → Ends (λ u. Unit) (λ u. ⊥) (complete_action faultless r w)
unfolding complete_action
faultless_done r w = tt

-- Re-asserting a recorded quarantine, in whatever state earlier failures or drift left the project,
-- takes it offline with a complete record as soon as no step fails.
pub reassert_quarantine-converges :
    (r : QuarantineRecord) (w : World)
    → w.record_file ≡ recorded r
    → Ends Down (λ u. ⊥) (reassert_quarantine faultless w)
unfolding reassert_quarantine
reassert_quarantine-converges r w e =
    subst (λ t. Ends Down (λ u. ⊥) (reassert_on t faultless w)) (sym e)
      (Ends-both Down (Marked r.action_complete) (complete_action faultless r w)
        (complete_action-Down faultless r w e) (faultless_done r w))
