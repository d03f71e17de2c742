-- ===== src/Cve/Alerting/Quiet.antt =====
-- The alerts of a scan whose findings are those of the scan before.
use boxmunge.Prelude.{
  ◌≤◌, String, ◌≡◌, refl, ap, Bool, true, false, ◌&&◌, Option, none, some, List, [], ◌∷◌, ◌++◌,
  arith, if◌then◌else◌, keep, All, Date, subst, not, sym,
}
use boxmunge.Cve.Alerting.Keys.{Key, Keyed, find_key, put_key, IsMap, put-IsMap, IsMap-finds}
use boxmunge.Cve.Alerting.{
  Hit, AlertKind, hit_of, key_of, note_finding, note_findings, note_decisions, findings_by_key,
  hardening_upcoming_by_key, note_upcoming, kind_of, hits_of, fresh_hits, detect_transitions,
  alert_if, is_kind, same_disposition, kind_code, outranks, scan_date, kev_at_risk, kev_fix_pending,
  still_running, fix_available_now, new_findings, expired_alert, is_host,
}
use boxmunge.Cve.Policy.Types.{
  FindingDisposition, ProjectDecision, ignored_fixed, still_running_at_risk,
}
use boxmunge.Cve.Suppressions.{is_active, Suppression}
use boxmunge.Cve.Alerting.Alike.{
  Alike, Rescanned, SameHit, find-Alike, note_decisions-Alike, upcoming-Alike,
}

put_if-IsMap :
    (b : Bool) (k : Key) (v : Hit) (m : Keyed Hit)
    → IsMap m
    → IsMap (if b then put_key k v m else m)
put_if-IsMap true k v m h = put-IsMap k v m h
put_if-IsMap false k v m h = h

note_finding-IsMap :
    (image_ref : String) (fd : FindingDisposition) (m : Keyed Hit)
    → IsMap m
    → IsMap (note_finding image_ref fd m)
unfolding note_finding
note_finding-IsMap image_ref fd m h =
    put_if-IsMap (outranks (find_key (key_of fd) m) (hit_of image_ref fd)) (key_of fd)
      (hit_of image_ref fd) m h

note_findings-IsMap :
    (image_ref : String) (fds : List FindingDisposition) (m : Keyed Hit)
    → IsMap m
    → IsMap (note_findings image_ref fds m)
unfolding note_findings
note_findings-IsMap image_ref [] m h = h
note_findings-IsMap image_ref (fd ∷ rest) m h =
    note_findings-IsMap image_ref rest (note_finding image_ref fd m)
      (note_finding-IsMap image_ref fd m h)

note_decisions-IsMap :
    (ds : List ProjectDecision) (m : Keyed Hit) → IsMap m → IsMap (note_decisions ds m)
unfolding note_decisions
note_decisions-IsMap [] m h = h
note_decisions-IsMap (d ∷ rest) m h =
    note_decisions-IsMap rest (note_findings d.image_ref d.findings m)
      (note_findings-IsMap d.image_ref d.findings m h)

note_upcoming-IsMap :
    (image_ref : String) (fds : List FindingDisposition) (m : Keyed Hit)
    → IsMap m
    → IsMap (note_upcoming image_ref fds m)
unfolding note_upcoming
note_upcoming-IsMap image_ref [] m h = h
note_upcoming-IsMap image_ref (fd ∷ rest) m h =
    note_upcoming-IsMap image_ref rest
      (if fd.hardening_would_quarantine then put_key (key_of fd) (hit_of image_ref fd) m else m)
      (put_if-IsMap fd.hardening_would_quarantine (key_of fd) (hit_of image_ref fd) m h)

upcoming-IsMap :
    (ds : List ProjectDecision) (m : Keyed Hit) → IsMap m → IsMap (hardening_upcoming_by_key ds m)
unfolding hardening_upcoming_by_key
upcoming-IsMap [] m h = h
upcoming-IsMap (d ∷ rest) m h =
    upcoming-IsMap rest (note_upcoming d.image_ref d.findings m)
      (note_upcoming-IsMap d.image_ref d.findings m h)

-- The hits of now that no alert is to miss, whatever was there before.
abbrev pub standing : (FindingDisposition → Bool) → Keyed Hit → List Hit
standing f [] = []
standing f ((k, hit) ∷ m) =
    let rest = standing f m in if f hit.disposition then hit ∷ rest else rest

abbrev pub is_kev_at_risk : FindingDisposition → Bool
is_kev_at_risk fd = same_disposition fd.disposition still_running_at_risk && fd.kev_listed

abbrev pub is_kev_fixed : FindingDisposition → Bool
is_kev_fixed fd = same_disposition fd.disposition ignored_fixed && fd.kev_listed

at_risk_kind :
    (old : Option Hit) (hit : Hit)
    → is_kind kev_at_risk (kind_of old hit) ≡ is_kev_at_risk hit.disposition
unfolding kind_of
at_risk_kind old hit = ground arith

fixed_kind :
    (old : Option Hit) (hit : Hit)
    → is_kind kev_fix_pending (kind_of old hit) ≡ is_kev_fixed hit.disposition
unfolding kind_of
fixed_kind old hit = ground arith

hits_of-standing :
    (kind : AlertKind) (f : FindingDisposition → Bool) (before now : Keyed Hit)
    → ((old : Option Hit) (hit : Hit) → is_kind kind (kind_of old hit) ≡ f hit.disposition)
    → hits_of kind before now ≡ standing f now
unfolding hits_of
hits_of-standing kind f before [] h = refl
hits_of-standing kind f before ((k, hit) ∷ now) h =
    rw (h (find_key k before) hit, hits_of-standing kind f before now h) refl

not_new_same :
    (kind : AlertKind) (image_ref : String) (hit : Hit)
    → 2 ≤ kind_code kind
    → is_kind kind
        (kind_of (some (record { disposition = hit.disposition; image_ref = image_ref })) hit)
      ≡ false
unfolding kind_of
not_new_same kind image_ref hit h = ground arith

not_new :
    (kind : AlertKind) (old hit : Hit)
    → old.disposition ≡ hit.disposition
    → 2 ≤ kind_code kind
    → is_kind kind (kind_of (some old) hit) ≡ false
not_new kind old hit e h =
    subst (λ d. is_kind kind (kind_of (some (record old { disposition = d })) hit) ≡ false) (sym e)
      (not_new_same kind old.image_ref hit h)

-- Under its key the finding was there with the same disposition.
abbrev Stood : Keyed Hit → Key × Hit → Type 0
Stood before e =
    (old : Hit) × (find_key e.0 before ≡ some old) × (old.disposition ≡ e.1.disposition)

hits_of-none :
    (kind : AlertKind) (before now : Keyed Hit)
    → 2 ≤ kind_code kind
    → All (Stood before) now
    → hits_of kind before now ≡ []
unfolding hits_of
hits_of-none kind before [] h a = refl
hits_of-none kind before ((k, hit) ∷ now) h ((old, e, same), a) =
    rw (e, not_new kind old hit same h) (hits_of-none kind before now h a)

fresh_hits-none : (before now : Keyed Hit) → All (Stood before) now → fresh_hits before now ≡ []
unfolding fresh_hits
fresh_hits-none before [] a = refl
fresh_hits-none before ((k, hit) ∷ now) ((old, e, same), a) = rw e (fresh_hits-none before now a)

findings_by_key-IsMap : (ds : List ProjectDecision) → IsMap (findings_by_key ds)
unfolding findings_by_key
findings_by_key-IsMap ds = note_decisions-IsMap ds [] tt

append_nil : {A : Type 0} (xs : List A) → xs ++ [] ≡ xs
append_nil [] = refl
append_nil (x ∷ xs) = ap (λ t. x ∷ t) (append_nil xs)

stood_of :
    (o : Option Hit) (hit : Hit)
    → SameHit o (some hit)
    → (old : Hit) × (o ≡ some old) × (old.disposition ≡ hit.disposition)
stood_of none hit s = absurd s
stood_of (some old) hit s = (old, refl, s)

All-Stood :
    (before now xs : Keyed Hit)
    → Alike before now
    → All (λ e. find_key e.0 now ≡ some e.1) xs
    → All (Stood before) xs
All-Stood before now [] s a = tt
All-Stood before now ((k, hit) ∷ xs) s (e, a) = (
  stood_of (find_key k before) hit
      (subst (SameHit (find_key k before)) e (find-Alike k before now s)),
  All-Stood before now xs s a,
)

drop_nils :
    {A : Type 0} (xs ys zs : List A) → xs ++ ys ++ [] ++ zs ++ [] ++ [] ++ [] ≡ xs ++ ys ++ zs
drop_nils xs ys zs =
    let h = append_nil (xs ++ ys) in let k = append_nil (xs ++ ys ++ zs) in rw (h, k, k, k) refl

-- A scan on a later day that finds, image by image, what the scan before found, in whatever images,
-- alerts on nothing but the KEV-listed findings that keep running, at risk or with the fix not
-- running, and on the project's suppressions that were active on the day of that scan and are not
-- on this one's; the host's that expired so are handed on.
pub detect-unchanged :
    (before now : List ProjectDecision) (suppressions : List Suppression) (then_ today : Date)
    → Rescanned before now
    → scan_date before ≡ some then_
    → scan_date now ≡ some today
    → let t = detect_transitions now before suppressions in
      let found = findings_by_key now in
      let expired = keep (λ s. is_active then_ s && not (is_active today s)) suppressions in
      (t.alerts
        ≡ alert_if kev_at_risk (standing is_kev_at_risk found)
          ++ alert_if kev_fix_pending (standing is_kev_fixed found)
          ++ expired_alert (keep (λ s. not (is_host s)) expired))
      × (t.host_expired ≡ keep is_host expired)
unfolding detect_transitions
detect-unchanged before now suppressions then_ today r h k =
    let was = findings_by_key before in
    let found = findings_by_key now in
    let upcoming = hardening_upcoming_by_key now [] in
    let stood =
      All-Stood was found found (note_decisions-Alike [] [] r tt)
        (IsMap-finds found (findings_by_key-IsMap now)) in
    let flagged =
      All-Stood (hardening_upcoming_by_key before []) upcoming upcoming (upcoming-Alike [] [] r tt)
        (IsMap-finds upcoming (upcoming-IsMap now [] tt)) in
    let quiet =
      λ (kind : AlertKind) (h : 2 ≤ kind_code kind). hits_of-none kind was found h stood in
    rw
      (
        hits_of-standing kev_at_risk is_kev_at_risk was found at_risk_kind,
        hits_of-standing kev_fix_pending is_kev_fixed was found fixed_kind,
        quiet still_running (omega arith),
        quiet fix_available_now (omega arith),
        quiet new_findings (omega arith),
        fresh_hits-none (hardening_upcoming_by_key before []) upcoming flagged,
        h,
        k,
      )
      (
        drop_nils (alert_if kev_at_risk (standing is_kev_at_risk found))
            (alert_if kev_fix_pending (standing is_kev_fixed found)) _,
        refl,
      )
