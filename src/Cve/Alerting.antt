-- ===== src/Cve/Alerting.antt =====
-- src/boxmunge/cve/alerting.py: what a scan alerts on, from the decisions before and now.
pub mod Alike
pub mod Keys
pub mod Represent
pub mod Quiet
use boxmunge.Prelude.{
  ℕ, ◌+◌, String, Bool, true, false, not, ◌&&◌, ◌||◌, Option, none, some, List, [], ◌∷◌, ◌++◌, ltb,
  ◌==◌, if◌then◌else◌, is_some, keep, Date, Instant, instant_le,
}
use boxmunge.Cve.Alerting.Keys.{Key, Keyed, find_key, put_key}
use boxmunge.Cve.Policy.Types.{
  Disposition, FindingDisposition, ProjectDecision, ignored_fixed, suppressed, informational,
  quarantine, still_running_at_risk,
}
use boxmunge.Cve.Suppressions.{Suppression, is_active, host, project}

pub record Hit : Type 0 where
  pub disposition : FindingDisposition
  pub image_ref : String

-- The kinds of alert that list findings; a suppression's expiry lists suppressions.
pub data AlertKind : Type 0 where
  kev_at_risk kev_fix_pending still_running fix_available_now hardening_soon new_findings :
      AlertKind

pub data Alert : Type 0 where
  hits : AlertKind → List Hit → Alert
  suppression_expired : List Suppression → Alert

pub record Transitions : Type 0 where
  pub alerts : List Alert
  pub host_expired : List Suppression

-- `_DISPOSITION_RANK`
abbrev pub disposition_rank : Disposition → ℕ
disposition_rank quarantine = 4
disposition_rank still_running_at_risk = 3
disposition_rank informational = 2
disposition_rank suppressed = 1
disposition_rank ignored_fixed = 0

abbrev pub key_of : FindingDisposition → Key
key_of fd = (fd.finding.cve_id, fd.finding.pkg_name)

abbrev pub rank_of : Hit → ℕ
rank_of h = disposition_rank h.disposition.disposition

-- held is None or the finding outranks it
abbrev pub outranks : Option Hit → Hit → Bool
outranks none hit = true
outranks (some held) hit = ltb (rank_of held) (rank_of hit)

-- the two loops of findings_by_key, from the inside
abbrev pub hit_of : String → FindingDisposition → Hit
hit_of image_ref fd = record { disposition = fd; image_ref = image_ref }

unfoldable pub note_finding : String → FindingDisposition → Keyed Hit → Keyed Hit
note_finding image_ref fd out =
    if outranks (find_key (key_of fd) out) (hit_of image_ref fd)
    then put_key (key_of fd) (hit_of image_ref fd) out
    else out

unfoldable pub note_findings : String → List FindingDisposition → Keyed Hit → Keyed Hit
note_findings image_ref [] out = out
note_findings image_ref (fd ∷ rest) out =
    note_findings image_ref rest (note_finding image_ref fd out)

unfoldable pub note_decisions : List ProjectDecision → Keyed Hit → Keyed Hit
note_decisions [] out = out
note_decisions (d ∷ rest) out = note_decisions rest (note_findings d.image_ref d.findings out)

unfoldable pub findings_by_key : List ProjectDecision → Keyed Hit
unfolding note_decisions
findings_by_key decisions = note_decisions decisions []

-- hardening_upcoming_by_key
unfoldable pub note_upcoming : String → List FindingDisposition → Keyed Hit → Keyed Hit
note_upcoming image_ref [] out = out
note_upcoming image_ref (fd ∷ rest) out =
    note_upcoming image_ref rest
      (if fd.hardening_would_quarantine then put_key (key_of fd) (hit_of image_ref fd) out else out)

unfoldable pub hardening_upcoming_by_key : List ProjectDecision → Keyed Hit → Keyed Hit
unfolding note_upcoming
hardening_upcoming_by_key [] out = out
hardening_upcoming_by_key (d ∷ rest) out =
    hardening_upcoming_by_key rest (note_upcoming d.image_ref d.findings out)

-- `_scan_date`: the date of the latest scan
unfoldable pub latest : Instant → List ProjectDecision → Instant
latest t [] = t
latest t (d ∷ rest) = latest (if instant_le t d.scanned_at then d.scanned_at else t) rest

unfoldable pub scan_date : List ProjectDecision → Option Date
unfolding latest
scan_date [] = none
scan_date (d ∷ rest) = some (latest d.scanned_at rest).date

abbrev pub same_disposition : Disposition → Disposition → Bool
same_disposition a b = disposition_rank a == disposition_rank b

abbrev pub changed : Option Hit → FindingDisposition → Bool
changed none fd = true
changed (some old) fd = not (same_disposition old.disposition.disposition fd.disposition)

abbrev pub had_fix : Option Hit → Bool
had_fix none = false
had_fix (some old) = old.disposition.fix_would_quarantine

-- the branches of the loop over the findings of now: the list that takes the hit
unfoldable pub kind_of : Option Hit → Hit → Option AlertKind
kind_of old hit =
    let fd = hit.disposition in
    let fixed = same_disposition fd.disposition ignored_fixed in
    let at_risk = same_disposition fd.disposition still_running_at_risk in
    if fixed && fd.kev_listed
    then some kev_fix_pending
    else if at_risk && fd.kev_listed
    then some kev_at_risk
    else if fixed && fd.fix_would_quarantine && (changed old fd || not (had_fix old))
    then some fix_available_now
    else if at_risk && changed old fd
    then some still_running
    else if (same_disposition fd.disposition informational || fixed) && not (is_some old)
    then (if fd.hardening_would_quarantine then none else some new_findings)
    else none

abbrev pub kind_code : AlertKind → ℕ
kind_code kev_at_risk = 0
kind_code kev_fix_pending = 1
kind_code still_running = 2
kind_code fix_available_now = 3
kind_code hardening_soon = 4
kind_code new_findings = 5

abbrev pub is_kind : AlertKind → Option AlertKind → Bool
is_kind k none = false
is_kind k (some j) = kind_code j == kind_code k

unfoldable pub hits_of : AlertKind → Keyed Hit → Keyed Hit → List Hit
unfolding kind_of
hits_of kind before [] = []
hits_of kind before ((key, hit) ∷ now) =
    let rest = hits_of kind before now in
    if is_kind kind (kind_of (find_key key before) hit) then hit ∷ rest else rest

-- new_upcoming
unfoldable pub fresh_hits : Keyed Hit → Keyed Hit → List Hit
fresh_hits before [] = []
fresh_hits before ((key, hit) ∷ now) =
    let rest = fresh_hits before now in if is_some (find_key key before) then rest else hit ∷ rest

abbrev pub is_host : Suppression → Bool
is_host s = elim s.scope [ host ↦ true | project ↦ false ]

abbrev pub expires_between : Option Date → Option Date → Suppression → Bool
expires_between (some prior) (some current) s = is_active prior s && not (is_active current s)
expires_between _ _ s = false

-- `if xs: alerts.append(format(xs))`
abbrev pub alert_if : AlertKind → List Hit → List Alert
alert_if kind [] = []
alert_if kind (x ∷ xs) = hits kind (x ∷ xs) ∷ []

abbrev pub expired_alert : List Suppression → List Alert
expired_alert [] = []
expired_alert (s ∷ rest) = suppression_expired (s ∷ rest) ∷ []

unfoldable pub detect_transitions :
    List ProjectDecision → List ProjectDecision → List Suppression → Transitions
unfolding findings_by_key hardening_upcoming_by_key scan_date hits_of fresh_hits
detect_transitions current prior suppressions =
    let before = findings_by_key prior in
    let now = findings_by_key current in
    let new_upcoming =
      fresh_hits (hardening_upcoming_by_key prior []) (hardening_upcoming_by_key current []) in
    let expired = keep (expires_between (scan_date prior) (scan_date current)) suppressions in
    record {
      alerts =
          alert_if kev_at_risk (hits_of kev_at_risk before now)
          ++ alert_if kev_fix_pending (hits_of kev_fix_pending before now)
          ++ alert_if still_running (hits_of still_running before now)
          ++ expired_alert (keep (λ s. not (is_host s)) expired)
          ++ alert_if fix_available_now (hits_of fix_available_now before now)
          ++ alert_if hardening_soon new_upcoming
          ++ alert_if new_findings (hits_of new_findings before now);
      host_expired = keep is_host expired;
    }
