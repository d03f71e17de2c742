-- ===== src/Cve/Policy/Project/Laws.antt =====
-- A project's decision: exactly its findings' decisions, in order, and what they require.
use boxmunge.Prelude.{
  ℕ, String, ◌≡◌, refl, ◌∙◌, Bool, true, false, Option, none, some, List, [], ◌∷◌, map, Perm, arith,
  any, IsSorted, sorted-perm, str_le_total, str_le_trans, sorted-IsSorted, any-sorted, All, ◌<◌,
  ◌⊎◌, str_le, Bool-cases, ap, ltb, subst, sym, inl, sorted, All-sorted, inr,
}
use mathlib.Core.List.Perm
use boxmunge.Cve.Scanner.{severity_rank, Finding, ScanResult}
use boxmunge.Cve.Hardening.{HardeningProfile, UpcomingHardening, calculate_hardening_penalty}
use boxmunge.Cve.Policy.{Context}
use boxmunge.Cve.Policy.Project.{
  evaluate_project, judged_findings, by_severity, flag_upcoming, judge, is_quarantine, is_at_risk,
}
use boxmunge.Cve.Policy.Types.{Disposition, FindingDisposition}
use boxmunge.Cve.Policy.Subject.{evaluate_finding-finding}

by_severity_total : (a b : FindingDisposition) → by_severity a b ≡ false → by_severity b a ≡ true
by_severity_total a b h = ground (arith, str_le_total a.finding.cve_id b.finding.cve_id)

by_severity_trans :
    (a b c : FindingDisposition)
    → by_severity a b ≡ true
    → by_severity b c ≡ true
    → by_severity a c ≡ true
by_severity_trans a b c h k =
    ground (arith, str_le_trans a.finding.cve_id b.finding.cve_id c.finding.cve_id)

flag_upcoming-disposition :
    (now later : FindingDisposition) (upcoming : UpcomingHardening)
    → (flag_upcoming now later upcoming).disposition ≡ now.disposition
unfolding flag_upcoming
flag_upcoming-disposition now later upcoming = ground arith

any-flagged :
    (c : Context) (n : ℕ) (upcoming : UpcomingHardening) (p : Disposition → Bool)
    (ds : List FindingDisposition)
    → any (λ d. p d.disposition) (map (λ d. flag_upcoming d (judge c n d.finding) upcoming) ds)
      ≡ any (λ d. p d.disposition) ds
any-flagged c n upcoming p [] = refl
any-flagged c n upcoming p (d ∷ ds) =
    rw (flag_upcoming-disposition d (judge c n d.finding) upcoming)
      (rw (any-flagged c n upcoming p ds))

flag_upcoming-finding :
    (now later : FindingDisposition) (upcoming : UpcomingHardening)
    → (flag_upcoming now later upcoming).finding ≡ now.finding
unfolding flag_upcoming
flag_upcoming-finding now later upcoming = ground arith

-- The decision on a finding that today's penalty makes.
abbrev pub Today : Context → HardeningProfile → FindingDisposition → Type 0
Today c profile d =
    d.disposition ≡ (judge c (calculate_hardening_penalty profile) d.finding).disposition

-- Of two findings of a decision, the first one is the more severe, or as severe with the lower CVE.
abbrev pub Before : FindingDisposition → FindingDisposition → Type 0
Before a b =
    (severity_rank b.effective_severity < severity_rank a.effective_severity)
    ⊎ ((severity_rank b.effective_severity ≡ severity_rank a.effective_severity)
        × (str_le a.finding.cve_id b.finding.cve_id ≡ true))

abbrev pub Ordered : List FindingDisposition → Type 0
Ordered [] = Unit
Ordered (d ∷ ds) = All (Before d) ds × Ordered ds

All-Before :
    (d : FindingDisposition) (ds : List FindingDisposition)
    → All (λ e. by_severity d e ≡ true) ds
    → All (Before d) ds
All-Before d [] h = tt
All-Before d (e ∷ ds) (h, t) = (one h, All-Before d ds t)
  where
    one : by_severity d e ≡ true → Before d e
    one h =
        elim (Bool-cases
          (ltb (severity_rank e.effective_severity) (severity_rank d.effective_severity))) [
            | inl q ↦ inl (ground arith)
            | inr q ↦ inr (ground arith, ground arith)
          ]

IsSorted-Ordered : (ds : List FindingDisposition) → IsSorted by_severity ds → Ordered ds
IsSorted-Ordered [] h = tt
IsSorted-Ordered (d ∷ ds) (h, t) = (All-Before d ds h, IsSorted-Ordered ds t)

map-finding :
    (g : Finding → FindingDisposition) (fs : List Finding)
    → ((f : Finding) → (g f).finding ≡ f)
    → map (λ (d : FindingDisposition). d.finding) (map g fs) ≡ fs
map-finding g [] h = refl
map-finding g (f ∷ fs) h = λ i. h f i ∷ map-finding g fs h i

All-map :
    (P : FindingDisposition → Type 0) (g : Finding → FindingDisposition) (fs : List Finding)
    → ((f : Finding) → P (g f))
    → All P (map g fs)
All-map P g [] h = tt
All-map P g (f ∷ fs) h = (h f, All-map P g fs h)

-- The judged findings, one for each finding of the scan.
abbrev judged : Context → HardeningProfile → Option UpcomingHardening → Finding → FindingDisposition
judged c profile none f = judge c (calculate_hardening_penalty profile) f
judged c profile (some upcoming) f =
    let d = judge c (calculate_hardening_penalty profile) f in
    flag_upcoming d (judge c (calculate_hardening_penalty upcoming.profile) d.finding) upcoming

map-map :
    (g : FindingDisposition → FindingDisposition) (h : Finding → FindingDisposition)
    (fs : List Finding)
    → map g (map h fs) ≡ map (λ f. g (h f)) fs
map-map g h [] = refl
map-map g h (f ∷ fs) = ap (◌∷◌ (g (h f))) (map-map g h fs)

judged_findings-judged :
    (c : Context) (profile : HardeningProfile) (upcoming : Option UpcomingHardening)
    (fs : List Finding)
    → judged_findings c profile upcoming fs ≡ map (judged c profile upcoming) fs
unfolding judged_findings
judged_findings-judged c profile none fs = refl
judged_findings-judged c profile (some upcoming) fs = map-map _ _ fs

judged-finding :
    (c : Context) (profile : HardeningProfile) (upcoming : Option UpcomingHardening) (f : Finding)
    → (judged c profile upcoming f).finding ≡ f
judged-finding c profile none f = evaluate_finding-finding _ f
judged-finding c profile (some upcoming) f =
    flag_upcoming-finding _ _ upcoming ∙ evaluate_finding-finding _ f

judged-Today :
    (c : Context) (profile : HardeningProfile) (upcoming : Option UpcomingHardening) (f : Finding)
    → Today c profile (judged c profile upcoming f)
judged-Today c profile none f =
    ap (λ g. (judge c (calculate_hardening_penalty profile) g).disposition)
      (sym (judged-finding c profile none f))
judged-Today c profile (some upcoming) f =
    flag_upcoming-disposition _ _ upcoming
    ∙ ap (λ g. (judge c (calculate_hardening_penalty profile) g).disposition)
        (sym (judged-finding c profile (some upcoming) f))

-- The findings of a decision are those of the scan, none lost and none added, the most severe first
-- and CVEs in order within a severity; the disposition of each is the one that it has under
-- today's penalty, whatever the next release would make of it.
pub evaluate_project-findings :
    (name : String) (scan : ScanResult) (c : Context) (profile : HardeningProfile)
    (upcoming : Option UpcomingHardening)
    → let found = (evaluate_project name scan c profile upcoming).findings in
      Perm (map (λ (d : FindingDisposition). d.finding) found) scan.findings
      × Ordered found
      × All (Today c profile) found
unfolding evaluate_project
evaluate_project-findings name scan c profile upcoming =
    let ds = judged_findings c profile upcoming scan.findings in
    let same = judged_findings-judged c profile upcoming scan.findings in
    let back =
      ap (map (λ (d : FindingDisposition). d.finding)) same
      ∙ map-finding (judged c profile upcoming) scan.findings (judged-finding c profile upcoming) in
    (
      subst (Perm (map (λ (d : FindingDisposition). d.finding) (sorted by_severity ds))) back
          (Perm.map (λ (d : FindingDisposition). d.finding) (sorted-perm by_severity ds)),
      IsSorted-Ordered (sorted by_severity ds)
          (sorted-IsSorted by_severity by_severity_total by_severity_trans ds),
      All-sorted by_severity (Today c profile) ds (
          subst (All (Today c profile)) (sym same) (
            All-map (Today c profile) (judged c profile upcoming) scan.findings
              (judged-Today c profile upcoming))),
    )

any-map :
    (g : Finding → FindingDisposition) (p : Disposition → Bool) (fs : List Finding)
    → any (λ d. p d.disposition) (map g fs) ≡ any (λ f. p (g f).disposition) fs
any-map g p [] = refl
any-map g p (f ∷ fs) = rw (any-map g p fs)

any-judged :
    (c : Context) (profile : HardeningProfile) (upcoming : Option UpcomingHardening)
    (p : Disposition → Bool) (fs : List Finding)
    → any (λ d. p d.disposition) (judged_findings c profile upcoming fs)
      ≡ any (λ f. p (judge c (calculate_hardening_penalty profile) f).disposition) fs
unfolding judged_findings
any-judged c profile none p fs = any-map (judge c (calculate_hardening_penalty profile)) p fs
any-judged c profile (some upcoming) p fs =
    any-flagged c (calculate_hardening_penalty upcoming.profile) upcoming p
      (map (judge c (calculate_hardening_penalty profile)) fs)
    ∙ any-map (judge c (calculate_hardening_penalty profile)) p fs

-- A quarantine is required, or the project runs at risk, exactly when some finding's own decision
-- under today's penalty says so: the stricter hardening of the next release warns, and never
-- changes either.
pub evaluate_project-requires :
    (name : String) (scan : ScanResult) (c : Context) (profile : HardeningProfile)
    (upcoming : Option UpcomingHardening)
    → let decision = evaluate_project name scan c profile upcoming in
      let now = judge c (calculate_hardening_penalty profile) in
      (decision.quarantine_required ≡ any (λ f. is_quarantine (now f).disposition) scan.findings)
      × (decision.at_risk_running ≡ any (λ f. is_at_risk (now f).disposition) scan.findings)
unfolding evaluate_project
evaluate_project-requires name scan c profile upcoming = (
  any-sorted by_severity (λ d. is_quarantine d.disposition) _
      ∙ any-judged c profile upcoming is_quarantine scan.findings,
  any-sorted by_severity (λ d. is_at_risk d.disposition) _
      ∙ any-judged c profile upcoming is_at_risk scan.findings,
)
