-- ===== src/Cve/Quarantine/Lift/Restores.antt =====
-- A lift gives every container its own restart policy back; one that fails forgets none.
use boxmunge.Prelude.{String, ◌≡◌, refl, sym, ◌∙◌, subst, inl, true, Option, none, some}
use boxmunge.Cve.Quarantine.{
  World, QuarantineRecord, Failure, Outcome, normal, done, failed, no_record, recorded, saved_of,
  write_site, caddy_reload, cannot_restart, cannot_write_site, cannot_reload,
}
use boxmunge.Cve.Quarantine.Safe.{SavedOk, Kept, Settled, Safe, saved_in}
use boxmunge.Cve.Quarantine.Lift.{
  LiftFaults, release, lift_record, lift_on, lift_quarantine, compose_up, or_fail,
}
use boxmunge.Cve.Quarantine.History.{Ends, then_do-Ends, if-Ends}
use boxmunge.Cve.Quarantine.Lift.Release.{Restored, Same, Part, release-end}

-- The project is back: no record, its own site served, running, with its own restart policies.
abbrev pub Back : (String → String) → String → World → Type 0
Back original content u =
    (u.record_file ≡ no_record)
    × (u.live ≡ normal content)
    × (u.running ≡ true)
    × Restored original u.policies

-- The record is as it was, and no policy is lost.
abbrev pub StillHeld : (String → String) → World → World → Type 0
StillHeld original w u = (u.record_file ≡ w.record_file) × Safe original u

part-StillHeld :
    (original : String → String) (r : QuarantineRecord) (w u : World)
    → w.record_file ≡ recorded r
    → SavedOk original (saved_of r)
    → u.record_file ≡ w.record_file
    → Kept original (saved_of r) u.policies
    → StillHeld original w u
part-StillHeld original r w u e ok same kept =
    (same, subst (λ t. Settled original (saved_in t) u.policies) (sym (same ∙ e)) (ok, kept))

Ends-both_map :
    (P R Q S : World → Type 0) (o : Outcome)
    → ((w : World) → P w → R w)
    → ((w : World) → Q w → S w)
    → Ends P Q o
    → Ends R S o
Ends-both_map P R Q S (done w) k l h = k w h
Ends-both_map P R Q S (failed e w) k l h = l w h

or_fail-Ends :
    (P Q : World → Type 0) (o : Option Failure) (w : World) → P w → Q w → Ends P Q (or_fail o w)
or_fail-Ends P Q none w p q = p
or_fail-Ends P Q (some e) w p q = q

lift_record-Back :
    (original : String → String) (f : LiftFaults) (content : String) (r : QuarantineRecord)
    (w : World)
    → w.record_file ≡ recorded r
    → Settled original (saved_of r) w.policies
    → Ends (Back original content) (StillHeld original w) (lift_record f (some content) none r w)
unfolding lift_record
lift_record-Back original f content r w e (ok, kept) =
    let R = Back original content in
    let Q = StillHeld original w in
    let held =
      λ (u : World) (same : u.record_file ≡ w.record_file)
          (k : Kept original (saved_of r) u.policies).
        part-StillHeld original r w u e ok same k in
    let At =
      λ (u : World). (u.record_file ≡ w.record_file) × Kept original (saved_of r) u.policies in
    let Routed = λ (u : World). At u × (u.site ≡ normal content) in
    let Live = λ (u : World). At u × (u.live ≡ normal content) in
    let Given = λ (u : World).
      (u.record_file ≡ w.record_file) × (u.live ≡ normal content) × Restored original u.policies in
    let Up = λ (u : World). Given u × (u.running ≡ true) in
    then_do-Ends Routed R Q (write_site f.site_file (normal content) w) _
      (if-Ends Routed Q f.site_file (failed cannot_write_site w) _ (held w refl kept)
        ((refl, kept), refl))
      (λ a ((ea, ka), sa).
        then_do-Ends Live R Q (caddy_reload f.reload a) _
          (if-Ends Live Q f.reload (failed cannot_reload a) _ (held a ea ka) ((ea, ka), sa))
          (λ b ((eb, kb), lb).
            then_do-Ends Given R Q (release f (saved_of r) b) _
              (Ends-both_map (λ u. Same b u × Restored original u.policies) Given
                (Part original (saved_of r) b) Q (release f (saved_of r) b)
                (λ u ((eu, lu), ru). (eu ∙ eb, lu ∙ lb, ru)) (λ u (eu, ku). held u (eu ∙ eb) ku)
                (release-end original f (saved_of r) b ok kb))
              (λ c (ec, lc, rc).
                then_do-Ends Up R Q (compose_up f.up c) _
                  (if-Ends Up Q f.up (failed cannot_restart c) _
                    (held c ec (λ n p l. inl (rc n p l))) ((ec, lc, rc), refl))
                  (λ d ((ed, ld, rd), ud).
                    then_do-Ends Up R Q (or_fail f.after_start d) _
                      (or_fail-Ends Up Q f.after_start d ((ed, ld, rd), ud)
                        (held d ed (λ n p l. inl (rd n p l))))
                      (λ v ((ev, lv, rv), uv). (refl, lv, uv, rv))))))

-- A lift of a recorded quarantine, with the saved policies to restore, on a project where no policy
-- is lost: when it succeeds, the record is gone, the project's own site is served, its containers
-- run, and each has its first restart policy again. When any step fails, the record is still there
-- as it was, and no policy is lost.
pub lift_quarantine-Back :
    (original : String → String) (f : LiftFaults) (content : String) (r : QuarantineRecord)
    (w : World)
    → w.record_file ≡ recorded r
    → Safe original w
    → Ends (Back original content) (StillHeld original w) (lift_quarantine f (some content) none w)
unfolding lift_quarantine
lift_quarantine-Back original f content r w e safe =
    subst
      (λ t. Ends (Back original content) (StillHeld original w) (lift_on t f (some content) none w))
      (sym e)
      (lift_record-Back original f content r w e
        (subst (λ t. Settled original (saved_in t) w.policies) e safe))
