-- ===== src/Release/Txn/Stale.antt =====
-- src/boxmunge/release_txn.py, stale_reason: what an install does itself is never called stale.
use boxmunge.Prelude.{
  String, ◌≡◌, refl, sym, ap, ◌∙◌, subst, Bool, true, false, not, ◌&&◌, ◌||◌, Option, none, some,
  [], arith, eq_refl, if◌then◌else◌, is_some, str_eq, inl, inr,
}
use boxmunge.Release.Txn.{
  InstallTxn, Box, Head, at, current_expect, is_committed, is_abandon_phase, ok, sha, repo_head,
  is_rollback,
}
use Txn.{no_repo, unreadable}
use boxmunge.Release.Txn.Checks.{
  Texts, head_problems, kept_previous_text, live_is_ok, previous_is_ok, same, stale_problems,
  keep_in_progress, replaced_live,
}
use boxmunge.Release.Keep.{Releases, ensure_kept_pairing}
use boxmunge.Release.Keep.Meta.{KeptMeta, Crashed-Meta}
use boxmunge.Release.Keep.Kills.{Opened}
use boxmunge.Release.Keep.Undo.{Crashed}
use boxmunge.Release.Txn

and_all : {a b c : Bool} → a ≡ true → b ≡ true → c ≡ true → (a && (b && c)) ≡ true
and_all h k l = rw (h, k, l)

both : {a b : Bool} → a ≡ true → b ≡ true → (a && b) ≡ true
both h k = rw (h, k)

if_or_second :
    {A : Type 0} {x : A} (y : A) (a : Bool) {b : Bool} → b ≡ true → (if a || b then x else y) ≡ x
if_or_second y true h = refl
if_or_second y false h = rw h

module _ (sha256 : String → String) (texts : Texts) (t : InstallTxn) (box : Box) where
  -- live.json after no step or after a mark_live of the install or of its abandonment
  pub data LiveAfter : Option String → Type 0 where
    kept : LiveAfter box.live_json
    marked : LiveAfter (some (texts.live_meta_text t.ref))
    marked_back :
        (r : String)
        → t.replaced_ref ≡ some r
        → str_eq r "" ≡ false
        → LiveAfter (some (texts.live_meta_text r))

  -- previous.json and the superseded one: as they were, wherever the keep and its undoing were
  -- killed, after the pairing of a kept release, and after a rollback has discarded its target.
  pub data PreviousAfter : Option String → Option String → Type 1 where
    kept : PreviousAfter box.previous_json box.superseded_json
    keeping :
        {Code : Type 0} {r : Releases Code} (before : Releases Code) (live : Code)
        → Opened t before
        → sha sha256 before.previous_json ≡ t.previous_before
        → is_committed t.phase || is_abandon_phase t.phase ≡ true
        → Crashed t before live (kept_previous_text sha256 texts t) r
        → PreviousAfter r.previous_json r.superseded_json
    paired :
        {Code : Type 0} (r : Releases Code)
        → PreviousAfter r.previous_json r.superseded_json
        → PreviousAfter
            (ensure_kept_pairing t (kept_previous_text sha256 texts t) r).previous_json
            (ensure_kept_pairing t (kept_previous_text sha256 texts t) r).superseded_json
    discarded : (other : Option String) → is_rollback t.source ≡ true → PreviousAfter none other

  -- What the two may be, for stale_reason.
  data Accepted : Option String → Option String → Type 0 where
    kept : Accepted box.previous_json box.superseded_json
    replaced : (other : Option String) → Accepted (some (kept_previous_text sha256 texts t)) other
    aside :
        (text : Option String)
        → is_committed t.phase || is_abandon_phase t.phase ≡ true
        → sha sha256 text ≡ t.previous_before
        → Accepted none text
    restored :
        (text other : Option String) → sha sha256 text ≡ t.previous_before → Accepted text other
    discarded : (other : Option String) → is_rollback t.source ≡ true → Accepted none other

  Crashed-Accepted :
      (before now other : Option String)
      → sha sha256 before ≡ t.previous_before
      → is_committed t.phase || is_abandon_phase t.phase ≡ true
      → KeptMeta before (kept_previous_text sha256 texts t) now other
      → Accepted now other
  Crashed-Accepted before now other was phase (inl e) =
      subst (λ x. Accepted x other) (sym e) (Accepted.replaced other)
  Crashed-Accepted before now other was phase (inr (inl e)) =
      Accepted.restored now other (ap (sha sha256) e ∙ was)
  Crashed-Accepted before now other was phase (inr (inr (e, f))) =
      subst (λ x. Accepted x other) (sym e) (Accepted.aside other phase (ap (sha sha256) f ∙ was))

  paired-Accepted :
      {Code : Type 0} (a b : Bool) (r : Releases Code)
      → Accepted r.previous_json r.superseded_json
      → let text = kept_previous_text sha256 texts t in
        let r' : Releases Code =
          if a then r else if b then record r { previous_json = some text } else r in
        Accepted r'.previous_json r'.superseded_json
  paired-Accepted true b r h = h
  paired-Accepted false true r h = Accepted.replaced r.superseded_json
  paired-Accepted false false r h = h

  PreviousAfter-Accepted :
      (now other : Option String) → PreviousAfter now other → Accepted now other
  unfolding ensure_kept_pairing
  PreviousAfter-Accepted _ _ kept = Accepted.kept
  PreviousAfter-Accepted _ _ (keeping before live o was phase c) =
      Crashed-Accepted before.previous_json _ _ was phase
        (Crashed-Meta t before o live (kept_previous_text sha256 texts t) c)
  PreviousAfter-Accepted _ _ (paired r h) =
      paired-Accepted _ _ r (PreviousAfter-Accepted r.previous_json r.superseded_json h)
  PreviousAfter-Accepted _ _ (discarded other roll) = Accepted.discarded other roll

  -- repo/'s HEAD
  pub data HeadAfter : Head → Type 0 where
    kept : HeadAfter box.head
    checked_out : HeadAfter (at t.ref)
    checked_back : (r : String) → t.replaced_ref ≡ some r → HeadAfter (at r)

  same_refl : (a : Option String) → same a a ≡ true
  same_refl none = refl
  same_refl (some a) = eq_refl a

  same_of : {a b : Option String} → a ≡ b → same a b ≡ true
  same_of {a} {b} h = subst (λ c. same a c ≡ true) h (same_refl a)

  written_fields :
      current_expect sha256 box ≡ ok t.expect
      → (t.expect.live_json_sha256 ≡ sha sha256 box.live_json)
        × (t.expect.previous_json_sha256 ≡ sha sha256 box.previous_json)
        × (ok t.expect.repo_head ≡ repo_head box.head)
  unfolding current_expect
  written_fields h = ground arith

  or_first : {a : Bool} (b : Bool) → a ≡ true → (a || b) ≡ true
  or_first b h = rw h

  or_second : (a : Bool) {b : Bool} → b ≡ true → (a || b) ≡ true
  or_second true h = refl
  or_second false h = h

  live_ok :
      (live : Option String) (b : Box)
      → b.live_json ≡ live
      → t.expect.live_json_sha256 ≡ sha sha256 box.live_json
      → LiveAfter live
      → live_is_ok sha256 texts b t ≡ true
  unfolding live_is_ok
  live_ok _ b e w kept = or_first _ (same_of (ap (sha sha256) e ∙ sym w))
  live_ok _ b e w marked = or_second _ (or_first _ (same_of (ap (sha sha256) e)))
  live_ok _ b e w (marked_back r back filled) = or_second _ (
      or_second _
        (same_of (ap (sha sha256) e ∙ sym (ap (replaced_live sha256 texts) back ∙ rw filled))))

  previous_ok :
      (previous superseded : Option String) (b : Box)
      → b.previous_json ≡ previous
      → b.superseded_json ≡ superseded
      → t.expect.previous_json_sha256 ≡ sha sha256 box.previous_json
      → Accepted previous superseded
      → (previous_is_ok sha256 texts b t || keep_in_progress sha256 texts b t) ≡ true
  unfolding previous_is_ok keep_in_progress
  previous_ok _ _ b e f w kept = or_first _ (or_first _ (same_of (ap (sha sha256) e ∙ sym w)))
  previous_ok _ _ b e f w (replaced other) =
      or_first _ (or_second _ (or_second _ (or_first _ (same_of (ap (sha sha256) e)))))
  previous_ok _ _ b e f w (aside text phase was) =
      or_second _ (and_all phase (ap (λ o. not (is_some o)) e) (same_of (ap (sha sha256) f ∙ was)))
  previous_ok _ _ b e f w (restored text other was) =
      or_first _ (or_second _ (or_first _ (same_of (ap (sha sha256) e ∙ was))))
  previous_ok _ _ b e f w (discarded other roll) =
      let now = sha sha256 b.previous_json in
      or_first (keep_in_progress sha256 texts b t) (
        or_second (same now t.expect.previous_json_sha256) (
          or_second (same now t.previous_before) (
            or_second (same now (some (sha256 (kept_previous_text sha256 texts t))))
              (both roll (ap (λ o. not (is_some (sha sha256 o))) e)))))

  head_kept :
      (head : Head)
      → ok t.expect.repo_head ≡ repo_head head
      → head_problems sha256 texts head t ≡ []
  unfolding head_problems repo_head
  head_kept no_repo w = refl
  head_kept unreadable w = cc
  head_kept (at found) w =
      let same_head : some found ≡ t.expect.repo_head = ground arith in
      if_or_second _ (str_eq found t.ref)
        (or_second (same (some found) t.replaced_ref) (same_of same_head))

  head_ok :
      (head : Head)
      → ok t.expect.repo_head ≡ repo_head box.head
      → HeadAfter head
      → head_problems sha256 texts head t ≡ []
  unfolding head_problems repo_head
  head_ok _ w kept = head_kept box.head w
  head_ok _ w checked_out = rw (eq_refl t.ref)
  head_ok _ w (checked_back r back) = if_or_second _ _ (or_first _ (same_of (sym back)))

  -- An install is not called stale for what it has done since its record was written: live.json
  -- marked with its release or, abandoned, with the one it replaced; the previous release kept or
  -- that undone, each killed anywhere, in the phases that do it; previous.json paired with the
  -- install; a rollback's target discarded; either release checked out in repo/.
  pub own_steps-not_stale :
      (live previous superseded : Option String) (head : Head)
      → current_expect sha256 box ≡ ok t.expect
      → LiveAfter live
      → PreviousAfter previous superseded
      → HeadAfter head
      → stale_problems sha256 texts
          (record box {
            live_json = live;
            previous_json = previous;
            superseded_json = superseded;
            head = head;
          })
          t
        ≡ []
  unfolding stale_problems
  own_steps-not_stale live previous superseded head written l p h =
      let (wl, wp, wh) = written_fields written in
      let b = record box {
        live_json = live;
        previous_json = previous;
        superseded_json = superseded;
        head = head;
      } in
      rw (
        live_ok live b refl wl l,
        previous_ok previous superseded b refl refl wp
            (PreviousAfter-Accepted previous superseded p),
        head_ok head wh h,
      )
