-- ===== src/Release/Txn/Checks.antt =====
-- src/boxmunge/release_txn.py: stale_reason and options_text, which read the record of an open
-- install. live_meta_text and previous_meta_text are parameters.
use boxmunge.Prelude.{
  String, Bool, true, false, not, ◌&&◌, ◌||◌, Option, none, some, List, [], ◌∷◌, ◌++◌,
  if◌then◌else◌, is_some, get_or_else, str_eq,
}
use boxmunge.Release.Txn.{
  Box, Head, InstallTxn, data_may_have_changed, at, is_abandoning, is_committed, sha,
  is_abandon_phase, is_rollback, no_repo, unreadable,
}

-- live_meta_text and previous_meta_text, with json.dumps
pub record Texts : Type 0 where
  pub live_meta_text : String → String
  pub previous_meta_text : String → String → String → String → String

pub data StaleProblem : Type 0 where
  live_changed : StaleProblem
  previous_changed : StaleProblem
  head_unreadable : StaleProblem
  head_elsewhere : String → StaleProblem

abbrev pub same : Option String → Option String → Bool
same none none = true
same (some a) (some b) = str_eq a b
same _ _ = false

module _ (sha256 : String → String) (texts : Texts) where
  abbrev pub kept_previous_text : InstallTxn → String
  kept_previous_text txn =
      texts.previous_meta_text (get_or_else txn.replaced_ref "") txn.snapshot txn.started_at txn.ref

  abbrev pub replaced_live : Option String → Option String
  replaced_live none = none
  replaced_live (some r) = if str_eq r "" then none else some (sha256 (texts.live_meta_text r))

  -- now["live_json_sha256"] in live_ok
  unfoldable pub live_is_ok : Box → InstallTxn → Bool
  live_is_ok box txn =
      let now = sha sha256 box.live_json in
      same now txn.expect.live_json_sha256
      || (same now (some (sha256 (texts.live_meta_text txn.ref)))
          || same now (replaced_live txn.replaced_ref))

  -- now["previous_json_sha256"] in prev_ok
  unfoldable pub previous_is_ok : Box → InstallTxn → Bool
  previous_is_ok box txn =
      let now = sha sha256 box.previous_json in
      same now txn.expect.previous_json_sha256
      || (same now txn.previous_before
          || (same now (some (sha256 (kept_previous_text txn)))
              || (is_rollback txn.source && not (is_some now))))

  unfoldable pub keep_in_progress : Box → InstallTxn → Bool
  keep_in_progress box txn =
      (is_committed txn.phase || is_abandon_phase txn.phase)
      && (not (is_some box.previous_json)
          && same (sha sha256 box.superseded_json) txn.previous_before)

  unfoldable pub head_problems : Head → InstallTxn → List StaleProblem
  head_problems no_repo txn = []
  head_problems unreadable txn = head_unreadable ∷ []
  head_problems (at head) txn =
      if str_eq head txn.ref
        || (same (some head) txn.replaced_ref || same (some head) txn.expect.repo_head)
      then []
      else head_elsewhere head ∷ []

  abbrev pub unless : Bool → StaleProblem → List StaleProblem
  unless true p = []
  unless false p = p ∷ []

  -- stale_reason: none where the list is empty
  unfoldable pub stale_problems : Box → InstallTxn → List StaleProblem
  unfolding live_is_ok previous_is_ok keep_in_progress head_problems
  stale_problems box txn =
      unless (live_is_ok box txn) live_changed
      ++ (unless (previous_is_ok box txn || keep_in_progress box txn) previous_changed
          ++ head_problems box.head txn)

-- The ways out of an open install that options_text names.
pub data WayOut : Type 0 where
  rerun_abandon rerun abandon roll_back fix_forward : WayOut

unfoldable pub options : InstallTxn → Bool → Bool → List WayOut
unfolding data_may_have_changed
options txn rerun_too quarantined =
    if is_abandoning txn
    then rerun_abandon ∷ []
    else (if rerun_too then rerun ∷ [] else [])
      ++ ((if data_may_have_changed txn then [] else abandon ∷ [])
          ++ ((if not (is_rollback txn.source)
                  && (data_may_have_changed txn
                      && (not (str_eq (get_or_else txn.replaced_ref "") "") && not quarantined))
                then roll_back ∷ []
                else [])
              ++ fix_forward ∷ []))
