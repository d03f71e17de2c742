-- ===== src/Release/Txn.antt =====
-- src/boxmunge/release_txn.py: the record install.json of the open install of a project. SHA-256
-- is a parameter; `Box` is what the record is checked against.
pub mod Checks
pub mod Steps
pub mod Stale
use boxmunge.Prelude.{
  ℕ, String, Bool, true, false, not, ◌||◌, Option, none, some, leb, if◌then◌else◌, str_eq,
}

pub data Source : Type 0 where
  bundle staged rollback git : Source

pub data Phase : Type 0 where
  committed previous_kept installed data_restored hook_started switching : Phase
  abandoning abandoned_code : Phase

pub data Touched : Type 0 where
  untouched hook_ran containers_ran : Touched

-- `expect`: an absent repo_head is none
pub record Expect : Type 0 where
  pub live_json_sha256 : Option String
  pub previous_json_sha256 : Option String
  pub repo_head : Option String

pub record InstallTxn : Type 0 where
  pub id : String
  pub source : Source
  pub ref : String
  pub replaced_ref : Option String
  pub staged_id : Option String
  pub snapshot : String
  pub phase : Phase
  pub expect : Expect
  pub previous_before : Option String
  pub had_previous : Bool
  pub touched : Touched
  pub started_at : String

-- PHASES.index(phase); the two checkpoints of an abandon are not among PHASES
unfoldable pub phase_index : Phase → ℕ
phase_index committed = 0
phase_index previous_kept = 1
phase_index installed = 2
phase_index data_restored = 3
phase_index hook_started = 4
phase_index switching = 5
phase_index abandoning = 6
phase_index abandoned_code = 7

abbrev pub is_abandon_phase : Phase → Bool
is_abandon_phase abandoning = true
is_abandon_phase abandoned_code = true
is_abandon_phase _ = false

abbrev pub is_committed : Phase → Bool
is_committed committed = true
is_committed _ = false

abbrev pub is_rollback : Source → Bool
is_rollback rollback = true
is_rollback _ = false

abbrev pub is_untouched : Touched → Bool
is_untouched untouched = true
is_untouched _ = false

abbrev pub is_containers : Touched → Bool
is_containers containers_ran = true
is_containers _ = false

unfoldable pub reached : InstallTxn → Phase → Bool
unfolding phase_index
reached txn phase =
    if is_abandon_phase txn.phase
    then is_committed phase
    else leb (phase_index phase) (phase_index txn.phase)

abbrev pub is_abandoning : InstallTxn → Bool
is_abandoning txn = is_abandon_phase txn.phase

unfoldable pub data_may_have_changed : InstallTxn → Bool
unfolding reached
data_may_have_changed txn =
    is_rollback txn.source || (not (is_untouched txn.touched) || reached txn hook_started)

unfoldable pub containers_may_run_other : InstallTxn → Bool
unfolding reached
containers_may_run_other txn = is_containers txn.touched || reached txn switching

-- phase in txn.phases()
unfoldable pub in_phases : Source → Phase → Bool
in_phases _ abandoning = false
in_phases _ abandoned_code = false
in_phases rollback previous_kept = false
in_phases rollback _ = true
in_phases _ data_restored = false
in_phases _ _ = true

-- What the files of the project are: the texts of live.json, previous.json and the superseded
-- previous.json, and the HEAD of repo/.
pub data Head : Type 0 where
  no_repo : Head
  unreadable : Head
  at : String → Head

pub record Box : Type 0 where
  pub live_json : Option String
  pub previous_json : Option String
  pub superseded_json : Option String
  pub has_previous : Bool  -- previous/ is a directory and no link
  pub head : Head

pub data TxnError : Type 0 where
  already_open : TxnError
  bad_head : TxnError  -- GitRefError
  changed_under_lock : TxnError
  being_abandoned : TxnError
  cannot_go : Phase → Phase → TxnError
  cannot_abandon : Phase → TxnError

pub data Result (A : Type 0) : Type 0 where
  ok : A → Result A
  err : TxnError → Result A

infixl 5 ◌>>=◌
abbrev pub ◌>>=◌ : {A B : Type 0} → Result A → (A → Result B) → Result B
ok a >>= f = f a
err e >>= f = err e

-- The caller's part of a new record, and the id and the time that it gets.
pub record Request : Type 0 where
  pub id : String
  pub started_at : String
  pub source : Source
  pub ref : String
  pub replaced_ref : Option String
  pub staged_id : Option String
  pub snapshot : String

unfoldable pub repo_head : Head → Result (Option String)
repo_head no_repo = ok none
repo_head unreadable = err bad_head
repo_head (at sha) = ok (some sha)

unfoldable pub touched_by : InstallTxn → Touched
unfolding containers_may_run_other data_may_have_changed
touched_by old =
    if is_rollback old.source || containers_may_run_other old
    then containers_ran
    else if data_may_have_changed old
    then hook_ran
    else untouched

module _ (sha256 : String → String) where
  abbrev pub sha : Option String → Option String
  sha none = none
  sha (some text) = some (sha256 text)

  unfoldable pub current_expect : Box → Result Expect
  unfolding repo_head
  current_expect box = do
    head ← repo_head box.head
    ok (record {
      live_json_sha256 = sha box.live_json;
      previous_json_sha256 = sha box.previous_json;
      repo_head = head;
    })

  -- `_new`
  unfoldable pub new_txn :
      Box → Request → Phase → Option String → Bool → Touched → Result InstallTxn
  unfolding current_expect
  new_txn box q phase previous_before had_previous touched = do
    expect ← current_expect box
    ok (record {
      id = q.id;
      source = q.source;
      ref = q.ref;
      replaced_ref = q.replaced_ref;
      staged_id = q.staged_id;
      snapshot = q.snapshot;
      phase = phase;
      expect = expect;
      previous_before = previous_before;
      had_previous = had_previous;
      touched = touched;
      started_at = q.started_at;
    })

  -- The record on disk is the third argument.
  unfoldable pub open_txn : Box → Request → Option InstallTxn → Result InstallTxn
  unfolding new_txn
  open_txn box q (some _) = err already_open
  open_txn box q none = new_txn box q committed (sha box.previous_json) box.has_previous untouched

  unfoldable pub supersede_txn :
      Box → Request → Phase → Option InstallTxn → InstallTxn → Result InstallTxn
  unfolding new_txn touched_by
  supersede_txn box q phase none old = err changed_under_lock
  supersede_txn box q phase (some on_disk) old =
      if not (str_eq on_disk.id old.id)
      then err changed_under_lock
      else if is_abandoning old
      then err being_abandoned
      else new_txn box q phase old.previous_before old.had_previous (touched_by old)

  unfoldable pub advance : Box → InstallTxn → Phase → Result InstallTxn
  unfolding current_expect in_phases phase_index
  advance box txn phase =
      if not (in_phases txn.source phase)
        || (not (in_phases txn.source txn.phase) || leb (phase_index phase) (phase_index txn.phase))
      then err (cannot_go txn.phase phase)
      else do expect ← current_expect box; ok (record txn { phase = phase; expect = expect })

  unfoldable pub mark_abandon : Box → InstallTxn → Phase → Result InstallTxn
  unfolding current_expect data_may_have_changed
  mark_abandon box txn phase =
      if not (is_abandon_phase phase) || data_may_have_changed txn
      then err (cannot_abandon txn.phase)
      else do expect ← current_expect box; ok (record txn { phase = phase; expect = expect })
