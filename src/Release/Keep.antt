-- ===== src/Release/Keep.antt =====
-- src/boxmunge/release_keep.py: the release that an install keeps for a rollback. `Releases` is
-- the project's .releases directory; a step is what reaches the disk before a kill can come.
pub mod Kills
pub mod Undo
pub mod Meta
use boxmunge.Prelude.{
  ℕ, zero, suc, String, Bool, true, false, not, ◌&&◌, ◌||◌, Option, none, some, List, [], ◌∷◌,
  if◌then◌else◌, is_some, str_eq,
}
use boxmunge.Release.Txn.{InstallTxn, reached, is_rollback, is_abandoning, previous_kept}
use boxmunge.Release.Txn

-- A release's code, or nothing, under each name; previous.json and the superseded one.
pub record Releases (Code : Type 0) : Type 0 where
  pub building : Option Code
  pub previous : Option Code
  pub previous_json : Option String
  pub superseded : Option Code
  pub superseded_json : Option String

-- A step goes through, or raises OSError and changes nothing.
abbrev pub Step : Type 0 → Type 0
Step Code = Releases Code → Option (Releases Code)

abbrev differs : Option String → String → Bool
differs none text = true
differs (some now) text = not (str_eq now text)

module _ {Code : Type 0} where
  -- The steps in order, up to the first that fails: whether all went through, and what is left.
  unfoldable pub run : List (Step Code) → Releases Code → Bool × Releases Code
  run [] r = (true, r)
  run (step ∷ steps) r = elim (step r) [ none ↦ (false, r) | some r' ↦ run steps r' ]

  -- What a kill after a number of steps leaves.
  unfoldable pub killed : ℕ → List (Step Code) → Releases Code → Releases Code
  killed zero steps r = r
  killed (suc k) [] r = r
  killed (suc k) (step ∷ steps) r = elim (step r) [ none ↦ r | some r' ↦ killed k steps r' ]

  abbrev pub discard_building : Step Code
  discard_building r = some (record r { building = none })

  abbrev copy_live : Code → Step Code
  copy_live live r = some (record r { building = some live })

  -- durable_rename_dir: a name that exists is never replaced
  abbrev set_previous_aside : Step Code
  set_previous_aside r = elim r.previous [
    | none ↦ some r
    | some code ↦
        if is_some r.superseded
        then none
        else some (record r { previous = none; superseded = some code })
  ]

  abbrev set_meta_aside : Step Code
  set_meta_aside r = elim r.previous_json [
    | none ↦ some r
    | some text ↦ some (record r { previous_json = none; superseded_json = some text })
  ]

  abbrev put_in_place : Step Code
  put_in_place r = elim r.building [
    | none ↦ none
    | some code ↦
        if is_some r.previous
        then none
        else some (record r { building = none; previous = some code })
  ]

  abbrev write_meta : String → Step Code
  write_meta text r = some (record r { previous_json = some text })

  -- keep_previous_release_txn: `live` is the live release's code, `text` the kept previous.json
  unfoldable pub keep_steps : Code → String → List (Step Code)
  keep_steps live text =
      discard_building
      ∷ copy_live live
      ∷ set_previous_aside
      ∷ set_meta_aside
      ∷ put_in_place
      ∷ write_meta text
      ∷ []

  abbrev drop_kept : Bool → Step Code
  drop_kept had_previous r =
      if is_some r.superseded || not had_previous
      then some (record r { previous = none })
      else some r

  abbrev put_back : Step Code
  put_back r = elim r.superseded [
    | none ↦ some r
    | some code ↦
        if is_some r.previous
        then none
        else some (record r { superseded = none; previous = some code })
  ]

  abbrev drop_kept_meta : Option String → Step Code
  drop_kept_meta previous_before r =
      if is_some r.superseded_json || not (is_some previous_before)
      then some (record r { previous_json = none })
      else some r

  abbrev put_meta_back : Step Code
  put_meta_back r = elim r.superseded_json [
    | none ↦ some r
    | some text ↦ some (record r { superseded_json = none; previous_json = some text })
  ]

  -- restore_superseded
  unfoldable pub restore_steps : InstallTxn → List (Step Code)
  restore_steps txn =
      discard_building
      ∷ drop_kept txn.had_previous
      ∷ put_back
      ∷ drop_kept_meta txn.previous_before
      ∷ put_meta_back
      ∷ []

  -- rescue_superseded
  unfoldable pub rescue_steps : List (Step Code)
  rescue_steps =
      (λ r.
        if is_some r.superseded && not (is_some r.previous)
        then some (record r { previous = r.superseded; superseded = none })
        else some r)
      ∷ (λ r.
          if is_some r.superseded_json && not (is_some r.previous_json)
          then some (record r { previous_json = r.superseded_json; superseded_json = none })
          else some r)
      ∷ []

  -- discard_superseded
  unfoldable pub discard_steps : List (Step Code)
  discard_steps =
      (λ r. some (record r { superseded = none }))
      ∷ (λ r. some (record r { superseded_json = none }))
      ∷ []

  -- ensure_kept_pairing
  unfoldable pub ensure_kept_pairing : InstallTxn → String → Releases Code → Releases Code
  unfolding reached
  ensure_kept_pairing txn text r =
      if is_rollback txn.source
        || (not (is_some txn.replaced_ref)
            || (is_abandoning txn || not (reached txn previous_kept)))
      then r
      else if is_some r.previous && differs r.previous_json text
      then record r { previous_json = some text }
      else r
