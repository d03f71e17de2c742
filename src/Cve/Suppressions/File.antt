-- ===== src/Cve/Suppressions/File.antt =====
-- src/boxmunge/cve/suppressions.py: the suppressions file and its removal history. PyYAML's
-- `safe_load` and `safe_dump` are parameters. A write goes through or fails as the disk decides.
use boxmunge.Prelude.{
  String, Option, none, some, Bool, true, false, not, List, [], ◌∷◌, ◌++◌, map, lookup, str_eq,
  sorted, any, keep, Value, null, obj, as_dict, as_list, Date, strip, get_or_else, if◌then◌else◌,
}
use boxmunge.Cve.Suppressions.{
  Suppression, Scope, project, Error, unreadable, bad_yaml, empty_file, bad_document,
  no_suppressions_key, bad_list, invalid_cve, empty_reason, empty_reviewed_by, duplicate, no_file,
  no_entry, write_failed, Result, ok, err, ◌>>=◌, is_cve_id, parse_entries, by_cve, in_scope,
  payload,
}

-- `safe_load` gives nothing where it raises YAMLError.
pub record Yaml : Type 1 where
  pub Text : Type 0
  pub safe_load : Text → Option Value
  pub safe_dump : Value → Text

-- A file: absent, there but not readable (OSError), or its text.
pub data FileState (T : Type 0) : Type 0 where
  missing : FileState T
  locked : FileState T
  holds : T → FileState T

-- What load_suppressions makes of the document.
unfoldable pub document_entries : Value → Result (List Suppression)
unfolding parse_entries
document_entries null = err empty_file
document_entries (obj fs) = elim (lookup "suppressions" (get_or_else (as_dict (obj fs)) [])) [
  | none ↦ err no_suppressions_key
  | some raw ↦ elim (as_list raw) [ none ↦ err bad_list | some raw_list ↦ parse_entries raw_list 0 ]
]
document_entries _ = err bad_document

-- What load_suppressions returns of what `safe_load` gave.
unfoldable pub loaded : Scope → Option Value → Result (List Suppression)
unfolding document_entries
loaded scope none = err bad_yaml
loaded scope (some document) = do
  parsed ← document_entries document
  ok (sorted by_cve (map (in_scope scope) parsed))

abbrev has_entry : String → List Suppression → Bool
has_entry cve_id existing = any (λ s. str_eq s.cve_id cve_id) existing

-- next((s for s in existing if s.cve_id == cve_id), None)
unfoldable pub first_for : String → List Suppression → Option Suppression
first_for cve_id [] = none
first_for cve_id (s ∷ rest) =
    let later = first_for cve_id rest in if str_eq s.cve_id cve_id then some s else later

module _ (Y : Yaml) where
  unfoldable pub load_suppressions : FileState Y.Text → Scope → Result (List Suppression)
  unfolding loaded
  load_suppressions missing scope = ok []
  load_suppressions locked scope = err unreadable
  load_suppressions (holds text) scope = loaded scope (Y.safe_load text)

  -- `_serialise`
  abbrev pub serialise : List Suppression → Y.Text
  serialise suppressions = Y.safe_dump (payload suppressions)

  -- atomic_write_text: the new text is there, or the file is as it was
  unfoldable pub write :
      {A : Type 0} → Bool → FileState Y.Text → Y.Text → A → Result A × FileState Y.Text
  write true file text a = (ok a, holds text)
  write false file text a = (err write_failed, file)

  abbrev fail : {A : Type 0} → Error → FileState Y.Text → Result A × FileState Y.Text
  fail e file = (err e, file)

  -- the edit of add_suppression, once the arguments are checked and the file is loaded
  unfoldable pub add_to :
      Bool
      → FileState Y.Text
      → Suppression
      → Result (List Suppression)
      → Result Suppression × FileState Y.Text
  unfolding write
  add_to disk file new_entry (err e) = fail e file
  add_to disk file new_entry (ok existing) =
      if has_entry new_entry.cve_id existing
      then fail duplicate file
      else write disk file (serialise (sorted by_cve (existing ++ new_entry ∷ []))) new_entry

  unfoldable pub add_suppression :
      Bool
      → FileState Y.Text
      → String
      → Date
      → String
      → String
      → Date
      → Result Suppression × FileState Y.Text
  unfolding add_to
  add_suppression disk file cve_id until reason reviewed_by today =
      if not (is_cve_id cve_id)
      then fail invalid_cve file
      else if str_eq (strip reason) ""
      then fail empty_reason file
      else if str_eq (strip reviewed_by) ""
      then fail empty_reviewed_by file
      else add_to disk file
          (record {
            cve_id = cve_id;
            until = until;
            reason = strip reason;
            reviewed_by = strip reviewed_by;
            added = today;
            scope = project;
          })
          (load_suppressions file project)

  -- the rest of remove_suppression, from the entry that it found
  unfoldable pub remove_target :
      Bool
      → FileState Y.Text
      → String
      → List Suppression
      → Option Suppression
      → Result Suppression × FileState Y.Text
  unfolding write
  remove_target disk file cve_id existing none = fail no_entry file
  remove_target disk file cve_id existing (some target) =
      write disk file (serialise (keep (λ s. not (str_eq s.cve_id cve_id)) existing)) target

  unfoldable pub remove_from :
      Bool
      → FileState Y.Text
      → String
      → Result (List Suppression)
      → Result Suppression × FileState Y.Text
  unfolding remove_target first_for
  remove_from disk file cve_id (err e) = fail e file
  remove_from disk file cve_id (ok existing) =
      remove_target disk file cve_id existing (first_for cve_id existing)

  unfoldable pub remove_suppression :
      Bool → FileState Y.Text → String → Result Suppression × FileState Y.Text
  unfolding remove_from
  remove_suppression disk missing cve_id = fail no_file missing
  remove_suppression disk file cve_id =
      remove_from disk file cve_id (load_suppressions file project)
