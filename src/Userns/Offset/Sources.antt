-- ===== src/Userns/Offset/Sources.antt =====
-- src/boxmunge/userns/offset.py: the record in boxmunge.yml, daemon.json and the running daemon,
-- each as parsed. `decimal` writes a number as Python's str does.
use boxmunge.Prelude.{
  ℕ, ◌%◌, String, Bool, true, false, not, ◌&&◌, ◌||◌, Option, none, some, List, [], ◌∷◌, ◌++◌, ltb,
  ◌==◌, if◌then◌else◌, is_some, get_or_else, lookup, str_eq, elem, Value, null, int, str, obj,
  is_text, dict_of, pos,
}
use boxmunge.Userns.Offset.{
  Etc, RemapProblem, SubRange, no_record, range, remap_name, wrong_subuid, bad_daemon_json,
  cannot_read, daemon_silent, inconsistent, not_configured, remap_ranges, wrong_subgid, bad_record,
  not_remapped, wrong_root, wrong_driver, Result, ok, err, ◌>>=◌,
}

pub data DocFile : Type 0 where
  absent : DocFile
  locked : DocFile  -- cannot be read or parsed
  document : Value → DocFile

abbrev pub names_remap : Option Value → Bool
names_remap none = false
names_remap (some v) = is_text remap_name v

-- The record, where the value found under `userns` is one.
unfoldable pub record_of : Value → Result (Option ℕ)
unfolding lookup
record_of null = ok none
record_of (obj fs) = elim (lookup "offset" (dict_of fs)) [
  | some (int (pos n)) ↦
      if names_remap (lookup "name" (dict_of fs)) && (ltb 0 n && n % range == 0)
      then ok (some n)
      else err bad_record
  | _ ↦ err bad_record
]
record_of _ = err bad_record

unfoldable pub recorded_offset : DocFile → Result (Option ℕ)
unfolding record_of lookup
recorded_offset absent = ok none
recorded_offset locked = err cannot_read
recorded_offset (document (obj fs)) = record_of (get_or_else (lookup "userns" (dict_of fs)) null)
recorded_offset (document _) = ok none

abbrev remap_setting : Value → Result (Option String)
remap_setting null = ok none
remap_setting (str s) = ok (if str_eq s "" then none else some s)
remap_setting _ = err bad_daemon_json

-- A file of white space alone is the document {}.
unfoldable pub daemon_json_userns : DocFile → Result (Option String)
unfolding lookup
daemon_json_userns absent = ok none
daemon_json_userns locked = err cannot_read
daemon_json_userns (document (obj fs)) =
    remap_setting (get_or_else (lookup "userns-remap" (dict_of fs)) null)
daemon_json_userns (document _) = err bad_daemon_json

-- docker info, as far as it is read
pub record Info : Type 0 where
  pub security_options : List String
  pub driver : Option String
  pub docker_root_dir : String

abbrev pub daemon_value : String
daemon_value = "boxmunge-remap:boxmunge-remap"

-- `_daemon_remapped`
unfoldable pub daemon_remapped : Info → Bool
unfolding elem
daemon_remapped info = elem "name=userns" info.security_options

-- Every source of the identity.
pub record Host : Type 0 where
  pub config : DocFile
  pub daemon_json : DocFile
  pub info : Option Info  -- none where the daemon cannot say
  pub etc : Etc

abbrev pub is_some_text : String → Option String → Bool
is_some_text t none = false
is_some_text t (some s) = str_eq s t

abbrev pub is_own_range : ℕ → List SubRange → Bool
is_own_range s (r ∷ []) = r.start == s && r.count == range
is_own_range s _ = false

-- s + t
abbrev pub append : String → String → String
append String.[] t = t
append (String.◌∷◌ c s) t = String.◌∷◌ c (append s t)

unfoldable pub ends_with : String → String → Bool
ends_with String.[] t = str_eq String.[] t
ends_with (String.◌∷◌ c s) t = str_eq (String.◌∷◌ c s) t || ends_with s t

abbrev pub unless : Bool → RemapProblem → List RemapProblem
unless true p = []
unless false p = p ∷ []

abbrev pub asked : Option Info → Result Info
asked none = err daemon_silent
asked (some info) = ok info

-- boxmunge_claims_remap: a source that cannot be read claims nothing
unfoldable pub boxmunge_claims_remap : Host → Bool
unfolding recorded_offset daemon_json_userns
boxmunge_claims_remap h = elim (recorded_offset h.config) [
  | ok (some n) ↦ true
  | _ ↦ elim (daemon_json_userns h.daemon_json) [
    | ok configured ↦ is_some_text daemon_value configured
    | err e ↦ false
  ]
]

module _ (decimal : ℕ → String) where
  abbrev pub root_suffix : ℕ → String
  root_suffix s = append "/" (append (decimal s) (append "." (decimal s)))

  unfoldable pub record_problems : ℕ → List SubRange → List SubRange → Info → List RemapProblem
  unfolding ends_with
  record_problems s uids gids info =
      unless (is_own_range s uids) wrong_subuid
      ++ (unless (is_own_range s gids) wrong_subgid
          ++ unless (ends_with info.docker_root_dir (root_suffix s)) wrong_root)

  unfoldable pub source_problems : Option ℕ → Option String → Info → List RemapProblem
  unfolding daemon_remapped
  source_problems recorded configured info =
      unless (is_some recorded) no_record
      ++ (unless (is_some_text daemon_value configured) (not_configured configured)
          ++ (unless (daemon_remapped info) not_remapped
              ++ unless (is_some_text "overlay2" info.driver) wrong_driver))

  abbrev pub settled : ℕ → List RemapProblem → Result ℕ
  settled s [] = ok s
  settled s (p ∷ ps) = err (inconsistent (p ∷ ps))

  -- The rest of remap_offset, from the three sources.
  unfoldable pub checked : Etc → Option ℕ → Option String → Info → Result ℕ
  unfolding source_problems record_problems
  checked etc none configured info =
      if is_some configured || daemon_remapped info
      then settled 0 (source_problems none configured info)
      else ok 0
  checked etc (some s) configured info = do
    (uids, gids) ← remap_ranges etc
    settled s (source_problems (some s) configured info ++ record_problems s uids gids info)

  unfoldable pub remap_offset : Host → Result ℕ
  unfolding checked recorded_offset daemon_json_userns
  remap_offset h = do
    recorded ← recorded_offset h.config
    configured ← daemon_json_userns h.daemon_json
    info ← asked h.info
    checked h.etc recorded configured info

  -- daemon_remapped: what the other modules ask
  unfoldable pub is_daemon_remapped : Host → Result Bool
  unfolding remap_offset boxmunge_claims_remap
  is_daemon_remapped h =
      if boxmunge_claims_remap h
      then remap_offset h >>= (λ s. ok (not (s == 0)))
      else asked h.info >>= (λ info. ok (daemon_remapped info))
