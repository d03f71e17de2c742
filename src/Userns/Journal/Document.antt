-- ===== src/Userns/Journal/Document.antt =====
-- src/boxmunge/userns/journal.py: `_validate` and the document of save_journal.
use boxmunge.Prelude.{
  String, Bool, true, false, Option, none, some, List, [], ◌∷◌, if◌then◌else◌, Dict, lookup, keys,
  elem, subset, Value, null, bool, int, str, arr, obj, dict_of, items_of, list_of, ℤ, fields_of,
  pos, is_true,
}
use boxmunge.Userns.Journal.{
  ◌>>◌, ◌>>=◌, Journal, Result, phase_in, ok, direction_text, err, phase_text, wrong_types, require,
  is_version, malformed, direction_of, phase_of, offset_of, known_keys, unknown_keys,
}

-- `_TYPES`
abbrev pub is_text_or_null : Value → Bool
is_text_or_null null = true
is_text_or_null (str _) = true
is_text_or_null _ = false

abbrev pub is_list_or_null : Value → Bool
is_list_or_null null = true
is_list_or_null (arr _) = true
is_list_or_null _ = false

abbrev pub is_mapping : Value → Bool
is_mapping (obj _) = true
is_mapping _ = false

abbrev pub is_int_or_null : Value → Bool
is_int_or_null null = true
is_int_or_null (int _) = true
is_int_or_null _ = false

abbrev pub is_flag : Value → Bool
is_flag (bool _) = true
is_flag _ = false

unfoldable pub wrong : Dict Value → List (String × (Value → Bool)) → List String
wrong doc [] = []
wrong doc ((k, good) ∷ types) =
    let rest = wrong doc types in
    elim (lookup k doc) [ none ↦ rest | some v ↦ if good v then rest else k ∷ rest ]

-- The keys in the order of `sorted`.
abbrev pub types : List (String × (Value → Bool))
types =
    ("applied_at", is_text_or_null)
    ∷ ("caddyfile_mode", is_int_or_null)
    ∷ ("daemon_json", is_text_or_null)
    ∷ ("daemon_json_owner", is_list_or_null)
    ∷ ("failed", is_text_or_null)
    ∷ ("fresh_install", is_flag)
    ∷ ("image_map", is_mapping)
    ∷ ("inventory", is_mapping)
    ∷ ("items", is_mapping)
    ∷ ("prior_store", is_mapping)
    ∷ ("rollback_inventory", is_mapping)
    ∷ ("setid", is_mapping)
    ∷ ("timers", is_mapping)
    ∷ []

abbrev pub no_wrong : List String → Result (Unit {0})
no_wrong [] = ok tt
no_wrong (k ∷ ks) = err (wrong_types (k ∷ ks))

-- A field that has its type, or its default where it is absent.
abbrev pub text_field : Option Value → Option String
text_field (some (str s)) = some s
text_field _ = none

abbrev pub list_field : Option Value → Option (List Value)
list_field (some (arr xs)) = some (list_of xs)
list_field _ = none

abbrev pub mapping_field : Option Value → Dict Value
mapping_field (some (obj fs)) = dict_of fs
mapping_field _ = []

abbrev pub int_field : Option Value → Option ℤ
int_field (some (int n)) = some n
int_field _ = none

-- `_validate`
unfoldable pub validate : Value → Result Journal
unfolding lookup subset elem wrong phase_in
validate (obj fs) = do
  let doc = dict_of fs
  require (is_version (lookup "version" doc)) malformed
  direction ← direction_of (lookup "direction" doc)
  phase ← phase_of direction (lookup "phase" doc)
  offset ← offset_of (lookup "offset" doc)
  require (subset (keys doc) known_keys) unknown_keys
  no_wrong (wrong doc types)
  ok (record {
    direction = direction;
    phase = phase;
    offset = offset;
    daemon_json = text_field (lookup "daemon_json" doc);
    daemon_json_owner = list_field (lookup "daemon_json_owner" doc);
    prior_store = mapping_field (lookup "prior_store" doc);
    inventory = mapping_field (lookup "inventory" doc);
    rollback_inventory = mapping_field (lookup "rollback_inventory" doc);
    items = mapping_field (lookup "items" doc);
    timers = mapping_field (lookup "timers" doc);
    image_map = mapping_field (lookup "image_map" doc);
    setid = mapping_field (lookup "setid" doc);
    caddyfile_mode = int_field (lookup "caddyfile_mode" doc);
    applied_at = text_field (lookup "applied_at" doc);
    failed = text_field (lookup "failed" doc);
    fresh_install = is_true (lookup "fresh_install" doc);
  })
validate _ = err malformed

abbrev pub text_value : Option String → Value
text_value none = null
text_value (some s) = str s

abbrev pub list_value : Option (List Value) → Value
list_value none = null
list_value (some xs) = arr (items_of xs)

abbrev pub int_value : Option ℤ → Value
int_value none = null
int_value (some n) = int n

-- The document of save_journal.
abbrev pub document : Journal → Dict Value
document j =
    ("version", int (pos 1))
    ∷ ("direction", str (direction_text j.direction))
    ∷ ("phase", str (phase_text j.phase))
    ∷ ("offset", int (pos j.offset))
    ∷ ("daemon_json", text_value j.daemon_json)
    ∷ ("daemon_json_owner", list_value j.daemon_json_owner)
    ∷ ("prior_store", obj (fields_of j.prior_store))
    ∷ ("inventory", obj (fields_of j.inventory))
    ∷ ("rollback_inventory", obj (fields_of j.rollback_inventory))
    ∷ ("items", obj (fields_of j.items))
    ∷ ("timers", obj (fields_of j.timers))
    ∷ ("image_map", obj (fields_of j.image_map))
    ∷ ("setid", obj (fields_of j.setid))
    ∷ ("caddyfile_mode", int_value j.caddyfile_mode)
    ∷ ("applied_at", text_value j.applied_at)
    ∷ ("failed", text_value j.failed)
    ∷ ("fresh_install", bool j.fresh_install)
    ∷ []

unfoldable pub to_doc : Journal → Value
to_doc j = obj (fields_of (document j))
