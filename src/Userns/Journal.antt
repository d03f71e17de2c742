-- ===== src/Userns/Journal.antt =====
-- src/boxmunge/userns/journal.py: the migration's journal and its phases.
pub mod Document
pub mod Codec
use boxmunge.Prelude.{
  ℕ, ◌-◌, ◌%◌, String, Bool, true, false, ◌&&◌, Option, none, some, List, [], ◌∷◌, ltb, leb, ◌==◌,
  if◌then◌else◌, Dict, str_eq, Value, bool, int, float, str, arr, obj, pos, ℤ,
}

pub data Direction : Type 0 where
  forward rollback : Direction

pub data Phase : Type 0 where
  started prepared quiesced switched rebuilt applied committed : Phase
  rb_started rb_saved rb_quiesced rb_restored rb_switched rb_rebuilt rolled_back : Phase

pub record Journal : Type 0 where
  pub direction : Direction
  pub phase : Phase
  pub offset : ℕ
  pub daemon_json : Option String
  pub daemon_json_owner : Option (List Value)
  pub prior_store : Dict Value
  pub inventory : Dict Value
  pub rollback_inventory : Dict Value
  pub items : Dict Value
  pub timers : Dict Value
  pub image_map : Dict Value
  pub setid : Dict Value
  pub caddyfile_mode : Option ℤ
  pub applied_at : Option String
  pub failed : Option String
  pub fresh_install : Bool

-- The index of a phase in its direction's phases; `reached` raises ValueError across directions.
unfoldable pub index_in : Direction → Phase → Option ℕ
index_in forward started = some 0
index_in forward prepared = some 1
index_in forward quiesced = some 2
index_in forward switched = some 3
index_in forward rebuilt = some 4
index_in forward applied = some 5
index_in forward committed = some 6
index_in rollback rb_started = some 0
index_in rollback rb_saved = some 1
index_in rollback rb_quiesced = some 2
index_in rollback rb_restored = some 3
index_in rollback rb_switched = some 4
index_in rollback rb_rebuilt = some 5
index_in rollback rolled_back = some 6
index_in _ _ = none

abbrev at_least : Option ℕ → Option ℕ → Option Bool
at_least (some m) (some n) = some (leb n m)
at_least _ _ = none

-- Journal.reached
unfoldable pub reached : Journal → Phase → Option Bool
unfolding index_in
reached j phase = at_least (index_in j.direction j.phase) (index_in j.direction phase)

pub data JournalError : Type 0 where
  malformed : JournalError
  type_error : JournalError  -- a direction that cannot be hashed
  unknown_keys : JournalError
  wrong_types : List String → JournalError

pub data Result (A : Type 0) : Type 0 where
  ok : A → Result A
  err : JournalError → Result A

infixl 5 ◌>>=◌ ◌>>◌
abbrev pub ◌>>=◌ : {A B : Type 0} → Result A → (A → Result B) → Result B
ok a >>= f = f a
err e >>= f = err e

abbrev pub ◌>>◌ : {B : Type 0} → Result (Unit {0}) → Result B → Result B
m >> k = m >>= (λ _. k)

abbrev require : Bool → JournalError → Result (Unit {0})
require true e = ok tt
require false e = err e

abbrev pub phase_text : Phase → String
phase_text started = "started"
phase_text prepared = "prepared"
phase_text quiesced = "quiesced"
phase_text switched = "switched"
phase_text rebuilt = "rebuilt"
phase_text applied = "applied"
phase_text committed = "committed"
phase_text rb_started = "rb-started"
phase_text rb_saved = "rb-saved"
phase_text rb_quiesced = "rb-quiesced"
phase_text rb_restored = "rb-restored"
phase_text rb_switched = "rb-switched"
phase_text rb_rebuilt = "rb-rebuilt"
phase_text rolled_back = "rolled-back"

abbrev pub direction_text : Direction → String
direction_text forward = "forward"
direction_text rollback = "rollback"

-- FORWARD_PHASES and ROLLBACK_PHASES
abbrev pub phases : Direction → List Phase
phases forward = started ∷ prepared ∷ quiesced ∷ switched ∷ rebuilt ∷ applied ∷ committed ∷ []
phases rollback =
    rb_started ∷ rb_saved ∷ rb_quiesced ∷ rb_restored ∷ rb_switched ∷ rb_rebuilt ∷ rolled_back ∷ []

unfoldable pub phase_in : String → List Phase → Option Phase
phase_in s [] = none
phase_in s (p ∷ ps) = if str_eq s (phase_text p) then some p else phase_in s ps

-- doc.get("version") == VERSION: Python's True and 1.0 are equal to 1
abbrev is_version : Option Value → Bool
is_version (some (int (pos n))) = n == 1
is_version (some (bool b)) = b
is_version (some (float text)) = str_eq text "1.0"
is_version _ = false

abbrev direction_of : Option Value → Result Direction
direction_of (some (str s)) =
    if str_eq s "forward"
    then ok forward
    else if str_eq s "rollback"
    then ok rollback
    else err malformed
direction_of (some (arr _)) = err type_error
direction_of (some (obj _)) = err type_error
direction_of _ = err malformed

abbrev phase_of : Direction → Option Value → Result Phase
phase_of d (some (str s)) = elim (phase_in s (phases d)) [ none ↦ err malformed | some p ↦ ok p ]
phase_of d _ = err malformed

abbrev offset_of : Option Value → Result ℕ
offset_of (some (int (pos n))) = if ltb 0 n && n % 65536 == 0 then ok n else err malformed
offset_of _ = err malformed

abbrev known_keys : List String
known_keys =
    "version" ∷ "direction" ∷ "phase" ∷ "offset" ∷ "daemon_json" ∷ "daemon_json_owner"
    ∷ "prior_store" ∷ "inventory" ∷ "rollback_inventory" ∷ "items" ∷ "timers" ∷ "image_map"
    ∷ "setid" ∷ "caddyfile_mode" ∷ "applied_at" ∷ "failed" ∷ "fresh_install" ∷ []
