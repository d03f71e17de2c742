-- ===== src/Cve/SecurityPolicy.antt =====
-- src/boxmunge/cve/security_policy.py: the policy that a quarantine records, and its relaxations.
pub mod Laws
use boxmunge.Prelude.{
  ℕ, ◌+◌, String, Bool, true, false, not, ◌&&◌, Option, none, some, List, [], ◌∷◌, ◌++◌, map, ltb,
  if◌then◌else◌, all, lookup, str_le, elem, subset, sorted, Value, null, bool, str, arr, obj,
  dict_of, fields_of, items_of, list_of,
}
use boxmunge.Cve.Policy.Types.{Posture, relaxed, balanced, strict, paranoid}

pub record SecurityPolicy : Type 0 where
  pub posture : Posture
  pub dangerously_disable_quarantine : Bool
  pub runtimes : Option (List String)

abbrev sorted_runtimes : Option (List String) → Option (List String)
sorted_runtimes none = none
sorted_runtimes (some names) = some (sorted str_le names)

-- security_policy, which sorts the runtimes
unfoldable pub security_policy : Posture → Bool → Option (List String) → SecurityPolicy
security_policy posture dangerously runtimes = record {
  posture = posture;
  dangerously_disable_quarantine = dangerously;
  runtimes = sorted_runtimes runtimes;
}

-- The words of a finding, with the values that it names.
pub data Relaxation : Type 0 where
  posture_lowered : Posture → Posture → Relaxation
  quarantine_turned_off : Relaxation
  runtimes_changed : Option (List String) → Option (List String) → Relaxation

-- order.index(posture), in the order of the enum's members
abbrev pub posture_index : Posture → ℕ
posture_index relaxed = 0
posture_index balanced = 1
posture_index strict = 2
posture_index paranoid = 3

abbrev pub runtimes_loosened : Option (List String) → Option (List String) → Bool
runtimes_loosened none none = false
runtimes_loosened (some old) none = true
runtimes_loosened none (some new) = true
runtimes_loosened (some old) (some new) = not (subset old new)

abbrev pub when : Bool → Relaxation → List Relaxation
when true r = r ∷ []
when false r = []

unfoldable pub relaxations : SecurityPolicy → SecurityPolicy → List Relaxation
relaxations before after =
    when (ltb (posture_index after.posture) (posture_index before.posture))
      (posture_lowered before.posture after.posture)
    ++ when (after.dangerously_disable_quarantine && not before.dangerously_disable_quarantine)
        quarantine_turned_off
    ++ when (runtimes_loosened before.runtimes after.runtimes)
        (runtimes_changed before.runtimes after.runtimes)

-- policy_problem, on the parsed document: the reason, or none; and the TypeError that it raises
pub data PolicyProblem : Type 0 where
  not_a_mapping raises_type_error unknown_posture not_a_flag not_runtimes : PolicyProblem

abbrev pub posture_value : Posture → String
posture_value relaxed = "relaxed"
posture_value balanced = "balanced"
posture_value strict = "strict"
posture_value paranoid = "paranoid"

-- A list or a mapping is not hashable: `in` on a set raises TypeError for it.
abbrev is_hashable : Option Value → Bool
is_hashable (some (arr xs)) = false
is_hashable (some (obj xs)) = false
is_hashable _ = true

abbrev pub is_posture : Option Value → Bool
is_posture (some (str s)) = elem s ("relaxed" ∷ "balanced" ∷ "strict" ∷ "paranoid" ∷ [])
is_posture _ = false

abbrev is_flag : Option Value → Bool
is_flag (some (bool b)) = true
is_flag _ = false

abbrev pub is_str : Value → Bool
is_str (str s) = true
is_str _ = false

abbrev pub is_runtimes : Option Value → Bool
is_runtimes none = true
is_runtimes (some null) = true
is_runtimes (some (arr xs)) = all is_str (list_of xs)
is_runtimes _ = false

unfoldable pub policy_problem : Value → Option PolicyProblem
policy_problem (obj fields) =
    let policy = dict_of fields in
    if not (is_hashable (lookup "posture" policy))
    then some raises_type_error
    else if not (is_posture (lookup "posture" policy))
    then some unknown_posture
    else if not (is_flag (lookup "dangerously_disable_quarantine" policy))
    then some not_a_flag
    else if not (is_runtimes (lookup "runtimes" policy))
    then some not_runtimes
    else none
policy_problem _ = some not_a_mapping

-- The dict that security_policy returns, as a document.
abbrev pub runtimes_value : Option (List String) → Value
runtimes_value none = null
runtimes_value (some names) = arr (items_of (map str names))

unfoldable pub policy_value : SecurityPolicy → Value
policy_value p = obj (
    fields_of (
      ("posture", str (posture_value p.posture))
      ∷ ("dangerously_disable_quarantine", bool p.dangerously_disable_quarantine)
      ∷ ("runtimes", runtimes_value p.runtimes)
      ∷ []))
