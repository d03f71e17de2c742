-- ===== src/Cve/Hardening.antt =====
-- src/boxmunge/cve/hardening.py: the hardening profile of a compose file and its penalty.
pub mod Laws
use boxmunge.Prelude.{
  ℕ, ◌+◌, min, String, Option, none, some, Bool, true, false, not, ◌&&◌, ◌||◌, List, [], ◌∷◌, Dict,
  lookup, elem, any, Value, arr, list_of, as_dict, is_true, is_false, is_text, get_or_else,
  if◌then◌else◌,
}

pub record HardeningProfile : Type 0 where
  pub read_only : Bool
  pub no_new_privileges : Bool
  pub extra_caps_added : Bool
  pub privileged : Bool

pub record UpcomingHardening : Type 0 where
  pub profile : HardeningProfile
  pub services : List String

abbrev pub max_hardening_penalty : ℕ
max_hardening_penalty = 2

abbrev step_if : Bool → ℕ
step_if true = 1
step_if false = 0

unfoldable pub calculate_hardening_penalty : HardeningProfile → ℕ
calculate_hardening_penalty profile =
    if profile.privileged
    then max_hardening_penalty
    else min
        (step_if (not profile.read_only)
          + step_if (not profile.no_new_privileges)
          + step_if profile.extra_caps_added)
        max_hardening_penalty

abbrev pub hardened : HardeningProfile
hardened = record {
  read_only = true;
  no_new_privileges = true;
  extra_caps_added = false;
  privileged = false;
}

-- The items of `svc.get(key) or []` where that is a list; [] where it is no list.
abbrev items_at : Option Value → List Value
items_at (some (arr xs)) = list_of xs
items_at _ = []

abbrev non_empty : List Value → Bool
non_empty [] = false
non_empty (_ ∷ _) = true

-- svc_name in overlay_set, where `None` stands for all the services
abbrev pub in_overlay : Option (List String) → String → Bool
in_overlay none name = true
in_overlay (some overlay) name = elem name overlay

-- the four verdicts of the loop's body on one service
abbrev svc_read_only : Bool → Dict Value → Bool
svc_read_only overlay svc =
    if overlay then not (is_false (lookup "read_only" svc)) else is_true (lookup "read_only" svc)

-- `_literal_no_new_privileges`, and the same test in the first loop
unfoldable pub literal_no_new_privileges : Dict Value → Bool
literal_no_new_privileges svc =
    let sec_opt = items_at (lookup "security_opt" svc) in
    any (is_text "no-new-privileges:true") sec_opt
    && not (any (is_text "no-new-privileges:false") sec_opt)

abbrev svc_caps : Dict Value → Bool
svc_caps svc = non_empty (items_at (lookup "cap_add" svc))

abbrev svc_privileged : Dict Value → Bool
svc_privileged svc = is_true (lookup "privileged" svc)

-- A service's profile by itself, and the worst of two profiles.
unfoldable pub service_profile : Bool → Dict Value → HardeningProfile
service_profile overlay svc = record {
  read_only = svc_read_only overlay svc;
  no_new_privileges = overlay || literal_no_new_privileges svc;
  extra_caps_added = svc_caps svc;
  privileged = svc_privileged svc;
}

abbrev pub worst : HardeningProfile → HardeningProfile → HardeningProfile
worst a b = record {
  read_only = a.read_only && b.read_only;
  no_new_privileges = a.no_new_privileges && b.no_new_privileges;
  extra_caps_added = a.extra_caps_added || b.extra_caps_added;
  privileged = a.privileged || b.privileged;
}

-- `if not isinstance(svc, dict): continue`
abbrev pub join_service : HardeningProfile → Bool → Option (Dict Value) → HardeningProfile
join_service acc overlay none = acc
join_service acc overlay (some svc) = worst acc (service_profile overlay svc)

unfoldable pub services_profile :
    Option (List String) → HardeningProfile → Dict Value → HardeningProfile
services_profile overlay acc [] = acc
services_profile overlay acc ((name, svc) ∷ rest) =
    services_profile overlay (join_service acc (in_overlay overlay name) (as_dict svc)) rest

-- `compose.get("services") or {}`; what is no mapping has no services
unfoldable pub compose_services : Dict Value → Dict Value
compose_services compose = elim (lookup "services" compose) [
  | none ↦ []
  | some v ↦ get_or_else (as_dict v) []
]

unfoldable pub hardening_profile_from_compose : Dict Value → Option (List String) → HardeningProfile
unfolding services_profile compose_services
hardening_profile_from_compose compose services_with_overlay =
    services_profile services_with_overlay hardened (compose_services compose)

-- What the overlay gives a service: the settings that the profile reads.
pub record Applied : Type 0 where
  pub security_opt : List String
  pub cap_add : List String

abbrev has_caps : Option Applied → Bool
has_caps none = false
has_caps (some a) = elim a.cap_add [ [] ↦ false | _ ∷ _ ↦ true ]

abbrev keeps_no_new_privileges : Option Applied → Bool
keeps_no_new_privileges none = false
keeps_no_new_privileges (some a) = elem "no-new-privileges:true" a.security_opt

unfoldable pub effective_service : Option Applied → Bool → Dict Value → HardeningProfile
unfolding literal_no_new_privileges
effective_service settings read_only_by_overlay svc = record {
  read_only = svc_read_only read_only_by_overlay svc;
  no_new_privileges = keeps_no_new_privileges settings || literal_no_new_privileges svc;
  extra_caps_added = svc_caps svc || has_caps settings;
  privileged = svc_privileged svc;
}

abbrev pub join_effective :
    HardeningProfile → Option Applied → Bool → Option (Dict Value) → HardeningProfile
join_effective acc settings read_only_by_overlay none = acc
join_effective acc settings read_only_by_overlay (some svc) =
    worst acc (effective_service settings read_only_by_overlay svc)

unfoldable pub effective_services :
    Dict Applied → List String → HardeningProfile → Dict Value → HardeningProfile
effective_services applied read_only_by_overlay acc [] = acc
effective_services applied read_only_by_overlay acc ((name, svc) ∷ rest) =
    effective_services applied read_only_by_overlay
      (join_effective acc (lookup name applied) (elem name read_only_by_overlay) (as_dict svc)) rest

unfoldable pub effective_hardening_profile :
    Dict Value → Dict Applied → List String → HardeningProfile
unfolding effective_services compose_services
effective_hardening_profile compose applied read_only_by_overlay =
    effective_services applied read_only_by_overlay hardened (compose_services compose)
