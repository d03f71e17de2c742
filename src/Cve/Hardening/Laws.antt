-- ===== src/Cve/Hardening/Laws.antt =====
-- The penalty's range and order, and the project's profile as the worst over its services.
use boxmunge.Prelude.{
  ◌≤◌, String, ◌≡◌, ◌∙◌, ◌↔◌, Bool, ◌&&◌, ◌||◌, Option, none, some, List, [], ◌∷◌, arith, any, all,
  Dict, Value, as_dict,
}
use boxmunge.Cve.Hardening.{
  HardeningProfile, calculate_hardening_penalty, worst, hardened, services_profile,
  hardening_profile_from_compose, in_overlay, service_profile, compose_services, join_service,
}

-- The penalty is at most two steps; it is none exactly for the hardened profile, and a profile that
-- adds another's deviations to its own has no smaller penalty than either.
pub penalty_bounds :
    (a b : HardeningProfile)
    → (calculate_hardening_penalty a ≤ 2)
      × ((calculate_hardening_penalty a ≡ 0) ↔ (a ≡ hardened))
      × (calculate_hardening_penalty a ≤ calculate_hardening_penalty (worst a b))
      × (calculate_hardening_penalty b ≤ calculate_hardening_penalty (worst a b))
unfolding calculate_hardening_penalty
penalty_bounds a b =
    (ground arith, (λ h. ground arith, λ h. ground arith), ground arith, ground arith)

-- The profiles of the services that are mappings.
abbrev pub cons_profile : Bool → Option (Dict Value) → List HardeningProfile → List HardeningProfile
cons_profile overlay none rest = rest
cons_profile overlay (some svc) rest = service_profile overlay svc ∷ rest

abbrev pub service_profiles : Option (List String) → Dict Value → List HardeningProfile
service_profiles overlay [] = []
service_profiles overlay ((name, svc) ∷ rest) =
    cons_profile (in_overlay overlay name) (as_dict svc) (service_profiles overlay rest)

abbrev pub IsWorstOf : HardeningProfile → List HardeningProfile → Type 0
IsWorstOf p ps =
    (p.read_only ≡ all (λ s. s.read_only) ps)
    × (p.no_new_privileges ≡ all (λ s. s.no_new_privileges) ps)
    × (p.extra_caps_added ≡ any (λ s. s.extra_caps_added) ps)
    × (p.privileged ≡ any (λ s. s.privileged) ps)

abbrev Folds : HardeningProfile → HardeningProfile → List HardeningProfile → Type 0
Folds p acc ps =
    (p.read_only ≡ (acc.read_only && all (λ s. s.read_only) ps))
    × (p.no_new_privileges ≡ (acc.no_new_privileges && all (λ s. s.no_new_privileges) ps))
    × (p.extra_caps_added ≡ (acc.extra_caps_added || any (λ s. s.extra_caps_added) ps))
    × (p.privileged ≡ (acc.privileged || any (λ s. s.privileged) ps))

worst-Folds :
    (p acc own : HardeningProfile) (ps : List HardeningProfile)
    → Folds p (worst acc own) ps
    → Folds p acc (own ∷ ps)
worst-Folds p acc own ps (r, n, c, q) =
    (r ∙ ground arith, n ∙ ground arith, c ∙ ground arith, q ∙ ground arith)

join_service-Folds :
    (acc : HardeningProfile) (overlay : Bool) (o : Option (Dict Value)) (ps : List HardeningProfile)
    (f : HardeningProfile → HardeningProfile)
    → ((acc' : HardeningProfile) → Folds (f acc') acc' ps)
    → Folds (f (join_service acc overlay o)) acc (cons_profile overlay o ps)
join_service-Folds acc overlay none ps f h = h acc
join_service-Folds acc overlay (some svc) ps f h =
    let own = service_profile overlay svc in
    worst-Folds (f (worst acc own)) acc own ps (h (worst acc own))

services_profile-Folds :
    (overlay : Option (List String)) (m : Dict Value) (acc : HardeningProfile)
    → Folds (services_profile overlay acc m) acc (service_profiles overlay m)
unfolding services_profile
services_profile-Folds overlay [] acc = (ground arith, ground arith, ground arith, ground arith)
services_profile-Folds overlay ((name, svc) ∷ rest) acc =
    join_service-Folds acc (in_overlay overlay name) (as_dict svc) (service_profiles overlay rest)
      (λ acc'. services_profile overlay acc' rest) (services_profile-Folds overlay rest)

-- The project is as hardened as its weakest service: each protection holds when all the services
-- that are mappings have it, and each weakness when one has it. With no service it is hardened.
pub hardening_profile-IsWorstOf :
    (compose : Dict Value) (overlay : Option (List String))
    → IsWorstOf
        (hardening_profile_from_compose compose overlay)
        (service_profiles overlay (compose_services compose))
unfolding hardening_profile_from_compose
hardening_profile-IsWorstOf compose overlay =
    services_profile-Folds overlay (compose_services compose) hardened
