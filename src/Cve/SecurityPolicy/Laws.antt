-- ===== src/Cve/SecurityPolicy/Laws.antt =====
-- What a policy without a relaxation cannot loosen, and the recorded document.
use boxmunge.Prelude.{
  ◌≤◌, String, ◌≡◌, refl, ap, ◌∙◌, ◌↔◌, Bool, true, false, not, ◌&&◌, Option, none, some, List, [],
  ◌∷◌, ◌++◌, map, arith, eq_refl, ltb, all, lookup, elem, subset, str, subset-elem,
  list_of-items_of,
}
use boxmunge.Cve.SecurityPolicy.{
  SecurityPolicy, relaxations, policy_problem, policy_value, posture_index, runtimes_loosened,
  is_str, Relaxation, posture_lowered, quarantine_turned_off, when, runtimes_changed, is_posture,
  is_runtimes, posture_value, runtimes_value,
}
use boxmunge.Cve.Policy.Types.{Posture, relaxed, balanced, strict, paranoid}

all_str : (names : List String) → all is_str (map str names) ≡ true
all_str [] = refl
all_str (x ∷ xs) = all_str xs

runtimes_ok :
    (runtimes : Option (List String)) → is_runtimes (some (runtimes_value runtimes)) ≡ true
runtimes_ok none = refl
runtimes_ok (some names) = ap (all is_str) (list_of-items_of (map str names)) ∙ all_str names

posture_ok : (posture : Posture) → is_posture (some (str (posture_value posture))) ≡ true
unfolding elem
posture_ok relaxed = refl
posture_ok balanced = refl
posture_ok strict = refl
posture_ok paranoid = refl

-- The document that is recorded of a policy has no problem when it is read back.
policy_problem-policy_value : (p : SecurityPolicy) → policy_problem (policy_value p) ≡ none
unfolding policy_problem policy_value lookup
policy_problem-policy_value p = rw (posture_ok p.posture, runtimes_ok p.runtimes) refl

-- Runtimes that exempt no more than the old ones did: both inferred, or declared with all the old.
abbrev pub RuntimesKept : Option (List String) → Option (List String) → Type 0
RuntimesKept none none = Unit
RuntimesKept (some old) (some new) = (r : String) → elem r old ≡ true → elem r new ≡ true
RuntimesKept _ _ = ⊥

when-nil :
    (a b c : Bool) (x y z : Relaxation)
    → (when a x ++ when b y ++ when c z ≡ []) ↔ ((a ≡ false) × (b ≡ false) × (c ≡ false))
when-nil true b c x y z = (λ h. cc, λ h. cc)
when-nil false true c x y z = (λ h. cc, λ h. cc)
when-nil false false true x y z = (λ h. cc, λ h. cc)
when-nil false false false x y z = (λ h. (refl, refl, refl), λ h. refl)

subset_of :
    (old new : List String)
    → ((r : String) → elem r old ≡ true → elem r new ≡ true)
    → subset old new ≡ true
unfolding subset elem
subset_of [] new h = refl
subset_of (x ∷ old) new h = ground (
  arith,
  eq_refl x,
  h x (ground (arith, eq_refl x)),
  subset_of old new (λ r k. h r (ground arith)),
)

subset_iff :
    (old new : List String)
    → (subset old new ≡ true) ↔ ((r : String) → elem r old ≡ true → elem r new ≡ true)
subset_iff old new = (λ h r k. subset-elem r old new h k, subset_of old new)

runtimes_kept :
    (old new : Option (List String)) → (runtimes_loosened old new ≡ false) ↔ RuntimesKept old new
runtimes_kept none none = (λ h. tt, λ h. refl)
runtimes_kept none (some new) = (λ h. cc, λ h. absurd h)
runtimes_kept (some old) none = (λ h. cc, λ h. absurd h)
runtimes_kept (some old) (some new) =
    let (to, from) = subset_iff old new in (λ h. to (ground arith), λ h. ground (arith, from h))

-- A release relaxes nothing exactly when its posture is no looser, it does not turn the quarantine
-- off where it was on, and its runtimes are inferred where they were inferred and declared where
-- they were declared, with every runtime that was declared before.
pub relaxations-none :
    (before after : SecurityPolicy)
    → (relaxations before after ≡ []) ↔ (
        (posture_index before.posture ≤ posture_index after.posture)
        × (before.dangerously_disable_quarantine ≡ false
            → after.dangerously_disable_quarantine ≡ false)
        × RuntimesKept before.runtimes after.runtimes)
unfolding relaxations
relaxations-none before after =
    let (to, from) =
      when-nil (ltb (posture_index after.posture) (posture_index before.posture))
        (after.dangerously_disable_quarantine && not before.dangerously_disable_quarantine)
        (runtimes_loosened before.runtimes after.runtimes)
        (posture_lowered before.posture after.posture) quarantine_turned_off
        (runtimes_changed before.runtimes after.runtimes) in
    let (kept, loosened) = runtimes_kept before.runtimes after.runtimes in
    (
      λ h. let (p, d, r) = to h in (ground arith, λ k. ground arith, kept r),
      λ h. let (p, d, r) = h in from (ground arith, ground (arith, d), loosened r),
    )
