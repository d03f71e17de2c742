-- ===== src/Cve/Suppressions/Active.antt =====
-- Which suppressions count on a day: the two filters, the search for one, and its order.
use mathlib.Core.Bool.{false≢true}
use mathlib.Core.List.{perm_middle}
use mathlib.Core.List.Perm
use boxmunge.Prelude.{
  String, ◌≡◌, refl, sym, ◌∙◌, ◌↔◌, inl, inr, Bool, true, false, ◌&&◌, Option, none, some, List, [],
  ◌∷◌, ◌++◌, Perm, arith, eq_iff, if◌then◌else◌, Bool-cases, any, str_eq, str_le, sorted,
  insert_sorted, Date, date_lt, str_le_total, keep, not,
}
use boxmunge.Cve.Suppressions.{
  Suppression, is_active, active_suppressions, by_cve, find_active_suppression,
  expired_suppressions,
}

-- The active entries and the expired ones are together all the entries, each once.
active-expired-perm :
    (ss : List Suppression) (today : Date)
    → Perm (active_suppressions ss today ++ expired_suppressions ss today) ss
unfolding active_suppressions expired_suppressions
active-expired-perm [] today = Perm.refl []
active-expired-perm (s ∷ ss) today = elim (Bool-cases (is_active today s)) [
  | inl e ↦ rw e (Perm.cons s (active-expired-perm ss today))
  | inr e ↦ rw e (
      Perm.trans (perm_middle (active_suppressions ss today) (expired_suppressions ss today))
        (Perm.cons s (active-expired-perm ss today)))
]

date_lt_trans : (a b c : Date) → date_lt b a ≡ false → date_lt b c ≡ true → date_lt a c ≡ true
date_lt_trans a b c h k = ground arith

-- An entry that has expired stays expired, and one active on a day was active on every earlier day.
expired_stays :
    (s : Suppression) (today later : Date)
    → date_lt later today ≡ false
    → is_active today s ≡ false
    → is_active later s ≡ false
unfolding is_active
expired_stays s today later h k = ground arith

abbrev pub hides : String → Date → Suppression → Bool
hides cve today s = str_eq s.cve_id cve && is_active today s

-- The search finds the first entry for the CVE that is active, and nothing exactly when none is.
find_active-none_iff :
    (ss : List Suppression) (cve : String) (today : Date)
    → (find_active_suppression ss cve today ≡ none) ↔ (any (hides cve today) ss ≡ false)
unfolding find_active_suppression
find_active-none_iff [] cve today = (λ _. refl, λ _. refl)
find_active-none_iff (s ∷ ss) cve today = ground (arith, find_active-none_iff ss cve today)

find_active-hides :
    (ss : List Suppression) (cve : String) (today : Date) (s : Suppression)
    → find_active_suppression ss cve today ≡ some s
    → (s.cve_id ≡ cve) × (is_active today s ≡ true)
unfolding find_active_suppression
find_active-hides [] cve today s h = cc
find_active-hides (t ∷ ts) cve today s h =
    ground (arith, eq_iff t.cve_id cve, find_active-hides ts cve today s)

abbrev pub or_else : Option Suppression → Option Suppression → Option Suppression
or_else none o = o
or_else (some s) o = some s

pub find_active-append :
    (xs ys : List Suppression) (cve : String) (today : Date)
    → find_active_suppression (xs ++ ys) cve today
      ≡ or_else (find_active_suppression xs cve today) (find_active_suppression ys cve today)
unfolding find_active_suppression
find_active-append [] ys cve today = refl
find_active-append (x ∷ xs) ys cve today = ground (arith, find_active-append xs ys cve today)

str_le_refl : (s : String) → str_le s s ≡ true
str_le_refl s = elim (Bool-cases (str_le s s)) [ inl e ↦ e | inr e ↦ str_le_total s s e ]

by_cve-ne : (x y : Suppression) → by_cve x y ≡ false → str_eq y.cve_id x.cve_id ≡ false
by_cve-ne x y h = elim (Bool-cases (str_eq y.cve_id x.cve_id)) [
  | inl e ↦
      let p : y.cve_id ≡ x.cve_id = (eq_iff y.cve_id x.cve_id).0 e in
      absurd (false≢true (sym h ∙ rw p (str_le_refl x.cve_id)))
  | inr e ↦ e
]

find_active-insert_sorted :
    (x : Suppression) (xs : List Suppression) (cve : String) (today : Date)
    → find_active_suppression (insert_sorted by_cve x xs) cve today
      ≡ find_active_suppression (x ∷ xs) cve today
unfolding find_active_suppression insert_sorted
find_active-insert_sorted x [] cve today = refl
find_active-insert_sorted x (y ∷ ys) cve today = elim (Bool-cases (by_cve x y)) [
  | inl e ↦ rw e refl
  | inr e ↦ rw e (
      ground (
        arith,
        find_active-insert_sorted x ys cve today,
        by_cve-ne x y e,
        eq_iff y.cve_id cve,
        eq_iff x.cve_id cve,
        eq_iff y.cve_id x.cve_id,
      ))
]

pub find_active-cons :
    (x : Suppression) (xs : List Suppression) (cve : String) (today : Date)
    → find_active_suppression (x ∷ xs) cve today
      ≡ (if hides cve today x then some x else find_active_suppression xs cve today)
unfolding find_active_suppression
find_active-cons x xs cve today = refl

-- Sorting the entries, as loading and every edit do, does not change what is found: the sort is
-- stable.
pub find_active-sorted :
    (xs : List Suppression) (cve : String) (today : Date)
    → find_active_suppression (sorted by_cve xs) cve today ≡ find_active_suppression xs cve today
unfolding sorted
find_active-sorted [] cve today = refl
find_active-sorted (x ∷ xs) cve today =
    find_active-insert_sorted x (sorted by_cve xs) cve today
    ∙ (find_active-cons x (sorted by_cve xs) cve today
        ∙ rw (find_active-sorted xs cve today) (sym (find_active-cons x xs cve today)))

pub find_active-keep_ne :
    (xs : List Suppression) (gone cve : String) (today : Date)
    → find_active_suppression (keep (λ s. not (str_eq s.cve_id gone)) xs) cve today
      ≡ (if str_eq gone cve then none else find_active_suppression xs cve today)
unfolding find_active_suppression
find_active-keep_ne [] gone cve today = ground arith
find_active-keep_ne (x ∷ xs) gone cve today = ground (
  arith,
  find_active-keep_ne xs gone cve today,
  eq_iff x.cve_id gone,
  eq_iff x.cve_id cve,
  eq_iff gone cve,
)
