-- ===== src/Cve/Quarantine/Safe.antt =====
-- No restart policy is ever lost: it is in force or in the record, whatever fails, and when.
use boxmunge.Prelude.{
  String, ◌≡◌, refl, sym, ap, ◌∙◌, ◌⊎◌, inl, inr, Bool, true, false, Option, none, some, List, [],
  ◌∷◌, ◌++◌, arith, eq_iff, if◌then◌else◌, Bool-cases, Dict, lookup, str_eq, elem,
}
use boxmunge.Cve.Quarantine.{
  World, RecordFile, recorded, updated, set_defaults, set_default, saved_of,
}

-- The policies that the record file has saved.
abbrev pub saved_in : RecordFile → Dict String
saved_in (recorded r) = saved_of r
saved_in _ = []

-- Each saved policy is the container's original; each container has its original, or has "no" with
-- the original saved.
abbrev pub SavedOk : (String → String) → Dict String → Type 0
SavedOk original saved = (n p : String) → lookup n saved ≡ some p → p ≡ original n

abbrev pub Kept : (String → String) → Dict String → Dict String → Type 0
Kept original saved policies =
    (n p : String)
    → lookup n policies ≡ some p
    → (p ≡ original n) ⊎ ((p ≡ "no") × (lookup n saved ≡ some (original n)))

abbrev pub Settled : (String → String) → Dict String → Dict String → Type 0
Settled original saved policies = SavedOk original saved × Kept original saved policies

abbrev pub Safe : (String → String) → World → Type 0
Safe original w = Settled original (saved_in w.record_file) w.policies

abbrev pub or_some : Option String → Option String → Option String
or_some none o = o
or_some (some p) o = some p

abbrev pub put_policy : String → Option String → Option String
put_policy p none = none
put_policy p (some _) = some p

lookup-append :
    (n : String) (xs ys : Dict String) → lookup n (xs ++ ys) ≡ or_some (lookup n xs) (lookup n ys)
unfolding lookup
lookup-append n [] ys = refl
lookup-append n ((k, v) ∷ xs) ys = ground (arith, lookup-append n xs ys)

or_some-none : (o : Option String) → o ≡ or_some o none
or_some-none none = refl
or_some-none (some p) = refl

or_some_assoc :
    (o : Option String) (b : Bool) (p : String) (r : Option String)
    → or_some (or_some o (if b then some p else none)) r ≡ or_some o (if b then some p else r)
or_some_assoc none true p r = refl
or_some_assoc none false p r = refl
or_some_assoc (some q) b p r = refl

lookup-set_default :
    (n k p : String) (saved : Dict String) (o : Option String)
    → lookup k saved ≡ o
    → lookup n (set_default k p o saved)
      ≡ or_some (lookup n saved) (if str_eq k n then some p else none)
unfolding lookup
lookup-set_default n k p saved none h = lookup-append n saved ((k, p) ∷ [])
lookup-set_default n k p saved (some q) h = elim (Bool-cases (str_eq k n)) [
  | inl e ↦ let (to, _) = eq_iff k n in rw (sym (ap (λ i. lookup i saved) (to e)), h) refl
  | inr e ↦ rw e (or_some-none (lookup n saved))
]

-- What is saved already stays, and a container that is not saved is saved with its current policy.
set_defaults-lookup :
    (n : String) (saved current : Dict String)
    → lookup n (set_defaults saved current) ≡ or_some (lookup n saved) (lookup n current)
unfolding set_defaults lookup
set_defaults-lookup n saved [] = or_some-none (lookup n saved)
set_defaults-lookup n saved ((k, p) ∷ rest) =
    set_defaults-lookup n (set_default k p (lookup k saved) saved) rest
    ∙ rw (lookup-set_default n k p saved (lookup k saved) refl)
        (or_some_assoc (lookup n saved) (str_eq k n) p (lookup n rest))

pub updated-lookup :
    (n policy : String) (names : List String) (m : Dict String)
    → lookup n (updated names policy m)
      ≡ (if elem n names then put_policy policy (lookup n m) else lookup n m)
unfolding updated lookup
updated-lookup n policy names [] = ground arith
updated-lookup n policy names ((k, p) ∷ m) = elim (Bool-cases (str_eq k n)) [
  | inl e ↦ let (to, _) = eq_iff k n in rw (e, to e) (ground arith)
  | inr e ↦ rw e (updated-lookup n policy names m)
]

merged_cases :
    (original : String → String) (n p : String) (o q : Option String)
    → ((a : String) → o ≡ some a → a ≡ original n)
    → ((a : String) → q ≡ some a → (a ≡ original n) ⊎ ((a ≡ "no") × (o ≡ some (original n))))
    → or_some o q ≡ some p
    → p ≡ original n
merged_cases original n p (some a) q h k e = h p e
merged_cases original n p none q h k e = elim (k p e) [ inl same ↦ same | inr (_, absent) ↦ cc ]

-- The merged policies are the originals,
merged-SavedOk :
    (original : String → String) (saved policies : Dict String)
    → Settled original saved policies
    → SavedOk original (set_defaults saved policies)
merged-SavedOk original saved policies (ok, kept) n p e =
    merged_cases original n p (lookup n saved) (lookup n policies) (ok n) (kept n)
      (sym (set_defaults-lookup n saved policies) ∙ e)

covers_cases :
    (original : String → String) (n p : String) (o : Option String)
    → ((a : String) → o ≡ some a → a ≡ original n)
    → ((p ≡ original n) ⊎ ((p ≡ "no") × (o ≡ some (original n))))
    → or_some o (some p) ≡ some (original n)
covers_cases original n p none h (inl e) = ap some e
covers_cases original n p none h (inr (_, absent)) = cc
covers_cases original n p (some a) h k = ap some (h a refl)

-- and there is one for each container.
merged-covers :
    (original : String → String) (saved policies : Dict String)
    → Settled original saved policies
    → (n p : String) → lookup n policies ≡ some p
    → lookup n (set_defaults saved policies) ≡ some (original n)
merged-covers original saved policies (ok, kept) n p e =
    set_defaults-lookup n saved policies
    ∙ ap (or_some (lookup n saved)) e
    ∙ covers_cases original n p (lookup n saved) (ok n) (kept n p e)

merged-Kept :
    (original : String → String) (saved policies : Dict String)
    → Settled original saved policies
    → Kept original (set_defaults saved policies) policies
merged-Kept original saved policies (ok, kept) n p e = elim (kept n p e) [
  | inl same ↦ inl same
  | inr (off, _) ↦ inr (off, merged-covers original saved policies (ok, kept) n p e)
]

put_cases :
    (o : Option String) (b : Bool) (p : String)
    → (if b then put_policy "no" o else o) ≡ some p
    → (o ≡ some p) ⊎ ((p ≡ "no") × ((q : String) × (o ≡ some q)))
put_cases o false p e = inl e
put_cases none true p e = cc
put_cases (some q) true p e = inr (ground (arith, e), (q, refl))

-- Turning any of the containers' policies to "no" then loses nothing.
pub held-Settled :
    (original : String → String) (saved policies : Dict String) (names : List String)
    → Settled original saved policies
    → Settled original (set_defaults saved policies) (updated names "no" policies)
held-Settled original saved policies names s = (
  merged-SavedOk original saved policies s,
  λ n p e.
      elim (put_cases (lookup n policies) (elem n names) p
        (sym (updated-lookup n "no" names policies) ∙ e)) [
          | inl same ↦ merged-Kept original saved policies s n p same
          | inr (off, (q, there_)) ↦ inr (off, merged-covers original saved policies s n q there_)
        ],
)

merged-Settled :
    (original : String → String) (saved policies : Dict String)
    → Settled original saved policies
    → Settled original (set_defaults saved policies) policies
merged-Settled original saved policies s =
    (merged-SavedOk original saved policies s, merged-Kept original saved policies s)
