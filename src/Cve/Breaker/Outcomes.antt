-- ===== src/Cve/Breaker/Outcomes.antt =====
-- src/boxmunge/cve/breaker.py: who is stopped and who is held, by the CVEs of the candidates.
use boxmunge.Prelude.{
  ℕ, String, ◌≡◌, refl, sym, ap, ◌∙◌, subst, ◌↔◌, ◌⊎◌, inl, inr, Bool, true, false, ◌&&◌, List, [],
  ◌∷◌, arith, eq_iff, eq_refl, if◌then◌else◌, Bool-cases, any, keep, Some, here, there, Dict, keys,
  values, str_eq, elem, subset, any→Some, elem-append, Some→any,
}
use boxmunge.Cve.Breaker.{Candidate, decide, union, cves_of, is_fresh}
use boxmunge.Cve.Breaker.Laws.{
  held_cves, is_held, stops, decide-elem, keys-cves_of, elem-keys-keep, any-eq,
}
use mathlib.Core.Bool.{false≢true}

any-Some :
    (p : String) (f : String × Candidate → Bool) (P : String × Candidate → Type 0)
    (m : Dict Candidate)
    → ((e : String × Candidate) → (f e ≡ true) ↔ P e)
    → (any (λ e. str_eq p e.0 && f e) m ≡ true) ↔ Some (λ e. (p ≡ e.0) × P e) m
any-Some p f P m k = (λ h. found m (any→Some _ m h), λ s. Some→any _ (tested s))
  where
    found :
        (xs : Dict Candidate)
        → Some (λ e. (str_eq p e.0 && f e) ≡ true) xs
        → Some (λ e. (p ≡ e.0) × P e) xs
    found [] h = elim h [ ]
    found (x ∷ xs) (here h) =
        let (to, _) = eq_iff p x.0 in
        let (tests, _) = k x in here (to (ground arith), tests (ground arith))
    found (x ∷ xs) (there h) = there (found xs h)

    tested :
        {xs : Dict Candidate}
        → Some (λ e. (p ≡ e.0) × P e) xs
        → Some (λ e. (str_eq p e.0 && f e) ≡ true) xs
    tested (here {x} (e, h)) =
        let (_, same) = eq_iff p x.0 in
        let (_, tests) = k x in here (ground (arith, same e, tests h))
    tested (there s) = there (tested s)

-- A CVE that the breaker holds some project for.
abbrev pub IsHeldCve : Dict (List String) → String → Type 0
IsHeldCve already_held cve = Some (λ e. elem cve e.1 ≡ true) already_held

abbrev pub AllHeldCves : Dict (List String) → Candidate → Type 0
AllHeldCves already_held c = (cve : String) → elem cve c.cves ≡ true → IsHeldCve already_held cve

abbrev pub SomeNewCve : Dict (List String) → Candidate → Type 0
SomeNewCve already_held c = (cve : String) × (elem cve c.cves ≡ true) × ¬ IsHeldCve already_held cve

abbrev pub Stops : Dict (List String) → Bool → String × Candidate → Type 0
Stops already_held tripped (p, c) = (c.kev ≡ true) ⊎ (SomeNewCve already_held c × (tripped ≡ false))

abbrev pub Holds : Dict (List String) → Bool → String × Candidate → Type 0
Holds already_held tripped (p, c) =
    (c.kev ≡ false) × (AllHeldCves already_held c ⊎ (tripped ≡ true))

abbrev pub IsNewlyHeld : Dict (List String) → Bool → String × Candidate → Type 0
IsNewlyHeld already_held tripped (p, c) =
    (c.kev ≡ false) × SomeNewCve already_held c × (tripped ≡ true)

union_held :
    (m : Dict (List String)) (cve : String) → (elem cve (union (values m)) ≡ true) ↔ IsHeldCve m cve
unfolding elem
union_held [] cve = (λ h. cc, λ s. elim s [ ])
union_held ((q, cves) ∷ m) cve =
    let (to, from) = union_held m cve in
    let split = elem-append cve cves (union (values m)) in
    (
      λ h. elim (Bool-cases (elem cve cves)) [ inl e ↦ here e | inr e ↦ there (to (ground arith)) ],
      λ s. elim s [ here e ↦ ground arith | there t ↦ ground (arith, from t) ],
    )

subset_all :
    (xs ys : List String) → subset xs ys ≡ true → (x : String) → elem x xs ≡ true → elem x ys ≡ true
unfolding subset elem
subset_all [] ys h x i = cc
subset_all (z ∷ xs) ys h x i = elim (Bool-cases (str_eq x z)) [
  | inl e ↦ let (to, _) = eq_iff x z in ap (λ w. elem w ys) (to e) ∙ ground arith
  | inr e ↦ subset_all xs ys (ground arith) x (ground arith)
]

subset_some :
    (xs ys : List String)
    → subset xs ys ≡ false
    → (x : String) × (elem x xs ≡ true) × (elem x ys ≡ false)
unfolding subset elem
subset_some [] ys h = cc
subset_some (z ∷ xs) ys h = elim (Bool-cases (elem z ys)) [
  | inl e ↦ let (x, i, out) = subset_some xs ys (ground arith) in (x, ground arith, out)
  | inr e ↦ (z, ground (arith, eq_refl z), e)
]

subset_held :
    (m : Dict (List String)) (c : Candidate)
    → (subset c.cves (held_cves m) ≡ true) ↔ AllHeldCves m c
subset_held m c = (
  λ h cve i. let (to, _) = union_held m cve in to (subset_all c.cves (held_cves m) h cve i),
  λ a. elim (Bool-cases (subset c.cves (held_cves m))) [
    | inl e ↦ e
    | inr e ↦
        let (x, i, out) = subset_some c.cves (held_cves m) e in
        let (_, from) = union_held m x in absurd (false≢true (sym out ∙ from (a x i)))
  ],
)

not_subset_held :
    (m : Dict (List String)) (c : Candidate)
    → (subset c.cves (held_cves m) ≡ false) ↔ SomeNewCve m c
not_subset_held m c = (
  λ h.
      let (x, i, out) = subset_some c.cves (held_cves m) h in
      let (_, from) = union_held m x in (x, i, λ s. false≢true (sym out ∙ from s)),
  λ (x, i, unheld). elim (Bool-cases (subset c.cves (held_cves m))) [
    | inl e ↦
        let (to, _) = union_held m x in absurd (unheld (to (subset_all c.cves (held_cves m) e x i)))
    | inr e ↦ e
  ],
)

stops-Stops :
    (m : Dict (List String)) (tripped : Bool) (e : String × Candidate)
    → (stops (held_cves m) tripped e ≡ true) ↔ Stops m tripped e
stops-Stops m tripped (p, c) =
    let (to, from) = not_subset_held m c in
    (
      λ h. elim (Bool-cases c.kev) [
        | inl e ↦ inl e
        | inr e ↦ inr (to (ground arith), ground arith)
      ],
      λ s. elim s [ inl e ↦ ground arith | inr (new, off) ↦ ground (arith, from new) ],
    )

is_held-Holds :
    (m : Dict (List String)) (tripped : Bool) (e : String × Candidate)
    → (is_held (held_cves m) tripped e ≡ true) ↔ Holds m tripped e
is_held-Holds m tripped (p, c) =
    let (to, from) = subset_held m c in
    (
      λ h. (
        ground arith,
        elim (Bool-cases (subset c.cves (held_cves m))) [
          | inl e ↦ inl (to e)
          | inr e ↦ inr (ground arith)
        ],
      ),
      λ (off, s). elim s [ inl a ↦ ground (arith, from a) | inr on ↦ ground arith ],
    )

new-IsNewlyHeld :
    (m : Dict (List String)) (tripped : Bool) (e : String × Candidate)
    → ((is_fresh (held_cves m) e && tripped) ≡ true) ↔ IsNewlyHeld m tripped e
new-IsNewlyHeld m tripped (p, c) =
    let (to, from) = not_subset_held m c in
    (
      λ h. (ground arith, to (ground arith), ground arith),
      λ (off, new, on). ground (arith, from new),
    )

newly_elem :
    (held : List String) (p : String) (m : Dict Candidate) (tripped : Bool)
    → elem p (if tripped then keys (cves_of (keep (is_fresh held) m)) else [])
      ≡ any (λ e. str_eq p e.0 && (is_fresh held e && tripped)) m
unfolding elem
newly_elem held p m true = rw (keys-cves_of (keep (is_fresh held) m)) (
    elem-keys-keep (is_fresh held) p m
    ∙ any-eq (is_fresh held) (λ e. is_fresh held e && true) p m (λ e. ground arith))
newly_elem held p [] false = refl
newly_elem held p (e ∷ m) false = ground (arith, newly_elem held p m false)

-- For every project name, with the CVEs held so far those that some project is held for: it is
-- stopped now exactly when it is a candidate that has a KEV-listed CVE, or that has a CVE not held
-- so far while the breaker does not trip; it is held exactly when it is a candidate without a
-- KEV-listed CVE whose CVEs are all held so far, or that is there while the breaker trips; it is
-- newly held exactly when it is a candidate without a KEV-listed CVE that has a CVE not held so far
-- while the breaker trips.
pub decide-outcomes :
    (candidates : Dict Candidate) (n : ℕ) (already_held : Dict (List String)) (p : String)
    → let v = decide candidates n already_held in
      ((elem p v.applied ≡ true)
        ↔ Some (λ e. (p ≡ e.0) × Stops already_held v.tripped e) candidates)
      × ((elem p (keys v.held) ≡ true)
          ↔ Some (λ e. (p ≡ e.0) × Holds already_held v.tripped e) candidates)
      × ((elem p v.newly_held ≡ true)
          ↔ Some (λ e. (p ≡ e.0) × IsNewlyHeld already_held v.tripped e) candidates)
unfolding decide
decide-outcomes candidates n already_held p =
    let held = held_cves already_held in
    let tripped = (decide candidates n already_held).tripped in
    let (applied, kept) = decide-elem candidates n already_held p in
    (
      subst (λ b. (b ≡ true) ↔ Some (λ e. (p ≡ e.0) × Stops already_held tripped e) candidates)
          (sym applied)
          (any-Some p (stops held tripped) (Stops already_held tripped) candidates
            (stops-Stops already_held tripped)),
      subst (λ b. (b ≡ true) ↔ Some (λ e. (p ≡ e.0) × Holds already_held tripped e) candidates)
          (sym kept)
          (any-Some p (is_held held tripped) (Holds already_held tripped) candidates
            (is_held-Holds already_held tripped)),
      subst
          (λ b. (b ≡ true) ↔ Some (λ e. (p ≡ e.0) × IsNewlyHeld already_held tripped e) candidates)
          (sym (newly_elem held p candidates tripped))
          (any-Some p (λ e. is_fresh held e && tripped) (IsNewlyHeld already_held tripped)
            candidates (new-IsNewlyHeld already_held tripped)),
    )
