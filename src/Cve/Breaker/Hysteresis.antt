-- ===== src/Cve/Breaker/Hysteresis.antt =====
-- What the breaker holds, it holds in every later run on the same candidates.
use boxmunge.Prelude.{
  ℕ, String, ◌≡◌, refl, sym, ap, ◌∙◌, subst, inl, inr, Bool, true, false, ◌&&◌, List, [], ◌∷◌, ◌++◌,
  arith, eq_refl, if◌then◌else◌, Bool-cases, any, keep, Dict, keys, values, str_eq, elem, subset,
  any_mono,
}
use boxmunge.Cve.Breaker.{Candidate, decide, is_fresh, is_still_held, is_kev, cves_of, union}
use boxmunge.Cve.Breaker.Laws.{decide-elem, held_cves, is_held, any-or}

subset_cons : (s t : List String) (x : String) → subset s t ≡ true → subset s (x ∷ t) ≡ true
unfolding subset elem
subset_cons [] t x h = refl
subset_cons (y ∷ s) t x h = ground (arith, subset_cons s t x (ground arith))

subset_refl : (s : List String) → subset s s ≡ true
unfolding subset elem
subset_refl [] = refl
subset_refl (x ∷ s) = ground (arith, eq_refl x, subset_cons s s x (subset_refl s))

subset_left : (s t u : List String) → subset (s ++ t) u ≡ (subset s u && subset t u)
unfolding subset
subset_left [] t u = refl
subset_left (x ∷ s) t u = ground (arith, subset_left s t u)

keep_yes :
    (f : String × Candidate → Bool) (e : String × Candidate) (m : Dict Candidate)
    → f e ≡ true
    → keep f (e ∷ m) ≡ e ∷ keep f m
keep_yes f e m h = ground arith

keep_no :
    (f : String × Candidate → Bool) (e : String × Candidate) (m : Dict Candidate)
    → f e ≡ false
    → keep f (e ∷ m) ≡ keep f m
keep_no f e m h = ground arith

abbrev all_cves : Dict Candidate → List String
all_cves m = union (values (cves_of m))

-- Whoever f keeps is still held when the held set has all the CVEs that f keeps.
kept_held :
    (f : String × Candidate → Bool) (held : List String) (p : String) (m : Dict Candidate)
    → ((e : String × Candidate) → f e ≡ true → is_kev e ≡ false)
    → subset (all_cves (keep f m)) held ≡ true
    → any (λ e. str_eq p e.0 && f e) m ≡ true
    → any (λ e. str_eq p e.0 && is_still_held held e) m ≡ true
kept_held f held p [] k s h = cc
kept_held f held p ((n, c) ∷ m) k s h = elim (Bool-cases (f (n, c))) [
  | inl e ↦
      let both : (subset c.cves held && subset (all_cves (keep f m)) held) ≡ true =
        sym (subset_left c.cves (all_cves (keep f m)) held)
        ∙ subst (λ t. subset (all_cves t) held ≡ true) (keep_yes f (n, c) m e) s in
      let not_kev = k (n, c) e in
      let rest = kept_held f held p m k (ground arith) in ground (arith, rest)
  | inr e ↦
      let s2 = subst (λ t. subset (all_cves t) held ≡ true) (keep_no f (n, c) m e) s in
      let rest = kept_held f held p m k s2 in ground (arith, rest)
]

append_assoc : (xs ys zs : List String) → (xs ++ ys) ++ zs ≡ xs ++ (ys ++ zs)
append_assoc [] ys zs = refl
append_assoc (x ∷ xs) ys zs = ap (λ t. x ∷ t) (append_assoc xs ys zs)

values-append :
    (xs ys : Dict (List String))
    → union (values (xs ++ ys)) ≡ union (values xs) ++ union (values ys)
values-append [] ys = refl
values-append ((k, v) ∷ xs) ys =
    rw (values-append xs ys) (sym (append_assoc v (union (values xs)) (union (values ys))))

-- The CVEs of those that the verdict holds are among the CVEs that it holds.
held_covers :
    (held : List String) (m : Dict Candidate) (tripped : Bool)
    → let still = cves_of (keep (is_still_held held) m) in
      let fresh = cves_of (keep (is_fresh held) m) in
      let after = union (values (if tripped then still ++ fresh else still)) in
      (subset (all_cves (keep (is_still_held held) m)) after ≡ true)
      × (tripped ≡ true → subset (all_cves (keep (is_fresh held) m)) after ≡ true)
held_covers held m false = (subset_refl (all_cves (keep (is_still_held held) m)), λ h. cc)
held_covers held m true =
    let still = cves_of (keep (is_still_held held) m) in
    let fresh = cves_of (keep (is_fresh held) m) in
    let all_held = union (values still) ++ union (values fresh) in
    let both =
      sym (subset_left (union (values still)) (union (values fresh)) all_held)
      ∙ subset_refl all_held in
    rw (values-append still fresh) (ground arith, λ h. ground arith)

held_again :
    (held after : List String) (p : String) (m : Dict Candidate) (tripped : Bool)
    → subset (all_cves (keep (is_still_held held) m)) after ≡ true
    → (tripped ≡ true → subset (all_cves (keep (is_fresh held) m)) after ≡ true)
    → any (λ e. str_eq p e.0 && is_held held tripped e) m ≡ true
    → any (λ e. str_eq p e.0 && is_still_held after e) m ≡ true
held_again held after p m false s f h =
    kept_held (is_still_held held) after p m (λ e k. ground arith) s
      (any_mono (λ e. str_eq p e.0 && is_held held false e)
        (λ e. str_eq p e.0 && is_still_held held e) m (λ e k. ground arith) h)
held_again held after p m true s f h =
    elim (Bool-cases (any (λ e. str_eq p e.0 && is_still_held held e) m)) [
      | inl k ↦ kept_held (is_still_held held) after p m (λ e k. ground arith) s k
      | inr k ↦
          kept_held (is_fresh held) after p m (λ e k. ground arith) (f refl)
            (ground (
              arith,
              any-or (is_still_held held) (is_fresh held) (is_held held true) p m
                  (λ e. ground arith),
            ))
    ]

decided_covers :
    (candidates : Dict Candidate) (n : ℕ) (already_held : Dict (List String))
    → let first = decide candidates n already_held in
      let held = held_cves already_held in
      let after = held_cves first.held in
      (subset (all_cves (keep (is_still_held held) candidates)) after ≡ true)
      × (first.tripped ≡ true → subset (all_cves (keep (is_fresh held) candidates)) after ≡ true)
unfolding decide
decided_covers candidates n already_held =
    held_covers (held_cves already_held) candidates (decide candidates n already_held).tripped

-- A project that one run holds is held again in the next run on the same candidates, whatever the
-- number of the projects that run scans, when it starts from what the first run held.
pub decide-keeps_held :
    (candidates : Dict Candidate) (n m : ℕ) (already_held : Dict (List String)) (p : String)
    → let first = decide candidates n already_held in
      elem p (keys first.held) ≡ true → elem p (keys (decide candidates m first.held).held) ≡ true
decide-keeps_held candidates n m already_held p h =
    let first = decide candidates n already_held in
    let (_, by_first) = decide-elem candidates n already_held p in
    let (_, by_next) = decide-elem candidates m first.held p in
    let next_tripped = (decide candidates m first.held).tripped in
    let (s, f) = decided_covers candidates n already_held in
    let still =
      held_again (held_cves already_held) (held_cves first.held) p candidates first.tripped s f
        (sym by_first ∙ h) in
    by_next
    ∙ any_mono (λ e. str_eq p e.0 && is_still_held (held_cves first.held) e)
        (λ e. str_eq p e.0 && is_held (held_cves first.held) next_tripped e) candidates
        (λ e k. ground arith) still
