-- ===== src/Cve/Breaker/Laws.antt =====
-- When the breaker trips, and which projects the verdict stops.
use boxmunge.Prelude.{
  ℕ, ◌≤◌, String, ◌≡◌, refl, ap, ◌∙◌, Bool, true, false, not, ◌&&◌, ◌||◌, List, [], ◌∷◌, ◌++◌,
  arith, leb, if◌then◌else◌, length, any, keep, Dict, keys, values, str_eq, elem, length-keep,
  member_laws,
}
use boxmunge.Cve.Breaker.{
  Candidate, decide, fresh_trips, is_fresh, is_still_held, is_kev, cves_of, union, most, per_cve,
  trip_threshold,
}

most_le : (f : String → ℕ) (b : ℕ) (xs : List String) → ((x : String) → f x ≤ b) → most f xs ≤ b
most_le f b [] h = omega arith
most_le f b (x ∷ rest) h = omega (arith, h x, most_le f b rest h)

length-values : {V : Type 0} (m : Dict V) → length (values m) ≡ length m
length-values [] = refl
length-values ((k, v) ∷ m) = omega (arith, length-values m)

most-per_cve_le :
    (fresh : Dict (List String))
    → most (per_cve (values fresh)) (union (values fresh)) ≤ length fresh
unfolding per_cve
most-per_cve_le fresh =
    most_le (per_cve (values fresh)) (length fresh) (union (values fresh))
      (λ x. omega (arith, length-keep (elem x) (values fresh), length-values fresh))

threshold_ge : (n : ℕ) → 2 ≤ trip_threshold n
unfolding trip_threshold
threshold_ge n = omega arith

length-cves_of : (m : Dict Candidate) → length (cves_of m) ≡ length m
length-cves_of [] = refl
length-cves_of ((p, c) ∷ m) = omega (arith, length-cves_of m)

fresh_trips_eq :
    (n : ℕ) (fresh : Dict (List String))
    → fresh_trips (trip_threshold n) fresh ≡ leb (trip_threshold n) (length fresh)
unfolding fresh_trips
fresh_trips_eq n fresh = ground (arith, threshold_ge n, most-per_cve_le fresh)

-- The CVEs held so far, by which a candidate is fresh or still held.
abbrev pub held_cves : Dict (List String) → List String
held_cves already_held = union (values already_held)

-- The breaker trips exactly when the number of the fresh candidates (no KEV listed, some CVE not
-- held before) reaches the threshold: no single CVE can reach it without them.
pub decide-trips :
    (candidates : Dict Candidate) (n : ℕ) (already_held : Dict (List String))
    → (decide candidates n already_held).tripped
      ≡ leb (trip_threshold n) (length (keep (is_fresh (held_cves already_held)) candidates))
unfolding decide
decide-trips candidates n already_held =
    let fresh = keep (is_fresh (held_cves already_held)) candidates in
    fresh_trips_eq n (cves_of fresh) ∙ ap (leb (trip_threshold n)) (length-cves_of fresh)

pub elem-keys-keep :
    (f : String × Candidate → Bool) (p : String) (m : Dict Candidate)
    → elem p (keys (keep f m)) ≡ any (λ e. str_eq p e.0 && f e) m
unfolding elem
elem-keys-keep f p [] = refl
elem-keys-keep f p ((k, c) ∷ m) = ground (arith, elem-keys-keep f p m)

pub keys-cves_of : (m : Dict Candidate) → keys (cves_of m) ≡ keys m
keys-cves_of [] = refl
keys-cves_of ((p, c) ∷ m) = ap (λ t. p ∷ t) (keys-cves_of m)

keys-append : {V : Type 0} (xs ys : Dict V) → keys (xs ++ ys) ≡ keys xs ++ keys ys
keys-append [] ys = refl
keys-append ((k, v) ∷ xs) ys = ap (λ t. k ∷ t) (keys-append xs ys)

-- Who is stopped now, and who is held: a candidate with a KEV-listed CVE always stops; one whose
-- CVEs are all held already is held; any other is held when the breaker trips, and stops when not.
abbrev pub stops : List String → Bool → String × Candidate → Bool
stops held tripped e = is_kev e || (is_fresh held e && not tripped)

abbrev pub is_held : List String → Bool → String × Candidate → Bool
is_held held tripped e = is_still_held held e || (is_fresh held e && tripped)

pub any-eq :
    (f g : String × Candidate → Bool) (p : String) (m : Dict Candidate)
    → ((e : String × Candidate) → f e ≡ g e)
    → any (λ e. str_eq p e.0 && f e) m ≡ any (λ e. str_eq p e.0 && g e) m
any-eq f g p [] k = refl
any-eq f g p (e ∷ m) k = ground (arith, k e, any-eq f g p m k)

pub any-or :
    (f g h : String × Candidate → Bool) (p : String) (m : Dict Candidate)
    → ((e : String × Candidate) → h e ≡ (f e || g e))
    → any (λ e. str_eq p e.0 && h e) m
      ≡ (any (λ e. str_eq p e.0 && f e) m || any (λ e. str_eq p e.0 && g e) m)
any-or f g h p [] k = refl
any-or f g h p (e ∷ m) k = ground (arith, k e, any-or f g h p m k)

elem-keys_both :
    (f g h : String × Candidate → Bool) (p : String) (m : Dict Candidate)
    → ((e : String × Candidate) → h e ≡ (f e || g e))
    → elem p (keys (keep f m) ++ keys (keep g m)) ≡ any (λ e. str_eq p e.0 && h e) m
elem-keys_both f g h p m k =
    grind (member_laws, elem-keys-keep f p m, elem-keys-keep g p m, any-or f g h p m k)

applied_elem :
    (held : List String) (p : String) (m : Dict Candidate) (tripped : Bool)
    → let kev = keys (keep is_kev m) in
      elem p (if tripped then kev else kev ++ keys (cves_of (keep (is_fresh held) m)))
      ≡ any (λ e. str_eq p e.0 && stops held tripped e) m
applied_elem held p m true =
    elem-keys-keep is_kev p m ∙ any-eq is_kev (stops held true) p m (λ e. ground arith)
applied_elem held p m false =
    rw (keys-cves_of (keep (is_fresh held) m))
      (elem-keys_both is_kev (is_fresh held) (stops held false) p m (λ e. ground arith))

held_elem :
    (held : List String) (p : String) (m : Dict Candidate) (tripped : Bool)
    → let still = cves_of (keep (is_still_held held) m) in
      elem p (keys (if tripped then still ++ cves_of (keep (is_fresh held) m) else still))
      ≡ any (λ e. str_eq p e.0 && is_held held tripped e) m
held_elem held p m true =
    let still = cves_of (keep (is_still_held held) m) in
    let fresh = cves_of (keep (is_fresh held) m) in
    rw
      (
        keys-append still fresh,
        keys-cves_of (keep (is_still_held held) m),
        keys-cves_of (keep (is_fresh held) m),
      )
      (elem-keys_both (is_still_held held) (is_fresh held) (is_held held true) p m
        (λ e. ground arith))
held_elem held p m false = rw (keys-cves_of (keep (is_still_held held) m)) (
    elem-keys-keep (is_still_held held) p m
    ∙ any-eq (is_still_held held) (is_held held false) p m (λ e. ground arith))

-- The names of the verdict, as a test on the candidates.
pub decide-elem :
    (candidates : Dict Candidate) (n : ℕ) (already_held : Dict (List String)) (p : String)
    → let v = decide candidates n already_held in
      let held = held_cves already_held in
      (elem p v.applied ≡ any (λ e. str_eq p e.0 && stops held v.tripped e) candidates)
      × (elem p (keys v.held) ≡ any (λ e. str_eq p e.0 && is_held held v.tripped e) candidates)
unfolding decide
decide-elem candidates n already_held p =
    let held = held_cves already_held in
    let tripped = (decide candidates n already_held).tripped in
    (applied_elem held p candidates tripped, held_elem held p candidates tripped)

-- A run over at most one candidate, as a scan of one project is, never trips.
decide-single :
    (candidates : Dict Candidate) (n : ℕ) (already_held : Dict (List String))
    → length candidates ≤ 1
    → ((decide candidates n already_held).tripped ≡ false)
      × ((decide candidates n already_held).newly_held ≡ [])
unfolding decide
decide-single candidates n already_held h =
    let fresh = keep (is_fresh (held_cves already_held)) candidates in
    let off : (decide candidates n already_held).tripped ≡ false = ground (
      arith,
      decide-trips candidates n already_held,
      threshold_ge n,
      length-keep (is_fresh (held_cves already_held)) candidates,
      h,
    ) in
    (off, rw off refl)
