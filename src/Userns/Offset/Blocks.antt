-- ===== src/Userns/Offset/Blocks.antt =====
-- src/boxmunge/userns/offset.py, allocate_offset: the search for a free block.
use boxmunge.Prelude.{
  ℕ, zero, suc, ◌+◌, ◌-◌, ◌*◌, ◌≤◌, ◌<◌, ◌≡◌, refl, sym, subst, ◌⊎◌, inl, inr, Bool, true, false,
  not, ◌&&◌, Option, none, some, List, [], ◌∷◌, arith, ltb, leb, ◌==◌, if◌then◌else◌, any,
}
use boxmunge.Userns.Offset.{SubRange, is_free, overlaps, search_block, max_id}
use boxmunge.Userns.Shift.{range}

-- x is one of a range's ids.
abbrev pub holds : ℕ → SubRange → Bool
holds x r = leb r.start x && ltb x (r.start + r.count)

apart :
    (taken : List SubRange) (start x : ℕ)
    → any (λ r. overlaps r start range) taken ≡ false
    → start ≤ x
    → x < start + range
    → any (holds x) taken ≡ false
unfolding overlaps
apart [] start x h lo hi = refl
apart (r ∷ taken) start x h lo hi = ground (arith, apart taken start x)

no_host :
    (ids : List ℕ) (start x : ℕ)
    → any (λ i. leb start i && ltb i (start + range)) ids ≡ false
    → start ≤ x
    → x < start + range
    → any (λ i. i == x) ids ≡ false
no_host [] start x h lo hi = refl
no_host (i ∷ ids) start x h lo hi = ground (arith, no_host ids start x)

both_not : (a b : Bool) → (not a && not b) ≡ true → (a ≡ false) × (b ≡ false)
both_not a b h = ground arith

-- No id of a free block is in a range of the two files or is a host id.
pub is_free_sound :
    (taken : List SubRange) (ids : List ℕ) (start x : ℕ)
    → is_free taken ids start ≡ true
    → start ≤ x
    → x < start + range
    → (any (holds x) taken ≡ false) × (any (λ i. i == x) ids ≡ false)
unfolding is_free
is_free_sound taken ids start x h lo hi =
    let (a, b) = both_not _ _ h in (apart taken start x a lo hi, no_host ids start x b lo hi)

shifted : (start k : ℕ) → start + range + k * range ≡ start + suc k * range
shifted start k = omega arith

within : (start : ℕ) → start + range ≤ max_id + 1 → leb (start + range - 1) max_id ≡ true
within start h = ground arith

tested_some :
    (start' : ℕ) (free : Bool) (start s : ℕ) (rest : Option ℕ)
    → (if leb (start' + range - 1) max_id then (if free then some start else rest) else none)
      ≡ some s
    → (start' + range ≤ max_id + 1)
      × (((free ≡ true) × (s ≡ start)) ⊎ ((free ≡ false) × (rest ≡ some s)))
tested_some start' free start s rest h = ground arith

tested_none :
    (fits free : Bool) (start : ℕ) (rest : Option ℕ)
    → fits ≡ true
    → (if fits then (if free then some start else rest) else none) ≡ none
    → (free ≡ false) × (rest ≡ none)
tested_none true true start rest f h = cc
tested_none true false start rest f h = (refl, h)
tested_none false free start rest f h = cc

module _ (taken : List SubRange) (ids : List ℕ) where
  step_some :
      (fuel start s : ℕ)
      → search_block (suc fuel) taken ids start ≡ some s
      → (start + range ≤ max_id + 1)
        × (((is_free taken ids start ≡ true) × (s ≡ start))
            ⊎ ((is_free taken ids start ≡ false)
                × (search_block fuel taken ids (start + range) ≡ some s)))
  unfolding search_block
  step_some fuel start s h = tested_some _ (is_free taken ids start) start s _ h

  step_none :
      (fuel start : ℕ)
      → search_block (suc fuel) taken ids start ≡ none
      → start + range ≤ max_id + 1
      → (is_free taken ids start ≡ false) × (search_block fuel taken ids (start + range) ≡ none)
  unfolding search_block
  step_none fuel start h fits =
      tested_none (leb (start + range - 1) max_id) (is_free taken ids start) start _
        (within start fits) h

  no_fuel : (start s : ℕ) → search_block 0 taken ids start ≡ some s → ⊥
  unfolding search_block
  no_fuel start s h = cc

  earlier :
      (start k : ℕ)
      → is_free taken ids start ≡ false
      → ((j : ℕ) → j < k → is_free taken ids (start + range + j * range) ≡ false)
      → (j : ℕ) → j < k + 1
      → is_free taken ids (start + j * range) ≡ false
  earlier start k busy before zero lt = subst (λ x. is_free taken ids x ≡ false) (omega arith) busy
  earlier start k busy before (suc j) lt =
      subst (λ x. is_free taken ids x ≡ false) (shifted start j) (before j (omega arith))

  -- What the search gives is an aligned, free block that ends within the ids, and the first.
  pub search_block_found :
      (fuel start s : ℕ)
      → search_block fuel taken ids start ≡ some s
      → (k : ℕ) × (s ≡ start + k * range)
        × (s + range ≤ max_id + 1)
        × (is_free taken ids s ≡ true)
        × ((j : ℕ) → j < k → is_free taken ids (start + j * range) ≡ false)
  search_block_found zero start s h = absurd (no_fuel start s h)
  search_block_found (suc fuel) start s h =
      let (fits, found) = step_some fuel start s h in
      elim found [
        | inl (free, e) ↦ (
          0,
          omega arith,
          omega arith,
          subst (λ x. is_free taken ids x ≡ true) (sym e) free,
          λ j lt. absurd (omega arith),
        )
        | inr (busy, later) ↦
            let (k, e, within', free, before) = search_block_found fuel (start + range) s later in
            (k + 1, omega arith, within', free, earlier start k busy before)
      ]

  pub search_block-none :
      (fuel start : ℕ)
      → search_block fuel taken ids start ≡ none
      → (k : ℕ) → k < fuel
      → start + k * range + range ≤ max_id + 1
      → is_free taken ids (start + k * range) ≡ false
  search_block-none zero start h k lt fits = absurd (omega arith)
  search_block-none (suc fuel) start h zero lt fits =
      subst (λ x. is_free taken ids x ≡ false) (omega arith)
        (step_none fuel start h (omega arith)).0
  search_block-none (suc fuel) start h (suc k) lt fits =
      subst (λ x. is_free taken ids x ≡ false) (shifted start k)
        (search_block-none fuel (start + range) (step_none fuel start h (omega arith)).1 k
          (omega arith) (omega arith))
