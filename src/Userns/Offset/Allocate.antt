-- ===== src/Userns/Offset/Allocate.antt =====
-- src/boxmunge/userns/offset.py, allocate_offset: the offset of a box that is to be remapped.
use boxmunge.Prelude.{
  ℕ, ◌+◌, ◌-◌, ◌*◌, ◌/◌, ◌%◌, ◌≤◌, ◌<◌, ◌≡◌, refl, sym, ◌∙◌, subst, true, false, Option, none, some,
  List, [], ◌++◌, arith, ◌==◌, any,
}
use boxmunge.Userns.Offset.{
  Etc, SubRange, range, read_subids, floor, ok, allocate_offset, max_id, remap_ranges,
  allocate_from, err, is_free, no_free_block, ◌>>=◌, first_start, found_block, blocks,
}
use boxmunge.Userns.Offset.Blocks.{holds, search_block_found, search_block-none, is_free_sound}

-- The block that starts at `s` lies in the ids above the floor, at a multiple of its size, and
-- neither a range of the two files nor a host id has one of its ids.
pub record IsFreeBlock (taken : List SubRange) (ids : List ℕ) (s : ℕ) : Type 0 where
  pub aligned : s % range ≡ 0
  pub above : floor ≤ s
  pub fits : s + range ≤ max_id + 1
  pub unheld : (x : ℕ) → s ≤ x → x < s + range → any (holds x) taken ≡ false
  pub no_host : (x : ℕ) → s ≤ x → x < s + range → any (λ i. i == x) ids ≡ false

found_some : (o : Option ℕ) (s : ℕ) → found_block o ≡ ok s → o ≡ some s
found_some none s h = cc
found_some (some x) s h = cc

found_none : (o : Option ℕ) → found_block o ≡ err no_free_block → o ≡ none
found_none none h = refl
found_none (some x) h = cc

-- The number of an aligned block above the floor, counted from the first.
block_number : (t : ℕ) → t % range ≡ 0 → floor ≤ t → first_start + (t / range - 16) * range ≡ t
block_number t aligned above = omega arith

free_block :
    (taken : List SubRange) (ids : List ℕ) (s k : ℕ)
    → s ≡ first_start + k * range
    → s + range ≤ max_id + 1
    → is_free taken ids s ≡ true
    → IsFreeBlock taken ids s
free_block taken ids s k e fits free = record {
  aligned = omega arith;
  above = omega arith;
  fits = fits;
  unheld = λ x lo hi. (is_free_sound taken ids s x free lo hi).0;
  no_host = λ x lo hi. (is_free_sound taken ids s x free lo hi).1;
}

module _ (etc : Etc) (ids : List ℕ) (subuid subgid : List SubRange)
    (read_uids : read_subids etc.subuid ≡ ok subuid)
    (read_gids : read_subids etc.subgid ≡ ok subgid) where
  from_sources :
      (uids gids : List SubRange)
      → remap_ranges etc ≡ ok (uids, gids)
      → allocate_offset etc ids ≡ allocate_from ids (subuid ++ subgid) uids gids
  unfolding allocate_offset
  from_sources uids gids h = λ j.
      h j
      >>= (λ (u, g). read_uids j >>= (λ a. read_gids j >>= (λ b. allocate_from ids (a ++ b) u g)))

  -- Where both subid files can be read and have no range of the box's own, an offset that is given
  -- starts a block that lies above the floor, at a multiple of its size, and that no range and no
  -- host id touches; every such block below it is taken.
  pub allocate_offset-free :
      (s : ℕ)
      → remap_ranges etc ≡ ok ([], [])
      → allocate_offset etc ids ≡ ok s
      → IsFreeBlock (subuid ++ subgid) ids s
        × ((t : ℕ) → t % range ≡ 0 → floor ≤ t → t < s → is_free (subuid ++ subgid) ids t ≡ false)
  allocate_offset-free s none_own h =
      let taken = subuid ++ subgid in
      let (k, e, fits, free, before) =
        search_block_found taken ids blocks first_start s
          (found_some _ s (sym (from_sources [] [] none_own) ∙ h)) in
      (
        free_block taken ids s k e fits free,
        λ t aligned above lt.
            subst (λ x. is_free taken ids x ≡ false) (block_number t aligned above)
              (before (t / range - 16) (omega arith)),
      )

  -- Where both subid files can be read and have no range of the box's own, the offset is refused
  -- for want of a block only if no aligned block of 65536 ids from the floor to 2 ^ 32 is free.
  pub allocate_offset-full :
      remap_ranges etc ≡ ok ([], [])
      → allocate_offset etc ids ≡ err no_free_block
      → (t : ℕ) → t % range ≡ 0
      → floor ≤ t
      → t + range ≤ max_id + 1
      → is_free (subuid ++ subgid) ids t ≡ false
  allocate_offset-full none_own h t aligned above fits =
      let taken = subuid ++ subgid in
      subst (λ x. is_free taken ids x ≡ false) (block_number t aligned above)
        (search_block-none taken ids blocks first_start
          (found_none _ (sym (from_sources [] [] none_own) ∙ h)) (t / range - 16) (omega arith)
          (omega arith))
