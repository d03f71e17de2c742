-- ===== src/Userns/Shift/Modes.antt =====
-- src/boxmunge/userns/shift.py: what `_new_id`, `_cleared` and `_loses_mode` do to ids and modes.
use boxmunge.Prelude.{
  ℕ, ◌+◌, ◌-◌, ◌≤◌, ◌<◌, ◌≡◌, Bool, true, false, ◌&&◌, ◌||◌, none, some, arith, ltb, if◌then◌else◌,
  get_or_else,
}
use boxmunge.Userns.Shift.{
  Direction, bit, cleared, new_id, range, s_isuid, in_range, inverse, s_isgid, s_ixgrp,
}
use Shift.{forward}
use boxmunge.Userns.Shift

-- Where an id goes; what cannot be mapped stays.
abbrev pub target : ℕ → Direction → ℕ → ℕ
target offset forward value = if ltb value range then value + offset else value
target offset inverse value = if in_range offset value then value - offset else value

pub new_id-target :
    (offset value : ℕ) (direction : Direction) (resumed : Bool)
    → get_or_else (new_id value offset direction resumed) value ≡ target offset direction value
unfolding new_id
new_id-target offset value forward resumed = ground arith
new_id-target offset value inverse resumed = ground arith

pub target_idem :
    (offset value : ℕ) (direction : Direction)
    → range ≤ offset
    → target offset direction (target offset direction value) ≡ target offset direction value
target_idem offset value forward h = ground arith
target_idem offset value inverse h = ground arith

pub cleared_idem : (m : ℕ) → cleared (cleared m) ≡ cleared m
unfolding cleared
cleared_idem m = ground arith

abbrev pub loses : ℕ → Bool
loses m = bit s_isuid m || (bit s_isgid m && bit s_ixgrp m)

pub cleared-loses : (m : ℕ) → loses (cleared m) ≡ false
unfolding cleared
cleared-loses m = ground arith

pub cleared_of_keeping : (m : ℕ) → loses m ≡ false → cleared m ≡ m
unfolding cleared
cleared_of_keeping m h = ground arith

-- A forward shift gives every id of a container an id of its own in the range, and the inverse
-- shift gives the id back; a resumed shift leaves it there.
new_id-roundtrip :
    (offset value : ℕ) (resumed : Bool)
    → range ≤ offset
    → value < range
    → (new_id value offset forward resumed ≡ some (value + offset))
      × (new_id (value + offset) offset inverse resumed ≡ some value)
      × (new_id (value + offset) offset forward true ≡ some (value + offset))
      × (new_id (value + offset) offset forward false ≡ none)
unfolding new_id
new_id-roundtrip offset value resumed h k = ground arith
