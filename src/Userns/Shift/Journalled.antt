-- ===== src/Userns/Shift/Journalled.antt =====
-- src/boxmunge/userns/engine.py, `shift_journalled`: the setid list reaches the journal before the
-- tree is touched. `Disk` is what a kill leaves: the inodes, and the journal's setid lists.
use boxmunge.Prelude.{
  ℕ, zero, suc, String, Bool, true, false, not, ◌&&◌, Option, none, some, List, [], ◌∷◌, ◌==◌,
  if◌then◌else◌, is_some, get_or_else, Dict, lookup, insert,
}
use boxmunge.Userns.Shift.{
  Kind, Tree, Fs, Direction, scan_setid, scan_problems, links_of, is_linked, has_links, put,
}
use boxmunge.Userns.Shift.Walk.{Outcome, merge, own, shift_tree, visit}

pub record Disk : Type 0 where
  pub fs : Fs
  pub setid : Dict (Dict ℕ)

-- scan_tree(...).setid: nothing where the root cannot be reached
abbrev pub scanned : Tree → Fs → Dict ℕ
scanned t fs = if t.reachable then scan_setid t fs t.names else []

-- a == b, between dicts
unfoldable pub within : Dict ℕ → Dict ℕ → Bool
within [] b = true
within ((k, v) ∷ a) b = elim (lookup k b) [ none ↦ false | some w ↦ v == w && within a b ]

abbrev pub dict_eq : Dict ℕ → Dict ℕ → Bool
dict_eq a b = within a b && within b a

-- the list that the shift works from
unfoldable pub journalled_setid : Tree → String → Option String → Disk → Dict ℕ
journalled_setid t key seed d =
    merge (merge (get_or_else (lookup (get_or_else seed "") d.setid) []) (scanned t d.fs))
      (get_or_else (lookup key d.setid) [])

-- the disk once the list is journalled
unfoldable pub marked : Tree → String → Option String → Disk → Disk
unfolding journalled_setid within
marked t key seed d =
    let setid = journalled_setid t key seed d in
    if is_some (lookup key d.setid) && dict_eq setid (get_or_else (lookup key d.setid) [])
    then d
    else record d { setid = insert key setid d.setid }

module _ (chown_mode : Kind → ℕ → ℕ) where
  unfoldable pub shift_journalled :
      Tree → ℕ → Direction → String → Option String → Disk → Outcome × Disk
  unfolding marked
  shift_journalled t offset direction key seed d =
      let (outcome, fs) =
        shift_tree chown_mode t offset direction (journalled_setid t key seed d)
          (is_some (lookup key d.setid)) d.fs in
      (outcome, record (marked t key seed d) { fs = fs })

  -- The walk, killed after a number of effects: a visit makes two, the chown and the chmod.
  unfoldable pub killed_walk :
      ℕ → Tree → Dict ℕ → List (ℕ × String × ℕ × ℕ) → ℕ → Direction → Bool → List String → Fs → Fs
  killed_walk zero t modes linked offset direction resumed names fs = fs
  killed_walk (suc k) t modes linked offset direction resumed [] fs = fs
  killed_walk (suc zero) t modes linked offset direction resumed (rel ∷ names) fs =
      let i = t.inode_of rel in
      if has_links (fs i) && not (is_linked i linked)
      then fs
      else put fs i (own chown_mode offset direction resumed (fs i))
  killed_walk (suc (suc k)) t modes linked offset direction resumed (rel ∷ names) fs =
      let i = t.inode_of rel in
      let rest =
        killed_walk k t modes linked offset direction resumed names
          (put fs i (visit chown_mode (lookup rel modes) offset direction resumed (fs i))) in
      if has_links (fs i) && not (is_linked i linked) then fs else rest

  -- The disk after a run that is killed: before the list is journalled, or in the walk.
  unfoldable pub killed_shift : ℕ → Tree → ℕ → Direction → String → Option String → Disk → Disk
  unfolding killed_walk
  killed_shift zero t offset direction key seed d = d
  killed_shift (suc k) t offset direction key seed d =
      elim (scan_problems t d.fs offset direction (is_some (lookup key d.setid))) [
        | [] ↦ record (marked t key seed d) {
          fs =
              killed_walk k t (merge (scan_setid t d.fs t.names) (journalled_setid t key seed d))
                (links_of t d.fs t.names []) offset direction (is_some (lookup key d.setid)) t.names
                d.fs;
        }
        | p ∷ ps ↦ marked t key seed d
      ]
