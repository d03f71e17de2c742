-- ===== src/Userns/Shift/Runs.antt =====
-- src/boxmunge/userns/shift.py and engine.py: the shapes of a shift that is not refused, and of one
-- that is killed.
use boxmunge.Prelude.{
  ℕ, suc, String, ◌≡◌, refl, ◌⊎◌, inl, inr, Bool, true, false, ◌&&◌, none, [], if◌then◌else◌,
  is_some, get_or_else, Dict, lookup, insert,
}
use boxmunge.Userns.Shift.Journalled.{
  Disk, killed_shift, marked, journalled_setid, dict_eq, killed_walk,
}
use boxmunge.Userns.Shift.{
  scan_problems, Kind, Tree, Direction, Fs, unreachable, scan_setid, links_of,
}
use boxmunge.Userns.Shift.Scans.{if-nil}
use boxmunge.Userns.Shift.Walk.{merge, shift_tree, shift_walk}

if_setid :
    (a b : Bool) (d e : Disk)
    → (((if a && b then d else e).setid ≡ d.setid) × (a ≡ true))
      ⊎ ((if a && b then d else e).setid ≡ e.setid)
if_setid true true d e = inl (refl, refl)
if_setid true false d e = inr refl
if_setid false b d e = inr refl

pub scan-reachable :
    (t : Tree) (fs : Fs) (offset : ℕ) (direction : Direction) (resumed : Bool)
    → scan_problems t fs offset direction resumed ≡ []
    → t.reachable ≡ true
unfolding scan_problems
scan-reachable t fs offset direction resumed h = (if-nil t.reachable unreachable _ h).0

pub marked-cases :
    (t : Tree) (key : String) (d : Disk)
    → (((marked t key none d).setid ≡ d.setid) × (is_some (lookup key d.setid) ≡ true))
      ⊎ ((marked t key none d).setid ≡ insert key (journalled_setid t key none d) d.setid)
unfolding marked
marked-cases t key d =
    if_setid (is_some (lookup key d.setid))
      (dict_eq (journalled_setid t key none d) (get_or_else (lookup key d.setid) [])) d _

pub shift_tree-walk :
    (chown_mode : Kind → ℕ → ℕ) (t : Tree) (offset : ℕ) (direction : Direction) (setid : Dict ℕ)
    (resumed : Bool) (fs : Fs)
    → scan_problems t fs offset direction resumed ≡ []
    → shift_tree chown_mode t offset direction setid resumed fs
      ≡ shift_walk chown_mode t
          (merge (scan_setid t fs t.names) setid)
          (links_of t fs t.names [])
          offset
          direction
          resumed
          t.names
          (record { entries = 0; changed = 0; left_alone = [] })
          fs
unfolding shift_tree
shift_tree-walk chown_mode t offset direction setid resumed fs h = rw (h, shift_tree)

pub killed_shift-zero :
    (chown_mode : Kind → ℕ → ℕ) (t : Tree) (offset : ℕ) (direction : Direction) (key : String)
    (d : Disk)
    → killed_shift chown_mode 0 t offset direction key none d ≡ d
unfolding killed_shift
killed_shift-zero chown_mode t offset direction key d = refl

pub killed_shift-walk :
    (chown_mode : Kind → ℕ → ℕ) (k : ℕ) (t : Tree) (offset : ℕ) (direction : Direction)
    (key : String) (d : Disk)
    → scan_problems t d.fs offset direction (is_some (lookup key d.setid)) ≡ []
    → killed_shift chown_mode (suc k) t offset direction key none d ≡ record (marked t key none d) {
      fs =
          killed_walk chown_mode k t
            (merge (scan_setid t d.fs t.names) (journalled_setid t key none d))
            (links_of t d.fs t.names [])
            offset
            direction
            (is_some (lookup key d.setid))
            t.names
            d.fs;
    }
unfolding killed_shift
killed_shift-walk chown_mode k t offset direction key d h = rw (h, killed_shift)

-- The runs of a shift from a disk, each killed at some point.
