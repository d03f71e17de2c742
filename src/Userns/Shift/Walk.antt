-- ===== src/Userns/Shift/Walk.antt =====
-- src/boxmunge/userns/shift.py, shift_tree: the walk that shifts every entry. What the kernel
-- leaves of a mode on a chown is a parameter.
use boxmunge.Prelude.{
  ℕ, ◌+◌, String, Bool, not, ◌&&◌, ◌||◌, Option, none, some, List, [], ◌∷◌, ◌++◌, ◌==◌,
  if◌then◌else◌, is_some, get_or_else, Dict, lookup, insert,
}
use boxmunge.Userns.Shift.{
  Kind, Problem, Direction, cleared, new_id, put, scan_problems, Inode, Tree, is_linked, Fs, opened,
  has_links, is_regular, scan_setid, became_linked, links_of,
}

-- {**a, **b}
unfoldable pub merge : Dict ℕ → Dict ℕ → Dict ℕ
merge a [] = a
merge a ((k, v) ∷ b) = insert k v (merge a b)

pub record ShiftReport : Type 0 where
  pub entries : ℕ
  pub changed : ℕ
  pub left_alone : List String

pub data Outcome : Type 0 where
  done : ShiftReport → Outcome
  refused : List Problem → Outcome

-- What the kernel leaves of a mode when an entry of a kind is chowned.
module _ (chown_mode : Kind → ℕ → ℕ) where
  -- the visit up to the chown
  unfoldable pub own : ℕ → Direction → Bool → Inode → Inode
  unfolding new_id
  own offset direction resumed st =
      let uid' = get_or_else (new_id st.uid offset direction resumed) st.uid in
      let gid' = get_or_else (new_id st.gid offset direction resumed) st.gid in
      if uid' == st.uid && gid' == st.gid
      then st
      else record st { uid = uid'; gid = gid'; mode = chown_mode st.kind st.mode }

  -- the end of the visit: `st` is the entry as it was opened, `now` as the chown left it
  unfoldable pub remode : Option ℕ → Inode → Inode → Inode
  unfolding cleared
  remode none st now = now
  remode (some m) st now =
      if opened st.kind && is_regular st.kind && (st.mode == m || st.mode == cleared m)
      then record now { mode = m }
      else now

  unfoldable pub visit : Option ℕ → ℕ → Direction → Bool → Inode → Inode
  unfolding own remode
  visit mode offset direction resumed st = remode mode st (own offset direction resumed st)

  unfoldable pub report_of : String → ℕ → Direction → Bool → Inode → ShiftReport → ShiftReport
  unfolding new_id
  report_of rel offset direction resumed st r =
      let new_uid = new_id st.uid offset direction resumed in
      let new_gid = new_id st.gid offset direction resumed in
      let alone = not (is_some new_uid && is_some new_gid) in
      let same = get_or_else new_uid st.uid == st.uid && get_or_else new_gid st.gid == st.gid in
      record {
        entries = r.entries + 1;
        changed = if same then r.changed else r.changed + 1;
        left_alone = if alone then r.left_alone ++ rel ∷ [] else r.left_alone;
      }

  -- the walk of shift_tree
  unfoldable pub shift_walk :
      Tree
      → Dict ℕ
      → List (ℕ × String × ℕ × ℕ)
      → ℕ
      → Direction
      → Bool
      → List String
      → ShiftReport
      → Fs
      → Outcome × Fs
  unfolding visit report_of put is_linked
  shift_walk t modes linked offset direction resumed [] r fs = (done r, fs)
  shift_walk t modes linked offset direction resumed (rel ∷ names) r fs =
      let i = t.inode_of rel in
      let st = fs i in
      let rest =
        shift_walk t modes linked offset direction resumed names
          (report_of rel offset direction resumed st r)
          (put fs i (visit (lookup rel modes) offset direction resumed st)) in
      if has_links st && not (is_linked i linked)
      then (refused (became_linked rel ∷ []), fs)
      else rest

  unfoldable pub shift_tree : Tree → ℕ → Direction → Dict ℕ → Bool → Fs → Outcome × Fs
  unfolding shift_walk scan_problems merge
  shift_tree t offset direction setid resumed fs =
      elim (scan_problems t fs offset direction resumed) [
        | [] ↦
            shift_walk t (merge (scan_setid t fs t.names) setid) (links_of t fs t.names []) offset
              direction resumed t.names (record { entries = 0; changed = 0; left_alone = [] }) fs
        | p ∷ ps ↦ (refused (p ∷ ps), fs)
      ]
