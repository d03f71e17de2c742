-- ===== src/Userns/Shift.antt =====
-- src/boxmunge/userns/shift.py and walk.py: the owners of a data tree moved into, or out of, the
-- remap range; here the ids, the modes and the scan. A tree is its names in the order of the walk,
-- each with the inode that it names: hard links share one.
pub mod Walk
pub mod Runs
pub mod Modes
pub mod Stages
pub mod Scans
pub mod Restored
pub mod Journalled
pub mod Kills
pub mod Links
pub mod Resumes
pub mod Roundtrip
use boxmunge.Prelude.{
  ℕ, ◌+◌, ◌-◌, ◌*◌, ◌/◌, ◌%◌, String, Bool, true, false, not, ◌&&◌, ◌||◌, Option, none, some, List,
  [], ◌∷◌, ◌++◌, ltb, leb, ◌==◌, if◌then◌else◌, is_some, length, Dict, elem,
}

pub data Kind : Type 0 where
  directory regular fifo symlink socket char_device block_device : Kind

-- os.stat_result, the extended attributes and the two flags of an entry
pub record Inode : Type 0 where
  pub kind : Kind
  pub uid : ℕ
  pub gid : ℕ
  pub mode : ℕ  -- S_IMODE
  pub dev : ℕ
  pub nlink : ℕ
  pub xattrs : List String
  pub immutable : Bool
  pub append_only : Bool

pub data Direction : Type 0 where
  forward inverse : Direction

abbrev pub range : ℕ
range = 65536

abbrev pub in_range : ℕ → ℕ → Bool
in_range offset value = leb offset value && ltb value (offset + range)

unfoldable pub new_id : ℕ → ℕ → Direction → Bool → Option ℕ
new_id value offset forward resumed =
    if ltb value range
    then some (value + offset)
    else if in_range offset value && resumed
    then some value
    else none
new_id value offset inverse resumed =
    if in_range offset value
    then some (value - offset)
    else if ltb value range
    then some value
    else none

-- The bits of a mode: S_ISUID, S_ISGID and S_IXGRP.
abbrev pub bit : ℕ → ℕ → Bool
bit mask mode = mode / mask % 2 == 1

abbrev pub without : ℕ → ℕ → ℕ
without mask mode = mode - mask * (mode / mask % 2)

abbrev pub s_isuid : ℕ
s_isuid = 0o4000

abbrev pub s_isgid : ℕ
s_isgid = 0o2000

abbrev pub s_ixgrp : ℕ
s_ixgrp = 0o10

-- `_cleared`
unfoldable pub cleared : ℕ → ℕ
cleared mode =
    let rest = without s_isuid mode in if bit s_ixgrp rest then without s_isgid rest else rest

abbrev pub is_dir : Kind → Bool
is_dir directory = true
is_dir _ = false

abbrev pub is_regular : Kind → Bool
is_regular regular = true
is_regular _ = false

abbrev pub is_device : Kind → Bool
is_device char_device = true
is_device block_device = true
is_device _ = false

abbrev is_dir_or_link : Kind → Bool
is_dir_or_link directory = true
is_dir_or_link symlink = true
is_dir_or_link _ = false

-- `_open_entry`: which entries the walk opens
abbrev pub opened : Kind → Bool
opened directory = true
opened regular = true
opened fifo = true
opened _ = false

unfoldable pub loses_mode : Inode → Bool
loses_mode st =
    if is_dir_or_link st.kind
    then false
    else bit s_isuid st.mode || (bit s_isgid st.mode && bit s_ixgrp st.mode)

pub data Problem : Type 0 where
  unreachable : Problem
  mount_point : String → Problem
  device_node : String → Problem
  other_filesystem : String → Problem
  unmapped_uid : String → ℕ → Problem
  unmapped_gid : String → ℕ → Problem
  refused_xattr : String → String → Problem
  immutable_entry : String → Problem
  append_only_entry : String → Problem
  linked_outside : String → ℕ → ℕ → Problem
  too_many_setid : ℕ → Problem
  became_linked : String → Problem

abbrev pub refused_xattrs : List String
refused_xattrs = "system.posix_acl_access" ∷ "system.posix_acl_default" ∷ "security.capability" ∷ []

abbrev pub when : Bool → Problem → List Problem
when true p = p ∷ []
when false p = []

unfoldable pub xattr_problems : String → List String → List String → List Problem
xattr_problems rel names [] = []
xattr_problems rel names (n ∷ refused) =
    when (elem n names) (refused_xattr rel n) ++ xattr_problems rel names refused

-- what only an opened entry shows
unfoldable pub opened_problems : String → Inode → List Problem
unfolding xattr_problems
opened_problems rel st =
    if opened st.kind
    then xattr_problems rel st.xattrs refused_xattrs
      ++ (when st.immutable (immutable_entry rel) ++ when st.append_only (append_only_entry rel))
    else []

unfoldable pub id_problems : String → Inode → ℕ → Direction → Bool → List Problem
unfolding new_id
id_problems rel st offset forward resumed =
    when (not (is_some (new_id st.uid offset forward resumed))) (unmapped_uid rel st.uid)
    ++ when (not (is_some (new_id st.gid offset forward resumed))) (unmapped_gid rel st.gid)
id_problems rel st offset inverse resumed = []

-- `_problems`
unfoldable pub entry_problems : String → Inode → ℕ → Direction → ℕ → Bool → List Problem
unfolding id_problems opened_problems
entry_problems rel st offset direction root_dev resumed =
    when (is_device st.kind) (device_node rel)
    ++ (when (not (st.dev == root_dev)) (other_filesystem rel)
        ++ (id_problems rel st offset direction resumed ++ opened_problems rel st))

-- The names that a walk meets, the root's "." first, and the inode of each.
pub record Tree : Type 0 where
  pub reachable : Bool
  pub mounts : List String
  pub root_inode : ℕ
  pub names : List String
  pub inode_of : String → ℕ

abbrev pub Fs : Type 0
Fs = ℕ → Inode

unfoldable pub put : Fs → ℕ → Inode → Fs
put fs i st j = if j == i then st else fs j

unfoldable pub walk_problems : Tree → Fs → ℕ → Direction → ℕ → Bool → List String → List Problem
walk_problems t fs offset direction root_dev resumed [] = []
walk_problems t fs offset direction root_dev resumed (rel ∷ names) =
    entry_problems rel (fs (t.inode_of rel)) offset direction root_dev resumed
    ++ walk_problems t fs offset direction root_dev resumed names

-- scan.setid
unfoldable pub scan_setid : Tree → Fs → List String → Dict ℕ
unfolding loses_mode
scan_setid t fs [] = []
scan_setid t fs (rel ∷ names) =
    let rest = scan_setid t fs names in
    if loses_mode (fs (t.inode_of rel)) then (rel, (fs (t.inode_of rel)).mode) ∷ rest else rest

abbrev pub has_links : Inode → Bool
has_links st = not (is_dir st.kind) && ltb 1 st.nlink

-- `links`: of each inode with several names, its first name, its count and the names met
unfoldable pub met : ℕ → String → ℕ → List (ℕ × String × ℕ × ℕ) → List (ℕ × String × ℕ × ℕ)
met i rel nlink [] = (i, rel, nlink, 1) ∷ []
met i rel nlink ((j, first, n, seen) ∷ links) =
    if j == i then (j, first, n, seen + 1) ∷ links else (j, first, n, seen) ∷ met i rel nlink links

unfoldable pub links_of :
    Tree → Fs → List String → List (ℕ × String × ℕ × ℕ) → List (ℕ × String × ℕ × ℕ)
unfolding met
links_of t fs [] links = links
links_of t fs (rel ∷ names) links = links_of t fs names (
    if has_links (fs (t.inode_of rel))
    then met (t.inode_of rel) rel (fs (t.inode_of rel)).nlink links
    else links)

unfoldable pub link_problems : List (ℕ × String × ℕ × ℕ) → List Problem
link_problems [] = []
link_problems ((i, first, nlink, seen) ∷ links) =
    when (ltb seen nlink) (linked_outside first nlink seen) ++ link_problems links

-- scan.linked
unfoldable pub is_linked : ℕ → List (ℕ × String × ℕ × ℕ) → Bool
is_linked i [] = false
is_linked i ((j, first, nlink, seen) ∷ links) = j == i || is_linked i links

unfoldable pub mount_problems : List String → List Problem
mount_problems [] = []
mount_problems (p ∷ points) = mount_point p ∷ mount_problems points

abbrev pub max_setid : ℕ
max_setid = 1000

-- the problems of scan_tree
unfoldable pub scan_problems : Tree → Fs → ℕ → Direction → Bool → List Problem
unfolding walk_problems scan_setid links_of link_problems mount_problems
scan_problems t fs offset direction resumed =
    if not t.reachable
    then unreachable ∷ []
    else mount_problems t.mounts
      ++ (walk_problems t fs offset direction (fs t.root_inode).dev resumed t.names
          ++ (link_problems (links_of t fs t.names [])
              ++ when (ltb max_setid (length (scan_setid t fs t.names)))
                  (too_many_setid (length (scan_setid t fs t.names)))))
