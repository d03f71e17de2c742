-- ===== src/Userns/Offset.antt =====
-- src/boxmunge/userns/offset.py: the identity that the daemon is remapped to, its record and the
-- check of every source of it. A file is absent, unreadable or its lines, as `splitlines` gives
-- them; ids are ASCII digits.
pub mod Problems
pub mod Blocks
pub mod Allocate
pub mod Sources
pub mod Agreement
use boxmunge.Prelude.{
  ℕ, zero, suc, ◌+◌, ◌-◌, ◌*◌, ◌/◌, ◌%◌, String, Bool, true, false, not, ◌&&◌, ◌||◌, Option, none,
  some, List, [], ◌∷◌, ◌++◌, ltb, leb, ◌==◌, if◌then◌else◌, any, keep, str_eq, strip,
}
use Prim.Native.Char.{Char, code}

pub record SubRange : Type 0 where
  pub owner : String
  pub start : ℕ
  pub count : ℕ

-- SubRange.overlaps
unfoldable pub overlaps : SubRange → ℕ → ℕ → Bool
overlaps r start count = ltb r.start (start + count) && ltb start (r.start + r.count)

-- What remap_offset finds to disagree.
pub data RemapProblem : Type 0 where
  no_record : RemapProblem
  not_configured : Option String → RemapProblem
  not_remapped : RemapProblem
  wrong_driver : RemapProblem
  wrong_subuid : RemapProblem
  wrong_subgid : RemapProblem
  wrong_root : RemapProblem

pub data RemapError : Type 0 where
  cannot_read : RemapError
  bad_entry : ℕ → RemapError  -- the line's number
  other_ranges : RemapError
  no_free_block : RemapError
  bad_record : RemapError
  bad_daemon_json : RemapError
  already_recorded : ℕ → RemapError
  daemon_silent : RemapError
  inconsistent : List RemapProblem → RemapError

pub data Result (A : Type 0) : Type 0 where
  ok : A → Result A
  err : RemapError → Result A

infixl 5 ◌>>=◌
abbrev pub ◌>>=◌ : {A B : Type 0} → Result A → (A → Result B) → Result B
ok a >>= f = f a
err e >>= f = err e

pub data TextFile : Type 0 where
  absent : TextFile
  locked : TextFile
  lines : List String → TextFile

abbrev is_digit : Char → Bool
is_digit c = leb b'0' (code c) && leb (code c) b'9'

unfoldable pub all_digits : String → Bool
all_digits String.[] = true
all_digits (String.◌∷◌ c s) = is_digit c && all_digits s

-- _ID.fullmatch(s)
abbrev pub is_id : String → Bool
is_id String.[] = false
is_id s = all_digits s

unfoldable pub int_from : ℕ → String → ℕ
int_from n String.[] = n
int_from n (String.◌∷◌ c s) = int_from (n * 10 + (code c - b'0')) s

-- int(s), for digits
abbrev pub int_of : String → ℕ
int_of = int_from 0

abbrev on_head : Char → List String → List String
on_head c [] = String.◌∷◌ c String.[] ∷ []
on_head c (s ∷ parts) = String.◌∷◌ c s ∷ parts

-- s.split(":")
unfoldable pub split_colon : String → List String
split_colon String.[] = "" ∷ []
split_colon (String.◌∷◌ c s) =
    let rest = split_colon s in if code c == b':' then "" ∷ rest else on_head c rest

abbrev starts_hash : String → Bool
starts_hash String.[] = false
starts_hash (String.◌∷◌ c s) = code c == b'#'

abbrev entry_of : ℕ → List String → Result SubRange
entry_of n (owner ∷ start ∷ count ∷ []) =
    if is_id start && is_id count
    then ok (record { owner = owner; start = int_of start; count = int_of count })
    else err (bad_entry n)
entry_of n _ = err (bad_entry n)

-- the loop of read_subids, from line n
unfoldable pub parse_lines : ℕ → List String → Result (List SubRange)
unfolding strip split_colon all_digits int_from
parse_lines n [] = ok []
parse_lines n (line ∷ rest) =
    let parsed = parse_lines (n + 1) rest in
    if str_eq (strip line) "" || starts_hash (strip line)
    then parsed
    else do r ← entry_of n (split_colon (strip line)); rs ← parsed; ok (r ∷ rs)

unfoldable pub read_subids : TextFile → Result (List SubRange)
unfolding parse_lines
read_subids absent = ok []
read_subids locked = err cannot_read
read_subids (lines ls) = parse_lines 1 ls

abbrev pub remap_name : String
remap_name = "boxmunge-remap"

abbrev uid_of : List String → Option String
uid_of (name ∷ password ∷ uid ∷ rest) =
    if str_eq name remap_name && is_id uid then some uid else none
uid_of _ = none

unfoldable pub uid_in : List String → Option String
unfolding split_colon all_digits
uid_in [] = none
uid_in (line ∷ rest) =
    let later = uid_in rest in
    elim (uid_of (split_colon line)) [ none ↦ later | some uid ↦ some uid ]

-- `_remap_uid`
unfoldable pub remap_uid : TextFile → Result (Option String)
unfolding uid_in
remap_uid absent = ok none
remap_uid locked = err cannot_read
remap_uid (lines ls) = ok (uid_in ls)

-- /etc: subuid, subgid and passwd
pub record Etc : Type 0 where
  pub subuid : TextFile
  pub subgid : TextFile
  pub passwd : TextFile

abbrev pub is_owner : Option String → SubRange → Bool
is_owner none r = str_eq r.owner remap_name
is_owner (some uid) r = str_eq r.owner remap_name || str_eq r.owner uid

unfoldable pub remap_ranges : Etc → Result (List SubRange × List SubRange)
unfolding remap_uid read_subids
remap_ranges etc = do
  uid ← remap_uid etc.passwd
  uids ← read_subids etc.subuid
  gids ← read_subids etc.subgid
  ok (keep (is_owner uid) uids, keep (is_owner uid) gids)

abbrev pub range : ℕ
range = 65536

abbrev pub floor : ℕ
floor = 1000000

abbrev pub max_id : ℕ
max_id = 4294967295

-- no range of the files and no host id in start..start+count-1
unfoldable pub is_free : List SubRange → List ℕ → ℕ → Bool
unfolding overlaps
is_free taken host_ids start =
    not (any (λ r. overlaps r start range) taken)
    && not (any (λ i. leb start i && ltb i (start + range)) host_ids)

-- the while loop; the fuel bounds the blocks that are left
unfoldable pub search_block : ℕ → List SubRange → List ℕ → ℕ → Option ℕ
unfolding is_free
search_block zero taken host_ids start = none
search_block (suc fuel) taken host_ids start =
    let rest = search_block fuel taken host_ids (start + range) in
    if leb (start + range - 1) max_id
    then (if is_free taken host_ids start then some start else rest)
    else none

-- -(-_FLOOR // RANGE) * RANGE
abbrev pub first_start : ℕ
first_start = (floor + range - 1) / range * range

abbrev pub blocks : ℕ
blocks = 65536

abbrev pub own_offset : List SubRange → List SubRange → Result ℕ
own_offset (u ∷ []) (g ∷ []) =
    if u.start == g.start && (u.count == g.count && (g.count == range && u.start % range == 0))
    then ok u.start
    else err other_ranges
own_offset _ _ = err other_ranges

abbrev pub found_block : Option ℕ → Result ℕ
found_block none = err no_free_block
found_block (some s) = ok s

abbrev pub allocate_from : List ℕ → List SubRange → List SubRange → List SubRange → Result ℕ
allocate_from host_ids taken [] [] = found_block (search_block blocks taken host_ids first_start)
allocate_from host_ids taken uids gids = own_offset uids gids

unfoldable pub allocate_offset : Etc → List ℕ → Result ℕ
unfolding remap_ranges search_block
allocate_offset etc host_ids = do
  (uids, gids) ← remap_ranges etc
  subuid ← read_subids etc.subuid
  subgid ← read_subids etc.subgid
  allocate_from host_ids (subuid ++ subgid) uids gids
