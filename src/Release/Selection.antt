-- ===== src/Release/Selection.antt =====
-- src/boxmunge/release_selection.py: the release that auto-update may install. A version is the
-- list of its numbers; int() is read on ASCII digits only.
pub mod Newest
pub mod Versions
pub mod Reach
use boxmunge.Prelude.{
  ℕ, String, Bool, true, false, not, ◌&&◌, ◌||◌, Option, none, some, List, [], ◌∷◌, ltb, ◌==◌,
  if◌then◌else◌, is_some, keep,
}

pub data ReleaseClass : Type 0 where
  feature breakfix security : ReleaseClass

pub data Mode : Type 0 where
  security_mode breakfix_mode latest : Mode

-- A parsed release: its version's numbers, its page and what its text says.
pub record Release : Type 0 where
  pub version : List ℕ
  pub url : String
  pub class : ReleaseClass
  pub breaking : Bool

abbrev pub auto_class : ReleaseClass → Bool
auto_class feature = false
auto_class _ = true

-- MODE_CLASSES
unfoldable pub accepts : Mode → ReleaseClass → Bool
accepts security_mode security = true
accepts security_mode _ = false
accepts breakfix_mode c = auto_class c
accepts latest _ = true

-- c + (0,) * (n - len(c)) > cur + (0,) * (n - len(cur)): two tuples compared, the shorter one
-- padded with zeros
unfoldable pub newer : List ℕ → List ℕ → Bool
newer [] [] = false
newer [] (b ∷ cur) = let rest = newer [] cur in b == 0 && rest
newer (a ∷ c) [] = let rest = newer c [] in ltb 0 a || (a == 0 && rest)
newer (a ∷ c) (b ∷ cur) = let rest = newer c cur in ltb b a || (a == b && rest)

-- `_newest`: the first of the newest releases that are kept
unfoldable pub newest_from : Option Release → (Release → Bool) → List Release → Option Release
unfolding newer
newest_from best kept [] = best
newest_from none kept (r ∷ rs) = newest_from (if kept r then some r else none) kept rs
newest_from (some best) kept (r ∷ rs) =
    newest_from (if kept r && newer r.version best.version then some r else some best) kept rs

abbrev pub newest : (Release → Bool) → List Release → Option Release
newest = newest_from none

pub data BlockReason : Type 0 where
  major : ℕ → BlockReason
  breaking_release : List ℕ → BlockReason

abbrev pub on_path : List ℕ → List ℕ → Release → Bool
on_path current target r = r.breaking && (newer r.version current && not (newer r.version target))

-- a < b, between tuples of numbers: a proper prefix is the smaller
unfoldable pub tuple_lt : List ℕ → List ℕ → Bool
tuple_lt [] [] = false
tuple_lt [] (b ∷ t) = true
tuple_lt (a ∷ s) [] = false
tuple_lt (a ∷ s) (b ∷ t) = let rest = tuple_lt s t in ltb a b || (a == b && rest)

-- min(on_path, key=...): the first of the smallest
unfoldable pub oldest_from : Release → List Release → Release
unfolding tuple_lt
oldest_from best [] = best
oldest_from best (r ∷ rs) = oldest_from (if tuple_lt r.version best.version then r else best) rs

abbrev pub path_reason : List Release → Option BlockReason
path_reason [] = none
path_reason (r ∷ rs) = some (breaking_release (oldest_from r rs).version)

abbrev pub head : List ℕ → ℕ
head [] = 0
head (n ∷ v) = n

-- A version has at least one number, since "".split(".") is one text, which int() refuses.
unfoldable pub block_reason : List Release → List ℕ → List ℕ → Option BlockReason
unfolding oldest_from newer
block_reason releases current target =
    if head target == head current
    then path_reason (keep (on_path current target) releases)
    else some (major (head target))

abbrev pub is_latest : Mode → Bool
is_latest latest = true
is_latest _ = false

unfoldable pub may_install : List Release → List ℕ → Mode → Release → Bool
unfolding block_reason accepts newer
may_install releases current mode r =
    accepts mode r.class
    && (newer r.version current
        && (is_latest mode || not (is_some (block_reason releases current r.version))))

unfoldable pub select : List Release → List ℕ → Mode → Option Release
unfolding newest_from may_install
select releases current mode = newest (may_install releases current mode) releases

abbrev pub is_update : List ℕ → Release → Bool
is_update current r = auto_class r.class && newer r.version current

abbrev pub blocked_by : Release → Option BlockReason → Option (Release × BlockReason)
blocked_by r none = none
blocked_by r (some reason) = some (r, reason)

unfoldable pub find_blocked : List Release → List ℕ → Option (Release × BlockReason)
unfolding newest_from block_reason
find_blocked releases current = elim (newest (is_update current) releases) [
  | none ↦ none
  | some r ↦ blocked_by r (block_reason releases current r.version)
]
