-- ===== src/Tests/Remap.antt =====
-- The offset of a small host, its journal and one of its volumes.
use boxmunge.Prelude.{
  ℕ, zero, suc, ◌+◌, ◌-◌, ◌*◌, ◌/◌, ◌%◌, ◌^◌, ◌≤◌, ◌<◌, min, max, String, ◌≡◌, refl, sym, ap, ◌∙◌,
  subst, ◌≢◌, ◌↔◌, ◌⊎◌, inl, inr, Bool, true, false, not, ◌&&◌, ◌||◌, Option, none, some, List, [],
  ◌∷◌, ◌++◌, map, Perm, arith, eq_iff, eq_refl, ltb, leb, ◌==◌, if◌then◌else◌, Bool-cases,
  Option-cases, is_some, get_or_else, length, any, all, keep, All, Some, here, there, Dict, lookup,
  insert, keys, values, str_eq, str_le, elem, subset, sorted, insert_sorted, IsSorted, Value, null,
  bool, int, float, str, day, instant, arr, obj, Date, Instant, date_lt, fields_of, pos, items_of,
}
use boxmunge.Userns.Offset.{
  Etc, SubRange, lines, ok, err, read_subids, remap_ranges, allocate_offset, no_free_block, is_free,
  range, floor,
}
use boxmunge.Userns.Offset.Allocate.{IsFreeBlock, allocate_offset-free, allocate_offset-full}
use boxmunge.Userns.Offset.Sources.{Host, remap_offset, document, daemon_value, append}
use boxmunge.Userns.Offset.Agreement.{remap_offset_iff, NeverRemapped, AllAgree}
use boxmunge.Userns.Journal.{Journal, rollback, rb_saved, index_in}
use boxmunge.Userns.Journal.Codec.{validate-to_doc}
use boxmunge.Userns.Volumes.{Volume, Entry, move, is_dir, data_of, absent, directory}
use boxmunge.Userns.Volumes.{move-data}
use boxmunge.Userns.Journal.Document.{validate, to_doc}
use boxmunge.Userns.Journal
use boxmunge.Userns.Volumes

-- alice holds the first block above the floor
abbrev alice : SubRange
alice = record { owner = "alice"; start = 1048576; count = 65536 }

abbrev small_etc : Etc
small_etc = record {
  subuid = lines ("# ranges" ∷ "alice:1048576:65536" ∷ []);
  subgid = lines [];
  passwd = lines ("root:x:0:0:root:/root:/bin/bash" ∷ []);
}

small_subuid : read_subids small_etc.subuid ≡ ok (alice ∷ [])
unfolding read_subids boxmunge.Prelude.is_space
small_subuid = refl

small_subgid : read_subids small_etc.subgid ≡ ok []
unfolding read_subids boxmunge.Prelude.is_space
small_subgid = refl

small_ranges : remap_ranges small_etc ≡ ok ([], [])
unfolding remap_ranges boxmunge.Prelude.is_space
small_ranges = refl

small_offset : allocate_offset small_etc (0 ∷ 1000 ∷ []) ≡ ok 1114112
unfolding allocate_offset boxmunge.Prelude.is_space
small_offset = refl

allocate_offset-free_example :
    IsFreeBlock ((alice ∷ []) ++ []) (0 ∷ 1000 ∷ []) 1114112
    × ((t : ℕ)
        → t % range ≡ 0
        → floor ≤ t
        → t < 1114112
        → is_free ((alice ∷ []) ++ []) (0 ∷ 1000 ∷ []) t ≡ false)
allocate_offset-free_example =
    allocate_offset-free small_etc (0 ∷ 1000 ∷ []) (alice ∷ []) [] small_subuid small_subgid 1114112
      small_ranges small_offset

-- every id is taken
abbrev everyone : SubRange
everyone = record { owner = "everyone"; start = 0; count = 4294967296 }

abbrev full_etc : Etc
full_etc = record {
  subuid = lines ("everyone:0:4294967296" ∷ []);
  subgid = lines [];
  passwd = lines [];
}

full_subuid : read_subids full_etc.subuid ≡ ok (everyone ∷ [])
unfolding read_subids boxmunge.Prelude.is_space
full_subuid = refl

full_subgid : read_subids full_etc.subgid ≡ ok []
unfolding read_subids boxmunge.Prelude.is_space
full_subgid = refl

full_ranges : remap_ranges full_etc ≡ ok ([], [])
unfolding remap_ranges boxmunge.Prelude.is_space
full_ranges = refl

full_offset : allocate_offset full_etc [] ≡ err no_free_block
unfolding allocate_offset boxmunge.Prelude.is_space
full_offset = refl

allocate_offset-full_example : is_free ((everyone ∷ []) ++ []) [] 1048576 ≡ false
allocate_offset-full_example =
    allocate_offset-full full_etc [] (everyone ∷ []) [] full_subuid full_subgid full_ranges
      full_offset 1048576 (omega arith) (omega arith) (omega arith)

abbrev digit_in : ℕ → List String → String
digit_in n [] = ""
digit_in zero (s ∷ ss) = s
digit_in (suc n) (s ∷ ss) = digit_in n ss

unfoldable digits : ℕ → ℕ → String → String
digits zero n written = written
digits (suc fuel) n written =
    let more =
      append (digit_in (n % 10) ("0" ∷ "1" ∷ "2" ∷ "3" ∷ "4" ∷ "5" ∷ "6" ∷ "7" ∷ "8" ∷ "9" ∷ []))
        written in
    let rest = digits fuel (n / 10) more in if n / 10 == 0 then more else rest

-- str(n), up to ten digits
abbrev decimal : ℕ → String
decimal n = digits 10 n ""

abbrev remapped_host : Host
remapped_host = record {
  config = document (
      obj (
        fields_of (
          (
            "userns",
            obj (fields_of (("name", str "boxmunge-remap") ∷ ("offset", int (pos 1048576)) ∷ [])),
          )
          ∷ [])));
  daemon_json = document (obj (fields_of (("userns-remap", str daemon_value) ∷ [])));
  info = some (record {
    security_options = "name=seccomp" ∷ "name=userns" ∷ [];
    driver = some "overlay2";
    docker_root_dir = "/var/lib/docker/1048576.1048576";
  });
  etc = record {
    subuid = lines ("boxmunge-remap:1048576:65536" ∷ []);
    subgid = lines ("boxmunge-remap:1048576:65536" ∷ []);
    passwd = lines [];
  };
}

abbrev remapped_at : ℕ
remapped_at = 1048576

remap_offset_iff_example : (remap_offset decimal remapped_host ≡ ok remapped_at) ↔ (
    ((remapped_at ≡ 0) × NeverRemapped decimal remapped_host)
    ⊎ AllAgree decimal remapped_host remapped_at)
remap_offset_iff_example = remap_offset_iff decimal remapped_host remapped_at

remapped_host_offset : remap_offset decimal remapped_host ≡ ok 1048576
unfolding remap_offset digits boxmunge.Prelude.is_space remap_ranges
remapped_host_offset = refl

abbrev saved_journal : Journal
saved_journal = record {
  direction = rollback;
  phase = rb_saved;
  offset = 1048576;
  daemon_json = some "{}";
  daemon_json_owner = some (int (pos 420) ∷ int (pos 0) ∷ int (pos 0) ∷ []);
  prior_store = [];
  inventory = ("volumes", arr (items_of [])) ∷ [];
  rollback_inventory = [];
  items = ("volume:data", str "done") ∷ [];
  timers = ("auto-update", bool true) ∷ [];
  image_map = [];
  setid = [];
  caddyfile_mode = none;
  applied_at = none;
  failed = some "disk full";
  fresh_install = false;
}

saved_journal_own : is_some (index_in rollback rb_saved) ≡ true
unfolding index_in
saved_journal_own = refl

validate-to_doc_example : validate (to_doc saved_journal) ≡ Journal.ok saved_journal
validate-to_doc_example =
    validate-to_doc saved_journal (omega arith) (omega arith) saved_journal_own

abbrev volume_before : Volume
volume_before = record { src = directory ("db" ∷ []); dst = directory []; dst_parent = true }

abbrev volume_after : Volume
volume_after = record { src = absent; dst = directory ("db" ∷ []); dst_parent = true }

volume_moved : move volume_before ≡ Volumes.ok volume_after
unfolding move
volume_moved = refl

move-data_example :
    (volume_after.src ≡ absent)
    × (is_dir volume_after.dst ≡ true)
    × (volume_after.dst ≡ data_of volume_before)
    × (move volume_after ≡ Volumes.ok volume_after)
move-data_example = move-data volume_before volume_after volume_moved
