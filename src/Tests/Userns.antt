-- ===== src/Tests/Userns.antt =====
-- The shift of a small tree: a directory, and a setuid program with two names.
use boxmunge.Prelude.{
  ℕ, ◌+◌, String, ◌≡◌, refl, ◌≢◌, ◌⊎◌, inl, inr, true, false, none, [], ◌∷◌, arith, ◌==◌,
  if◌then◌else◌, lookup, insert, str_eq, elem,
}
use boxmunge.Userns.Shift.{
  Fs, Inode, Kind, Tree, scan_problems, cleared, directory, forward, regular, put, entry_problems,
  is_regular, inverse, is_linked,
}
use boxmunge.Userns.Shift.Stages.{Clears}
use boxmunge.Userns.Shift.Journalled.{Disk, killed_shift, shift_journalled}
use boxmunge.Userns.Shift.Resumes.{Attempts, Fresh, again, first}
use Shift.{fifo, symlink, socket, char_device, block_device}
use boxmunge.Userns.Shift.Roundtrip.{shift_forward, shift_back}
use boxmunge.Userns.Shift.Walk.{done, ShiftReport, own, shift_tree}
use boxmunge.Userns.Shift

-- Linux: a directory keeps its mode.
abbrev linux_chown : Kind → ℕ → ℕ
linux_chown directory m = m
linux_chown _ m = cleared m

linux_chown_cases : (k : Kind) (m : ℕ) → (linux_chown k m ≡ m) ⊎ (linux_chown k m ≡ cleared m)
linux_chown_cases directory m = inl refl
linux_chown_cases regular m = inr refl
linux_chown_cases fifo m = inr refl
linux_chown_cases symlink m = inr refl
linux_chown_cases socket m = inr refl
linux_chown_cases char_device m = inr refl
linux_chown_cases block_device m = inr refl

linux_chown-Clears : Clears linux_chown
linux_chown-Clears = record { keeps_or_clears = linux_chown_cases }

abbrev folder : Inode
folder = record {
  kind = directory;
  uid = 0;
  gid = 0;
  mode = 0o755;
  dev = 1;
  nlink = 2;
  xattrs = [];
  immutable = false;
  append_only = false;
}

abbrev program : Inode
program = record {
  kind = regular;
  uid = 1000;
  gid = 50;
  mode = 0o6755;
  dev = 1;
  nlink = 2;
  xattrs = [];
  immutable = false;
  append_only = false;
}

abbrev two_names : Tree
two_names = record {
  reachable = true;
  mounts = [];
  root_inode = 0;
  names = "." ∷ "run" ∷ "run-old" ∷ [];
  inode_of = λ rel. if str_eq rel "." then 0 else 7;
}

abbrev small_fs : Fs
small_fs i = if i == 0 then folder else program

abbrev before_shift : Disk
before_shift = record { fs = small_fs; setid = [] }

abbrev base : ℕ
base = 1048576

before_shift-Fresh : Fresh linux_chown two_names base forward "/srv/data" before_shift
unfolding scan_problems lookup elem entry_problems
before_shift-Fresh = record { named = refl; unlisted = refl; unseeded = refl; clean = refl }

-- killed between the chown and the chmod of the program
abbrev torn : Disk
torn = killed_shift linux_chown 4 two_names base forward "/srv/data" none before_shift

torn_mode : ((torn.fs 7).mode ≡ 0o755) × ((torn.fs 7).uid ≡ 1049576)
unfolding killed_shift scan_problems lookup elem cleared entry_problems is_linked insert put own
torn_mode = (refl, refl)

torn-Attempts : Attempts linux_chown two_names base forward "/srv/data" before_shift torn
torn-Attempts = again first 4

shift_forward_example :
    (r : ShiftReport) × (d₁ : Disk) × (shift_journalled linux_chown two_names base forward
        "/srv/data" none torn
      ≡ (done r, d₁))
    × ((rel : String)
        → elem rel two_names.names ≡ true
        → let o = small_fs (two_names.inode_of rel) in
          let c = d₁.fs (two_names.inode_of rel) in
          (c.uid ≡ o.uid + base)
          × (c.gid ≡ o.gid + base)
          × (is_regular o.kind ≡ true → c.mode ≡ o.mode))
    × ((i : ℕ)
        → ((rel : String) → elem rel two_names.names ≡ true → two_names.inode_of rel ≢ i)
        → d₁.fs i ≡ small_fs i)
shift_forward_example =
    shift_forward linux_chown linux_chown-Clears two_names base (omega arith) "/srv/data"
      before_shift torn before_shift-Fresh torn-Attempts

-- The same run, computed: the setuid bit is back, under the shifted owner.
abbrev resumed_disk : Disk
resumed_disk = (shift_journalled linux_chown two_names base forward "/srv/data" none torn).1

resumed_mode : ((resumed_disk.fs 7).mode ≡ 0o6755) × ((resumed_disk.fs 7).uid ≡ 1049576)
unfolding killed_shift shift_journalled shift_tree scan_problems lookup elem cleared entry_problems
    insert
resumed_mode = (refl, refl)

resumed_done :
    shift_journalled linux_chown two_names base forward "/srv/data" none torn
    ≡ (done (record { entries = 3; changed = 0; left_alone = [] }), resumed_disk)
unfolding killed_shift shift_journalled shift_tree scan_problems lookup elem cleared entry_problems
    insert
resumed_done = refl

resumed_disk-Fresh : Fresh linux_chown two_names base inverse "rb:/srv/data" resumed_disk
unfolding killed_shift shift_journalled shift_tree scan_problems lookup elem cleared entry_problems
    insert
resumed_disk-Fresh = record { named = refl; unlisted = refl; unseeded = refl; clean = refl }

shift_back_example :
    (r' : ShiftReport) × (d₂ : Disk) × (shift_journalled linux_chown two_names base inverse
        "rb:/srv/data" none
        (killed_shift linux_chown 4 two_names base inverse "rb:/srv/data" none resumed_disk)
      ≡ (done r', d₂))
    × ((rel : String)
        → elem rel two_names.names ≡ true
        → let o = small_fs (two_names.inode_of rel) in
          let c = d₂.fs (two_names.inode_of rel) in
          (c.uid ≡ o.uid) × (c.gid ≡ o.gid) × (is_regular o.kind ≡ true → c.mode ≡ o.mode))
shift_back_example =
    shift_back linux_chown linux_chown-Clears two_names base (omega arith) "/srv/data"
      "rb:/srv/data" before_shift torn resumed_disk
      (killed_shift linux_chown 4 two_names base inverse "rb:/srv/data" none resumed_disk)
      (record { entries = 3; changed = 0; left_alone = [] }) before_shift-Fresh torn-Attempts
      resumed_done resumed_disk-Fresh (again first 4)
