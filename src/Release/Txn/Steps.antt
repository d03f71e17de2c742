-- ===== src/Release/Txn/Steps.antt =====
-- src/boxmunge/release_txn.py: the records that follow one another while an install is open.
use boxmunge.Prelude.{◌<◌, String, ◌≡◌, refl, sym, ap, ◌∙◌, true, false, Option, none, some, arith}
use boxmunge.Release.Txn.{
  InstallTxn, advance, mark_abandon, supersede_txn, Box, Phase, Request, data_may_have_changed, ok,
  err, in_phases, is_abandoning, cannot_abandon, phase_index, touched_by, Source, is_abandon_phase,
  is_untouched, new_txn, containers_may_run_other,
}
use mathlib.Core.Bool.{false≢true}
use Txn.{
  abandoning, abandoned_code, committed, previous_kept, installed, data_restored, hook_started,
  switching,
}
use boxmunge.Release.Txn

phases_forward : (s : Source) (p : Phase) → in_phases s p ≡ true → is_abandon_phase p ≡ false
unfolding in_phases
phases_forward s abandoning h = cc
phases_forward s abandoned_code h = cc
phases_forward s committed h = refl
phases_forward s previous_kept h = refl
phases_forward s installed h = refl
phases_forward s data_restored h = refl
phases_forward s hook_started h = refl
phases_forward s switching h = refl

touched-changed : (v : InstallTxn) → is_untouched v.touched ≡ false → data_may_have_changed v ≡ true
unfolding data_may_have_changed
touched-changed v h = ground arith

module _ (sha256 : String → String) where
  -- A record, and those that later steps of the install write in its place.
  pub data Later (t : InstallTxn) : InstallTxn → Type 0 where
    now : Later t t
    advanced :
        {u v : InstallTxn} (box : Box) (p : Phase)
        → Later t u
        → advance sha256 box u p ≡ ok v
        → Later t v
    abandoned :
        {u v : InstallTxn} (box : Box) (p : Phase)
        → Later t u
        → mark_abandon sha256 box u p ≡ ok v
        → Later t v
    superseded :
        {u v : InstallTxn} (box : Box) (q : Request) (p : Phase) (on_disk : Option InstallTxn)
        → Later t u
        → supersede_txn sha256 box q p on_disk u ≡ ok v
        → Later t v

  advance_ok :
      (box : Box) (u v : InstallTxn) (p : Phase)
      → advance sha256 box u p ≡ ok v
      → (in_phases u.source p ≡ true)
        × (in_phases u.source u.phase ≡ true)
        × (phase_index u.phase < phase_index p)
        × (v.phase ≡ p)
        × (v.source ≡ u.source)
        × (v.touched ≡ u.touched)
  unfolding advance
  advance_ok box u v p h = ground (arith)

  mark_abandon_changed :
      (box : Box) (u : InstallTxn) (p : Phase)
      → data_may_have_changed u ≡ true
      → mark_abandon sha256 box u p ≡ err (cannot_abandon u.phase)
  unfolding mark_abandon
  mark_abandon_changed box u p h = ground arith

  supersede_ok :
      (box : Box) (q : Request) (p : Phase) (on_disk : Option InstallTxn) (u v : InstallTxn)
      → supersede_txn sha256 box q p on_disk u ≡ ok v
      → (is_abandoning u ≡ false) × (v.touched ≡ touched_by u)
  unfolding supersede_txn new_txn
  supersede_ok box q p none u v h = cc
  supersede_ok box q p (some d) u v h = ground (arith)

  mark_abandon_ok :
      (box : Box) (u v : InstallTxn) (p : Phase)
      → mark_abandon sha256 box u p ≡ ok v
      → (data_may_have_changed u ≡ false)
        × (is_abandon_phase p ≡ true)
        × (v.phase ≡ p)
        × (v.source ≡ u.source)
        × (v.touched ≡ u.touched)
  unfolding mark_abandon
  mark_abandon_ok box u v p h = ground (arith)

  advance-changed :
      (box : Box) (u v : InstallTxn) (p : Phase)
      → advance sha256 box u p ≡ ok v
      → data_may_have_changed u ≡ true
      → data_may_have_changed v ≡ true
  unfolding data_may_have_changed
  advance-changed box u v p h c =
      ground
        (arith, advance_ok box u v p h, phases_forward u.source p, phases_forward u.source u.phase)

  touched_by-changed :
      (u : InstallTxn) → data_may_have_changed u ≡ true → is_untouched (touched_by u) ≡ false
  unfolding touched_by
  touched_by-changed u h = ground arith

  supersede-changed :
      (box : Box) (q : Request) (p : Phase) (on_disk : Option InstallTxn) (u v : InstallTxn)
      → supersede_txn sha256 box q p on_disk u ≡ ok v
      → data_may_have_changed u ≡ true
      → data_may_have_changed v ≡ true
  supersede-changed box q p on_disk u v h c =
      touched-changed v
        (ap is_untouched (supersede_ok box q p on_disk u v h).1 ∙ touched_by-changed u c)

  -- What may have happened to the data is never forgotten.
  Later-changed :
      {t u : InstallTxn}
      → Later t u
      → data_may_have_changed t ≡ true
      → data_may_have_changed u ≡ true
  Later-changed now c = c
  Later-changed (advanced {u} {v} box p l h) c = advance-changed box u v p h (Later-changed l c)
  Later-changed (abandoned {u} {v} box p l h) c =
      absurd (false≢true (sym (mark_abandon_ok box u v p h).0 ∙ Later-changed l c))
  Later-changed (superseded {u} {v} box q p d l h) c =
      supersede-changed box q p d u v h (Later-changed l c)

  -- Once the data may have changed, no later record of the install, be it advanced or that of a
  -- deploy that took it over, can be abandoned.
  pub Later-mark_abandon :
      (t u : InstallTxn) (box : Box) (p : Phase)
      → data_may_have_changed t ≡ true
      → Later t u
      → mark_abandon sha256 box u p ≡ err (cannot_abandon u.phase)
  Later-mark_abandon t u box p c l = mark_abandon_changed box u p (Later-changed l c)

  advance-containers :
      (box : Box) (u v : InstallTxn) (p : Phase)
      → advance sha256 box u p ≡ ok v
      → containers_may_run_other u ≡ true
      → containers_may_run_other v ≡ true
  unfolding containers_may_run_other
  advance-containers box u v p h c =
      ground
        (arith, advance_ok box u v p h, phases_forward u.source p, phases_forward u.source u.phase)

  supersede-containers :
      (box : Box) (q : Request) (p : Phase) (on_disk : Option InstallTxn) (u v : InstallTxn)
      → supersede_txn sha256 box q p on_disk u ≡ ok v
      → containers_may_run_other u ≡ true
      → containers_may_run_other v ≡ true
  unfolding containers_may_run_other touched_by
  supersede-containers box q p on_disk u v h c = ground (arith, supersede_ok box q p on_disk u v h)

  containers-changed :
      (u : InstallTxn) → containers_may_run_other u ≡ true → data_may_have_changed u ≡ true
  unfolding containers_may_run_other data_may_have_changed
  containers-changed u h = ground arith

  -- Nor is it forgotten that containers of another release may run, which counts as a change of
  -- the data.
  Later-containers :
      (t u : InstallTxn)
      → Later t u
      → containers_may_run_other t ≡ true
      → (containers_may_run_other u ≡ true) × (data_may_have_changed u ≡ true)
  Later-containers t u l c = let r = containers l c in (r, containers-changed u r)
    where
      containers :
          {v : InstallTxn}
          → Later t v
          → containers_may_run_other t ≡ true
          → containers_may_run_other v ≡ true
      containers now k = k
      containers (advanced {u} {v} box p m h) k = advance-containers box u v p h (containers m k)
      containers (abandoned {u} {v} box p m h) k =
          absurd (
            false≢true
              (sym (mark_abandon_ok box u v p h).0 ∙ containers-changed u (containers m k)))
      containers (superseded {u} {v} box q p d m h) k =
          supersede-containers box q p d u v h (containers m k)
