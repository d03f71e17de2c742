-- ===== src/Tests/Release.antt =====
-- Installs and upgrades on small inputs.
use boxmunge.Prelude.{ℕ, String, ◌≡◌, refl, ◌⊎◌, true, false, none, some, List, [], ◌∷◌}
use boxmunge.Release.Txn.{
  InstallTxn, Box, Request, mark_abandon, supersede_txn, current_expect, ok, err, git, at,
  cannot_abandon, data_may_have_changed, hook_started, committed, abandoning, untouched, hook_ran,
}
use boxmunge.Release.Txn.Steps.{now, superseded, Later-mark_abandon}
use boxmunge.Release.Txn.Stale.{LiveAfter, PreviousAfter, HeadAfter, own_steps-not_stale}
use boxmunge.Release.Keep.{Releases, run, killed, keep_steps, restore_steps}
use boxmunge.Release.Keep.Undo.{keep_killed, undo_killed, Undone, restore_superseded-undoes}
use boxmunge.Release.Selection.{
  Release, breakfix, breakfix_mode, security, feature, latest, select, find_blocked, accepts, newer,
  may_install, is_update,
}
use boxmunge.Release.Selection.Reach.{Reachable, select_sound, find_blocked-none}
use boxmunge.Release.Txn.Checks.{Texts, stale_problems, kept_previous_text}
use boxmunge.Release.Selection.Newest.{first, In}
use boxmunge.Release.Keep.Kills.{Opened}

-- a stand-in for the hash: it marks the text
abbrev hash : String → String
hash text = String.◌∷◌ "#" text

abbrev box_texts : Texts
box_texts = record {
  live_meta_text = λ ref. ref;
  previous_meta_text = λ ref snapshot at replaced_by. ref;
}

abbrev box_found : Box
box_found = record {
  live_json = some "v1";
  previous_json = none;
  superseded_json = none;
  has_previous = false;
  head = at "v1";
}

abbrev hooked : InstallTxn
hooked = record {
  id = "a1";
  source = git;
  ref = "v2";
  replaced_ref = some "v1";
  staged_id = none;
  snapshot = "s1";
  phase = hook_started;
  expect = record {
    live_json_sha256 = some (hash "v1");
    previous_json_sha256 = none;
    repo_head = some "v1";
  };
  previous_before = none;
  had_previous = false;
  touched = untouched;
  started_at = "2026-01-02T03:04:05Z";
}

abbrev again : Request
again = record {
  id = "a2";
  started_at = "2026-01-02T04:00:00Z";
  source = git;
  ref = "v3";
  replaced_ref = some "v1";
  staged_id = none;
  snapshot = "s2";
}

abbrev fixed_forward : InstallTxn
fixed_forward = record {
  id = "a2";
  source = git;
  ref = "v3";
  replaced_ref = some "v1";
  staged_id = none;
  snapshot = "s2";
  phase = committed;
  expect = hooked.expect;
  previous_before = none;
  had_previous = false;
  touched = hook_ran;
  started_at = "2026-01-02T04:00:00Z";
}

hooked_superseded :
    supersede_txn hash box_found again committed (some hooked) hooked ≡ ok fixed_forward
unfolding supersede_txn
hooked_superseded = refl

hooked_changed : data_may_have_changed hooked ≡ true
unfolding data_may_have_changed
hooked_changed = refl

Later-mark_abandon_example :
    mark_abandon hash box_found fixed_forward abandoning ≡ err (cannot_abandon committed)
Later-mark_abandon_example =
    Later-mark_abandon hash hooked fixed_forward box_found abandoning hooked_changed
      (superseded box_found again committed (some hooked) now hooked_superseded)

hooked_expect : current_expect hash box_found ≡ ok hooked.expect
unfolding current_expect
hooked_expect = refl

abbrev releases_found : Releases ℕ
releases_found = record {
  building = none;
  previous = some 1;
  previous_json = some "v0";
  superseded = none;
  superseded_json = none;
}

abbrev second_install : InstallTxn
second_install = record hooked { previous_before = some (hash "v0"); had_previous = true }

releases_found-Opened : Opened second_install releases_found
releases_found-Opened = record { had = refl; had_meta = refl; unaside = refl; unaside_meta = refl }

-- its keep was killed once the old previous.json was aside
abbrev keeping_install : InstallTxn
keeping_install = record hooked {
  phase = committed;
  previous_before = some (hash "v0");
  had_previous = true;
  expect = record hooked.expect { previous_json_sha256 = some (hash "v0") };
}

abbrev keeping_box : Box
keeping_box = record box_found { previous_json = some "v0"; has_previous = true }

keeping_expect : current_expect hash keeping_box ≡ ok keeping_install.expect
unfolding current_expect
keeping_expect = refl

keeping_install-Opened : Opened keeping_install releases_found
keeping_install-Opened = record { had = refl; had_meta = refl; unaside = refl; unaside_meta = refl }

own_steps-not_stale_example :
    let r =
      killed 4 (keep_steps 2 (kept_previous_text hash box_texts keeping_install)) releases_found in
    stale_problems hash box_texts
      (record keeping_box {
        live_json = some "v2";
        previous_json = r.previous_json;
        superseded_json = r.superseded_json;
        head = at "v2";
      })
      keeping_install
    ≡ []
own_steps-not_stale_example =
    let r =
      killed 4 (keep_steps 2 (kept_previous_text hash box_texts keeping_install)) releases_found in
    own_steps-not_stale hash box_texts keeping_install keeping_box (some "v2") r.previous_json
      r.superseded_json (at "v2") keeping_expect LiveAfter.marked
      (PreviousAfter.keeping releases_found 2 keeping_install-Opened refl refl (keep_killed 4))
      HeadAfter.checked_out

abbrev after_kills : Releases ℕ
after_kills = killed 2 (restore_steps second_install) (killed 5 (keep_steps 2 "v1") releases_found)

after_kills-state : after_kills ≡ record {
  building = none;
  previous = none;
  previous_json = none;
  superseded = some 1;
  superseded_json = some "v0";
}
unfolding killed restore_steps keep_steps
after_kills-state = refl

restore_superseded-undoes_example :
    (r' : Releases ℕ) × (run (restore_steps second_install) after_kills ≡ (true, r'))
    × Undone releases_found r'
restore_superseded-undoes_example =
    restore_superseded-undoes second_install releases_found releases_found-Opened 2 "v1" after_kills
      (undo_killed (keep_killed 5) 2)

abbrev patch : Release
patch = record { version = 1 ∷ 0 ∷ 1 ∷ []; url = "p"; class = security; breaking = false }

abbrev minor : Release
minor = record { version = 1 ∷ 2 ∷ []; url = "m"; class = feature; breaking = true }

abbrev fix_after : Release
fix_after = record { version = 1 ∷ 2 ∷ 1 ∷ []; url = "f"; class = breakfix; breaking = false }

abbrev published : List Release
published = fix_after ∷ minor ∷ patch ∷ []

abbrev installed_version : List ℕ
installed_version = 1 ∷ 0 ∷ []

-- the fix is behind the breaking release, so the patch is taken
published_selected : select published installed_version breakfix_mode ≡ some patch
unfolding select
published_selected = refl

select_sound_example :
    In patch published
    × (accepts breakfix_mode security ≡ true)
    × (newer patch.version installed_version ≡ true)
    × ((breakfix_mode ≡ latest) ⊎ Reachable published installed_version patch.version)
    × ((x : Release)
        → In x published
        → may_install published installed_version breakfix_mode x ≡ true
        → newer x.version patch.version ≡ false)
select_sound_example =
    select_sound published installed_version breakfix_mode patch published_selected

nothing_blocked : find_blocked (patch ∷ minor ∷ []) installed_version ≡ none
unfolding find_blocked
nothing_blocked = refl

patch_update : is_update installed_version patch ≡ true
unfolding newer
patch_update = refl

find_blocked-none_example : Reachable (patch ∷ minor ∷ []) installed_version patch.version
find_blocked-none_example =
    find_blocked-none (patch ∷ minor ∷ []) installed_version nothing_blocked patch first
      patch_update
