-- ===== src/Lib.antt =====
-- boxmunge is a host for small web projects. This library models three parts of it. The first
-- decides, after each vulnerability scan, what a project may keep running, and takes a project
-- offline: src/boxmunge/cve/, with restart_hold.py and commands/security_enforce.py of
-- src/boxmunge/. The second moves the box to user-namespace remapping: src/boxmunge/userns/. The
-- third keeps an install of a release undoable and chooses the platform's own upgrade: release_txn.py,
-- release_keep.py and release_selection.py of src/boxmunge/.
--
-- How the parts interact. A scan gives findings (scanner.py); the project's compose file gives a
-- hardening penalty (hardening.py); its manifest a posture, an opt-out and its runtimes
-- (relevance.py); the operator suppressions (suppressions.py). The policy engine (policy.py) judges
-- each finding by these and sums a project's decision up. Over the fleet a circuit breaker holds
-- mass quarantines back (breaker.py), during one first day of grace nothing new is quarantined
-- (grace.py), a due quarantine is recorded and carried out (quarantine.py), and what changed since
-- the scan before is alerted (alerting.py).
--
-- The migration chooses an offset (offset.py) and adds it to the owners of every data tree
-- (shift.py, with the tree's setuid list journalled first by engine.py), moves the volumes between
-- the two daemon roots (volumes.py), and keeps its journal in one document (journal.py); every
-- step can be killed and is then run again. An install writes its record before each step
-- (release_txn.py) and keeps the release that it replaces (release_keep.py), so that it can be
-- abandoned until the data may have changed. The platform itself is upgraded to what
-- release_selection.py selects.
--
-- Files and code:
--   Prelude and its children: Python's tests, lists, dicts, sort, texts, dates, doubles and the
--     documents that json and yaml load.
--   Cve/Scanner: src/boxmunge/cve/scanner.py (Finding, the readers of words, distro_severity);
--     Vectors is _parse_attack_vector, with its proofs in Vectors/Laws and Vectors/Priority.
--   Cve/Hardening: src/boxmunge/cve/hardening.py.
--   Cve/Relevance: src/boxmunge/cve/relevance.py; Gate holds its proofs. The
--     standard library's fnmatchcase is glob_match, for the patterns of the table.
--   Cve/Suppressions: src/boxmunge/cve/suppressions.py; File has the file and its edits, and
--     Entries, Active, Edits, Effects the proofs.
--   Cve/Policy: src/boxmunge/cve/policy.py (evaluate_finding); Types is policy_types.py and Project
--     is evaluate_project with hardening_upcoming.py; Fix, Kev, Gates, Ladder, Postures, Subject,
--     Verdicts and Project/Laws hold the proofs.
--   Cve/Breaker: src/boxmunge/cve/breaker.py (decide, trip_threshold); Laws, Outcomes, Hysteresis.
--   Cve/Alerting: src/boxmunge/cve/alerting.py (detect_transitions); Keys has its dicts;
--     Represent, Alike, Quiet.
--   Cve/Grace: src/boxmunge/cve/grace.py; Laws.
--   Cve/SecurityPolicy: src/boxmunge/cve/security_policy.py; Laws.
--   Cve/Quarantine: src/boxmunge/cve/quarantine.py and restart_hold.py, with
--     set_restart_policy of docker.py; Enforce is
--     commands/security_enforce.py and Lift is lift_quarantine; Safe, History, Outcomes and the
--     children of Lift hold the proofs.
--   Cve/Kev: src/boxmunge/cve/kev.py (the catalog and its refresh); Sanity, Laws.
--   Userns/Shift: src/boxmunge/userns/shift.py and _open_entry of walk.py, with shift_tree in Walk;
--     Journalled is shift_journalled of engine.py with its kills; Modes, Scans, Stages, Restored,
--     Kills, Links, Runs, Resumes and Roundtrip hold the proofs.
--   Userns/Offset: src/boxmunge/userns/offset.py; Sources is its part from the record on; Blocks,
--     Allocate, Problems and Agreement hold the proofs.
--   Userns/Journal: src/boxmunge/userns/journal.py, with _validate and the document of save_journal
--     in Document; Codec has the proofs. Userns/Volumes: move of src/boxmunge/userns/volumes.py.
--   Release/Txn: src/boxmunge/release_txn.py, with stale_reason and options_text in Checks; Steps,
--     Stale. Release/Keep: src/boxmunge/release_keep.py; Kills, Undo, Meta. Release/Selection:
--     src/boxmunge/release_selection.py; Versions, Newest, Reach.
--   Tests: concrete runs.
--
-- How the code is rendered. Enums are data types, dataclasses are records with the same fields
-- (Finding.package is pkg_name, a reserved word), dicts are association lists in insertion order,
-- sets are lists that are only asked for members, exceptions are values. The recursive call of
-- evaluate_finding is on a finding without a fix; the model unrolls it once, which suffices. A file
-- is a value with its failures; each call of Docker or Caddy and each write may fail, as a record
-- of faults says. The doubles 0.34 and 0.95 and their products are rounded as IEEE doubles are, for
-- counts below 2 ^ 64 (Prelude/Rounding bounds the rounding). A docker update that fails may have
-- changed any of its containers, and the fault says which.
--
-- A tree is the names that a walk meets with the inode of each, an inode a record; what the kernel
-- leaves of a mode on a chown is the parameter chown_mode, which keeps the mode or clears the bits
-- that _cleared clears. A kill stops a list of effects anywhere. The loop of allocate_offset has
-- fuel for 65536 blocks of 65536 ids, which is all of the ids below 2 ^ 32. The decimal text of a
-- number, SHA-256, live_meta_text and previous_meta_text are parameters.
--
-- What is not modelled. upper(), lower(), strip() and digit tests are those of ASCII, and
-- date.fromisoformat reads YYYY-MM-DD. Explanations, alerts and errors are constructors with the
-- values that they mention, without their wording. PyYAML is the parameter Yaml of
-- Cve/Suppressions/File, with the law that a dumped document loads again. Running Trivy and the
-- rest of the reading of its document, the JSON text of state files, the stored scan state, the
-- removal history, notification delivery and the commands are left out of the first part. Of the
-- migration, the engine's phases, its rollback and commit, the inventory, and the edits of
-- boxmunge.yml and daemon.json are left out; of the installs, load_txn, the reading of the GitHub
-- answer and of version texts, and the procedures that drive the steps. All of boxmunge outside the
-- files named above is left out.
pub mod Prelude
pub mod Cve
pub mod Userns
pub mod Release
pub mod Tests
