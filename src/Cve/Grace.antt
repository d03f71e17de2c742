-- ===== src/Cve/Grace.antt =====
-- src/boxmunge/cve/grace.py: the grace window of the first day after the policy ships. A datetime
-- is its UTC microsecond count; the file's JSON text is read as missing, malformed or a state.
pub mod Laws
use boxmunge.Prelude.{ℕ, ◌+◌, ◌*◌, Bool, true, false, Option, none, some, ltb}

pub record GraceState : Type 0 where
  pub installed_at : ℕ
  pub expires_at : ℕ
  pub heads_up_sent : Bool

pub data GraceFile : Type 0 where
  missing malformed : GraceFile
  holds : GraceState → GraceFile

-- timedelta(hours=24)
abbrev pub grace_duration : ℕ
grace_duration = 24 * 3600 * 1000000

-- GraceState.is_active
unfoldable pub is_active : GraceState → ℕ → Bool
is_active s now = ltb now s.expires_at

-- init_grace_if_missing: `none` is its GraceError; the second component is the file left behind
unfoldable pub init_grace_if_missing : GraceFile → ℕ → Option GraceState × GraceFile
init_grace_if_missing malformed now = (none, malformed)
init_grace_if_missing (holds existing) now = (some existing, holds existing)
init_grace_if_missing missing now =
    let state : GraceState = record {
      installed_at = now;
      expires_at = now + grace_duration;
      heads_up_sent = false;
    } in
    (some state, holds state)

-- mark_heads_up_sent
unfoldable pub mark_heads_up_sent : GraceState → GraceState × GraceFile
mark_heads_up_sent state =
    let updated = record state { heads_up_sent = true } in (updated, holds updated)
