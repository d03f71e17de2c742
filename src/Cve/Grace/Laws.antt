-- ===== src/Cve/Grace/Laws.antt =====
-- However often scans run and alerts are sent, one window of 24 hours is all there is.
use boxmunge.Prelude.{ℕ, ◌+◌, ◌≡◌, refl, ltb}
use boxmunge.Cve.Grace.{
  GraceState, GraceFile, missing, malformed, holds, is_active, init_grace_if_missing,
  mark_heads_up_sent, grace_duration,
}

-- A step of the fleet's scans on the grace file: a scan starts at a time, or the heads-up goes out.
pub data Step : GraceFile → GraceFile → Type 0 where
  scan : (now : ℕ) (file : GraceFile) → Step file (init_grace_if_missing file now).1
  heads_up : (state : GraceState) → Step (holds state) (mark_heads_up_sent state).1

pub data Steps : GraceFile → GraceFile → Type 0 where
  stop : {file : GraceFile} → Steps file file
  step : {a b c : GraceFile} → Step a b → Steps b c → Steps a c

abbrev pub InGrace : ℕ → GraceFile → Type 0
InGrace first (holds s) = (now : ℕ) → is_active s now ≡ ltb now (first + grace_duration)
InGrace first _ = ⊥

Step-InGrace : (first : ℕ) {a b : GraceFile} → Step a b → InGrace first a → InGrace first b
unfolding init_grace_if_missing mark_heads_up_sent is_active
Step-InGrace first (scan now (holds s)) h = h
Step-InGrace first (scan now missing) h = absurd h
Step-InGrace first (scan now malformed) h = absurd h
Step-InGrace first (heads_up state) h = h

Steps-InGrace : (first : ℕ) {a b : GraceFile} → Steps a b → InGrace first a → InGrace first b
Steps-InGrace first stop h = h
Steps-InGrace first (step s rest) h = Steps-InGrace first rest (Step-InGrace first s h)

-- The first scan, at a time `first`, opens the window; after any sequence of later scans and sent
-- heads-up alerts, the file's state is in grace exactly before first + 24 hours: no later scan,
-- upgrade or alert opens it again, closes it early, or makes it longer.
pub grace-once :
    (first : ℕ) (file : GraceFile)
    → Steps (init_grace_if_missing missing first).1 file
    → InGrace first file
unfolding init_grace_if_missing is_active
grace-once first file steps = Steps-InGrace first steps (λ now. refl)
