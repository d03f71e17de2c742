-- ===== src/Cve/Alerting/Alike.antt =====
-- src/boxmunge/cve/alerting.py: the dicts of two scans with the same findings, and what a key finds
-- in each.
use boxmunge.Prelude.{
  String, ◌≡◌, refl, sym, ap, subst, Bool, true, false, Option, none, some, List, [], ◌∷◌, ltb,
  if◌then◌else◌,
}
use boxmunge.Cve.Alerting.Keys.{Keyed, find_key, put_key, Key, same_key}
use boxmunge.Cve.Alerting.{
  Hit, hardening_upcoming_by_key, note_decisions, note_findings, note_upcoming, note_finding,
  outranks, disposition_rank, key_of, hit_of,
}
use boxmunge.Cve.Policy.Types.{ProjectDecision, FindingDisposition}
use mathlib.Core.Bool.{false≢true}

-- The same findings, entry by entry, whatever image they were found in.
abbrev pub Alike : Keyed Hit → Keyed Hit → Type 0
Alike [] [] = Unit
Alike ((j, g) ∷ m) ((k, h) ∷ n) = (j ≡ k) × (g.disposition ≡ h.disposition) × Alike m n
Alike _ _ = ⊥

-- What a key finds in both.
abbrev pub SameHit : Option Hit → Option Hit → Type 0
SameHit none none = Unit
SameHit (some g) (some h) = g.disposition ≡ h.disposition
SameHit _ _ = ⊥

if-SameHit :
    (b c : Bool) (g h : Hit) (o p : Option Hit)
    → b ≡ c
    → g.disposition ≡ h.disposition
    → SameHit o p
    → SameHit (if b then some g else o) (if c then some h else p)
if-SameHit true true g h o p e d s = d
if-SameHit false false g h o p e d s = s
if-SameHit true false g h o p e d s = absurd (false≢true (sym e))
if-SameHit false true g h o p e d s = absurd (false≢true e)

pub find-Alike : (k : Key) (m n : Keyed Hit) → Alike m n → SameHit (find_key k m) (find_key k n)
unfolding find_key
find-Alike k [] [] a = tt
find-Alike k ((i, g) ∷ m) ((j, h) ∷ n) (e, d, a) =
    if-SameHit (same_key i k) (same_key j k) g h _ _ (ap (λ t. same_key t k) e) d
      (find-Alike k m n a)
find-Alike k [] (x ∷ n) a = absurd a
find-Alike k (x ∷ m) [] a = absurd a

if-Alike :
    (b c : Bool) (m n x y : Keyed Hit)
    → b ≡ c
    → Alike m n
    → Alike x y
    → Alike (if b then m else x) (if c then n else y)
if-Alike true true m n x y e a z = a
if-Alike false false m n x y e a z = z
if-Alike true false m n x y e a z = absurd (false≢true (sym e))
if-Alike false true m n x y e a z = absurd (false≢true e)

put-Alike :
    (k : Key) (g h : Hit) (m n : Keyed Hit)
    → g.disposition ≡ h.disposition
    → Alike m n
    → Alike (put_key k g m) (put_key k h n)
unfolding put_key
put-Alike k g h [] [] d a = (refl, d, tt)
put-Alike k g h ((i, x) ∷ m) ((j, y) ∷ n) d (e, s, a) =
    if-Alike (same_key i k) (same_key j k) _ _ _ _ (ap (λ t. same_key t k) e) (refl, d, a)
      (e, s, put-Alike k g h m n d a)
put-Alike k g h [] (y ∷ n) d a = absurd a
put-Alike k g h (x ∷ m) [] d a = absurd a

outranks-SameHit :
    (o p : Option Hit) (g h : Hit)
    → SameHit o p
    → g.disposition ≡ h.disposition
    → outranks o g ≡ outranks p h
outranks-SameHit none none g h s d = refl
outranks-SameHit (some x) (some y) g h s d =
    λ i. ltb (disposition_rank (s i).disposition) (disposition_rank (d i).disposition)
outranks-SameHit none (some y) g h s d = absurd s
outranks-SameHit (some x) none g h s d = absurd s

note_findings-Alike :
    (a b : String) (fds : List FindingDisposition) (m n : Keyed Hit)
    → Alike m n
    → Alike (note_findings a fds m) (note_findings b fds n)
unfolding note_findings note_finding
note_findings-Alike a b [] m n s = s
note_findings-Alike a b (fd ∷ rest) m n s =
    note_findings-Alike a b rest (note_finding a fd m) (note_finding b fd n) (
      if-Alike (outranks (find_key (key_of fd) m) (hit_of a fd))
        (outranks (find_key (key_of fd) n) (hit_of b fd)) _ _ m n
        (outranks-SameHit _ _ (hit_of a fd) (hit_of b fd) (find-Alike (key_of fd) m n s) refl)
        (put-Alike (key_of fd) (hit_of a fd) (hit_of b fd) m n refl s) s)

note_upcoming-Alike :
    (a b : String) (fds : List FindingDisposition) (m n : Keyed Hit)
    → Alike m n
    → Alike (note_upcoming a fds m) (note_upcoming b fds n)
unfolding note_upcoming
note_upcoming-Alike a b [] m n s = s
note_upcoming-Alike a b (fd ∷ rest) m n s = note_upcoming-Alike a b rest _ _ (
    if-Alike fd.hardening_would_quarantine fd.hardening_would_quarantine _ _ m n refl
      (put-Alike (key_of fd) (hit_of a fd) (hit_of b fd) m n refl s) s)

-- A later scan with the findings of an earlier one: image by image the same, in images that may
-- have been rebuilt.
pub data Rescanned : List ProjectDecision → List ProjectDecision → Type 0 where
  no_image : Rescanned [] []
  same_image :
      {before now : List ProjectDecision} (d e : ProjectDecision)
      → d.findings ≡ e.findings
      → Rescanned before now
      → Rescanned (d ∷ before) (e ∷ now)

pub note_decisions-Alike :
    {before now : List ProjectDecision} (m n : Keyed Hit)
    → Rescanned before now
    → Alike m n
    → Alike (note_decisions before m) (note_decisions now n)
unfolding note_decisions
note_decisions-Alike m n no_image s = s
note_decisions-Alike m n (same_image d e same r) s = note_decisions-Alike _ _ r (
    subst (λ fds. Alike (note_findings d.image_ref d.findings m) (note_findings e.image_ref fds n))
      same (note_findings-Alike d.image_ref e.image_ref d.findings m n s))

pub upcoming-Alike :
    {before now : List ProjectDecision} (m n : Keyed Hit)
    → Rescanned before now
    → Alike m n
    → Alike (hardening_upcoming_by_key before m) (hardening_upcoming_by_key now n)
unfolding hardening_upcoming_by_key
upcoming-Alike m n no_image s = s
upcoming-Alike m n (same_image d e same r) s = upcoming-Alike _ _ r (
    subst (λ fds. Alike (note_upcoming d.image_ref d.findings m) (note_upcoming e.image_ref fds n))
      same (note_upcoming-Alike d.image_ref e.image_ref d.findings m n s))
