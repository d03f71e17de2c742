-- ===== src/Cve/Alerting/Represent.antt =====
-- The finding that stands for a (CVE, package) over all the images of a project.
use boxmunge.Prelude.{
  ℕ, String, ◌≡◌, refl, subst, inl, inr, Bool, true, false, Option, none, some, List, [], ◌∷◌,
  arith, leb, if◌then◌else◌, Bool-cases, All,
}
use boxmunge.Cve.Alerting.Keys.{
  Key, Keyed, find_key, put_key, find-put, same_key, same_key_iff, same_key_refl,
}
use boxmunge.Cve.Alerting.{
  Hit, hit_of, key_of, rank_of, note_finding, note_findings, note_decisions, findings_by_key,
  disposition_rank, outranks,
}
use boxmunge.Cve.Policy.Types.{FindingDisposition, ProjectDecision}

-- Some finding stands for the key, of at least this rank.
abbrev pub stands : ℕ → Option Hit → Bool
stands r none = false
stands r (some h) = leb r (rank_of h)

outranks-stands :
    (o : Option Hit) (hit : Hit) (r : ℕ)
    → outranks o hit ≡ true
    → stands r o ≡ true
    → stands r (some hit) ≡ true
outranks-stands none hit r h k = cc
outranks-stands (some held) hit r h k = ground arith

outranked-stands :
    (o : Option Hit) (hit : Hit) → outranks o hit ≡ false → stands (rank_of hit) o ≡ true
outranked-stands none hit h = cc
outranked-stands (some held) hit h = ground arith

put_if-keeps :
    (j k : Key) (hit : Hit) (m : Keyed Hit) (r : ℕ) (b : Bool)
    → outranks (find_key j m) hit ≡ b
    → stands r (find_key k m) ≡ true
    → stands r (find_key k (if b then put_key j hit m else m)) ≡ true
put_if-keeps j k hit m r false e h = h
put_if-keeps j k hit m r true e h = rw (find-put j k hit m) (elim (Bool-cases (same_key j k)) [
  | inl s ↦
      let (to, _) = same_key_iff j k in
      let o = subst (λ i. outranks (find_key i m) hit ≡ true) (to s) e in
      rw s (outranks-stands (find_key k m) hit r o h)
  | inr s ↦ rw s h
])

put_if-stands :
    (j : Key) (hit : Hit) (m : Keyed Hit) (b : Bool)
    → outranks (find_key j m) hit ≡ b
    → stands (rank_of hit) (find_key j (if b then put_key j hit m else m)) ≡ true
put_if-stands j hit m false e = outranked-stands (find_key j m) hit e
put_if-stands j hit m true e = rw (find-put j j hit m) (rw (same_key_refl j) (ground arith))

note_finding-keeps :
    (image_ref : String) (fd : FindingDisposition) (m : Keyed Hit) (k : Key) (r : ℕ)
    → stands r (find_key k m) ≡ true
    → stands r (find_key k (note_finding image_ref fd m)) ≡ true
unfolding note_finding
note_finding-keeps image_ref fd m k r h =
    let hit = hit_of image_ref fd in
    put_if-keeps (key_of fd) k hit m r (outranks (find_key (key_of fd) m) hit) refl h

note_finding-stands :
    (image_ref : String) (fd : FindingDisposition) (m : Keyed Hit)
    → stands (disposition_rank fd.disposition) (find_key (key_of fd) (note_finding image_ref fd m))
      ≡ true
unfolding note_finding
note_finding-stands image_ref fd m =
    let hit = hit_of image_ref fd in
    put_if-stands (key_of fd) hit m (outranks (find_key (key_of fd) m) hit) refl

note_findings-keeps :
    (image_ref : String) (fds : List FindingDisposition) (m : Keyed Hit) (k : Key) (r : ℕ)
    → stands r (find_key k m) ≡ true
    → stands r (find_key k (note_findings image_ref fds m)) ≡ true
unfolding note_findings
note_findings-keeps image_ref [] m k r h = h
note_findings-keeps image_ref (fd ∷ rest) m k r h =
    note_findings-keeps image_ref rest (note_finding image_ref fd m) k r
      (note_finding-keeps image_ref fd m k r h)

note_decisions-keeps :
    (ds : List ProjectDecision) (m : Keyed Hit) (k : Key) (r : ℕ)
    → stands r (find_key k m) ≡ true
    → stands r (find_key k (note_decisions ds m)) ≡ true
unfolding note_decisions
note_decisions-keeps [] m k r h = h
note_decisions-keeps (d ∷ rest) m k r h =
    note_decisions-keeps rest (note_findings d.image_ref d.findings m) k r
      (note_findings-keeps d.image_ref d.findings m k r h)

-- The finding has one that stands for it in the dict, no less severe than it.
abbrev pub Represented : Keyed Hit → FindingDisposition → Type 0
Represented m fd = stands (disposition_rank fd.disposition) (find_key (key_of fd) m) ≡ true

note_findings-Represented :
    (image_ref : String) (fds : List FindingDisposition) (m : Keyed Hit)
    → All (Represented (note_findings image_ref fds m)) fds
unfolding note_findings
note_findings-Represented image_ref [] m = tt
note_findings-Represented image_ref (fd ∷ rest) m = (
  note_findings-keeps image_ref rest (note_finding image_ref fd m) (key_of fd)
      (disposition_rank fd.disposition) (note_finding-stands image_ref fd m),
  note_findings-Represented image_ref rest (note_finding image_ref fd m),
)

All-later :
    (ds : List ProjectDecision) (m : Keyed Hit) (fds : List FindingDisposition)
    → All (Represented m) fds
    → All (Represented (note_decisions ds m)) fds
All-later ds m [] h = tt
All-later ds m (fd ∷ rest) (h, t) = (
  note_decisions-keeps ds m (key_of fd) (disposition_rank fd.disposition) h,
  All-later ds m rest t,
)

note_decisions-Represented :
    (ds : List ProjectDecision) (m : Keyed Hit)
    → All (λ d. All (Represented (note_decisions ds m)) d.findings) ds
unfolding note_decisions
note_decisions-Represented [] m = tt
note_decisions-Represented (d ∷ rest) m =
    let after = note_findings d.image_ref d.findings m in
    (
      All-later rest after d.findings (note_findings-Represented d.image_ref d.findings m),
      note_decisions-Represented rest after,
    )

-- Every finding of every decision is represented: its (CVE, package) has an entry, whose
-- disposition ranks at least as high as the finding's own, whatever image either was found in.
pub findings_by_key-represents :
    (ds : List ProjectDecision) → All (λ d. All (Represented (findings_by_key ds)) d.findings) ds
unfolding findings_by_key
findings_by_key-represents ds = note_decisions-Represented ds []
