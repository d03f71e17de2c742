-- ===== src/Userns/Shift/Resumes.antt =====
-- src/boxmunge/userns/engine.py, `shift_journalled`: killed any number of times, then run to its end.
use boxmunge.Prelude.{
  ℕ, zero, suc, ◌≤◌, String, ◌≡◌, refl, sym, ap, ◌∙◌, subst, ◌⊎◌, inl, inr, true, false, Option,
  none, some, [], eq_refl, if◌then◌else◌, is_some, get_or_else, Dict, lookup, str_eq, elem,
  lookup-insert,
}
use boxmunge.Userns.Shift.{
  Kind, Tree, is_linked, Direction, Fs, links_of, has_links, scan_problems, range, scan_setid,
}
use boxmunge.Userns.Shift.Journalled.{
  Disk, killed_shift, journalled_setid, marked, shift_journalled,
}
use boxmunge.Userns.Shift.Kills.{Progress, killed_walk-Progress, start-Progress, shift_walk-Shifted}
use boxmunge.Userns.Shift.Restored.{Knows, Knows-Known, scan-Knows, merge-Knows, lookup-nil}
use boxmunge.Userns.Shift.Stages.{Clears, Shifted}
use boxmunge.Userns.Shift.Scans.{has_links-Stage, scan_problems-Stage}
use mathlib.Core.Bool.{false≢true}
use boxmunge.Userns.Shift.Links.{links_of-all}
use boxmunge.Userns.Shift.Runs.{
  killed_shift-zero, marked-cases, scan-reachable, shift_tree-walk, killed_shift-walk,
}
use boxmunge.Userns.Shift.Walk.{ShiftReport, merge, done, Outcome}

module _ (chown_mode : Kind → ℕ → ℕ) (t : Tree) (offset : ℕ) (direction : Direction)
    (key : String) where
  pub data Attempts (d₀ : Disk) : Disk → Type 0 where
    first : Attempts d₀ d₀
    again :
        {d : Disk}
        → Attempts d₀ d
        → (k : ℕ) → Attempts d₀ (killed_shift chown_mode k t offset direction key none d)

  -- No shift of this tree was begun, and none is refused.
  pub record Fresh (d₀ : Disk) : Type 0 where
    pub named : str_eq key "" ≡ false
    pub unlisted : lookup key d₀.setid ≡ none
    pub unseeded : lookup "" d₀.setid ≡ none
    pub clean : scan_problems t d₀.fs offset direction false ≡ []

  clean_of : (d₀ : Disk) → Fresh d₀ → scan_problems t d₀.fs offset direction false ≡ []
  clean_of d₀ f = f.clean

  record Begun (d₀ d : Disk) : Type 0 where
    progress : Progress offset direction t d₀.fs d.fs
    listed : (d ≡ d₀) ⊎ ((setid : Dict ℕ) × (lookup key d.setid ≡ some setid) × Knows t d₀.fs setid)
    seedless : lookup "" d.setid ≡ none

  module _ (law : Clears chown_mode) (aligned : range ≤ offset) (d₀ : Disk) (fresh : Fresh d₀) where
    reached : t.reachable ≡ true
    reached = scan-reachable t d₀.fs offset direction false (clean_of d₀ fresh)

    journalled-eq :
        (d : Disk) (listed : Option (Dict ℕ))
        → Begun d₀ d
        → lookup key d.setid ≡ listed
        → journalled_setid t key none d
          ≡ merge (merge [] (scan_setid t d.fs t.names)) (get_or_else listed [])
    unfolding journalled_setid
    journalled-eq d listed b h = λ i.
        merge
          (merge (get_or_else (b.seedless i) [])
            (if reached i then scan_setid t d.fs t.names else []))
          (get_or_else (h i) [])

    unlisted_of : (d : Disk) → d ≡ d₀ → lookup key d.setid ≡ none
    unlisted_of d e = ap (λ (x : Disk). lookup key x.setid) e ∙ fresh.unlisted

    knows : (d : Disk) → Begun d₀ d → Knows t d₀.fs (journalled_setid t key none d)
    knows d b = elim b.listed [
      | inl e ↦ subst (Knows t d₀.fs) (sym (journalled-eq d none b (unlisted_of d e))) (
          subst (λ (x : Disk). Knows t d₀.fs (merge (merge [] (scan_setid t x.fs t.names)) []))
            (sym e) (scan-Knows t d₀.fs))
      | inr (setid, found, known) ↦
          subst (Knows t d₀.fs) (sym (journalled-eq d (some setid) b found))
            (merge-Knows offset direction t d₀.fs d.fs b.progress.stages [] setid lookup-nil known)
    ]

    passes :
        (d : Disk)
        → Begun d₀ d
        → scan_problems t d.fs offset direction (is_some (lookup key d.setid)) ≡ []
    passes d b = elim b.listed [
      | inl e ↦
          ap (λ (x : Disk). scan_problems t x.fs offset direction (is_some (lookup key x.setid))) e
          ∙ ap (λ o. scan_problems t d₀.fs offset direction (is_some o)) fresh.unlisted
          ∙ fresh.clean
      | inr (setid, found, known) ↦
          ap (λ o. scan_problems t d.fs offset direction (is_some o)) found
          ∙ scan_problems-Stage offset direction d₀.fs d.fs t aligned false b.progress.stages
              fresh.clean
    ]

    still_listed :
        (d : Disk)
        → Begun d₀ d
        → is_some (lookup key d.setid) ≡ true
        → (setid : Dict ℕ) × (lookup key d.setid ≡ some setid) × Knows t d₀.fs setid
    still_listed d b h = elim b.listed [
      | inl e ↦ absurd (false≢true (sym (ap is_some (unlisted_of d e)) ∙ h))
      | inr found ↦ found
    ]

    marked-listed :
        (d : Disk)
        → Begun d₀ d
        → (setid : Dict ℕ) × (lookup key (marked t key none d).setid ≡ some setid)
          × Knows t d₀.fs setid
    marked-listed d b = elim (marked-cases t key d) [
      | inl (same, h) ↦
          let (setid, found, known) = still_listed d b h in
          (setid, ap (lookup key) same ∙ found, known)
      | inr new ↦ (
        journalled_setid t key none d,
        ap (lookup key) new ∙ lookup-insert key key _ d.setid ∙ rw (eq_refl key) refl,
        knows d b,
      )
    ]

    marked-seedless : (d : Disk) → Begun d₀ d → lookup "" (marked t key none d).setid ≡ none
    marked-seedless d b = elim (marked-cases t key d) [
      | inl (same, h) ↦ ap (lookup "") same ∙ b.seedless
      | inr new ↦ ap (lookup "") new ∙ lookup-insert key "" _ d.setid ∙ rw fresh.named b.seedless
    ]

    marked-Begun :
        (d : Disk) (fs : Fs)
        → Begun d₀ d
        → Progress offset direction t d₀.fs fs
        → Begun d₀ (record (marked t key none d) { fs = fs })
    marked-Begun d fs b p = record {
      progress = p;
      listed = inr (marked-listed d b);
      seedless = marked-seedless d b;
    }

    start-Begun : Begun d₀ d₀
    start-Begun = record {
      progress = start-Progress offset direction t d₀.fs;
      listed = inl refl;
      seedless = fresh.unseeded;
    }

    killed-Begun :
        (k : ℕ) (d : Disk)
        → Begun d₀ d
        → Begun d₀ (killed_shift chown_mode k t offset direction key none d)
    killed-Begun zero d b =
        subst (Begun d₀) (sym (killed_shift-zero chown_mode t offset direction key d)) b
    killed-Begun (suc k) d b =
        subst (Begun d₀)
          (sym (killed_shift-walk chown_mode k t offset direction key d (passes d b)))
          (marked-Begun d _ b (
            killed_walk-Progress chown_mode law offset direction aligned t d₀.fs _
              (Knows-Known offset direction t d₀.fs d.fs b.progress.stages _ (knows d b))
              (links_of t d.fs t.names []) (is_some (lookup key d.setid)) k t.names d.fs (λ x m. m)
              b.progress))

    Attempts-Begun : {d : Disk} → Attempts d₀ d → Begun d₀ d
    Attempts-Begun first = start-Begun
    Attempts-Begun (again {d} a k) = killed-Begun k d (Attempts-Begun a)

    linked_all :
        (d : Disk)
        → Begun d₀ d
        → (rel : String) → elem rel t.names ≡ true
        → has_links (d₀.fs (t.inode_of rel)) ≡ true
        → is_linked (t.inode_of rel) (links_of t d.fs t.names []) ≡ true
    linked_all d b rel m h =
        links_of-all t d.fs rel t.names [] m
          (has_links-Stage offset direction d₀.fs d.fs (t.inode_of rel) b.progress.stages ∙ h)

    -- After any number of killed runs, the run that is not killed succeeds: every entry of the tree
    -- has its new owner, a regular file its first mode, and no other inode changes.
    pub shift_journalled-resumes :
        (d : Disk)
        → Attempts d₀ d
        → (r : ShiftReport) × (d' : Disk) × (shift_journalled chown_mode t offset direction key none
              d
            ≡ (done r, d'))
          × Progress offset direction t d₀.fs d'.fs
          × ((rel : String)
              → elem rel t.names ≡ true
              → Shifted offset direction (d₀.fs (t.inode_of rel)) (d'.fs (t.inode_of rel)))
    unfolding shift_journalled
    shift_journalled-resumes d a =
        let b = Attempts-Begun a in
        let (r, fs, ends, p, _, shifted) =
          shift_walk-Shifted chown_mode law offset direction aligned t d₀.fs _
            (Knows-Known offset direction t d₀.fs d.fs b.progress.stages _ (knows d b))
            (links_of t d.fs t.names []) (is_some (lookup key d.setid)) (linked_all d b) t.names
            (record { entries = 0; changed = 0; left_alone = [] }) d.fs (λ x m. m) b.progress in
        (
          r,
          record (marked t key none d) { fs = fs },
          ap (λ (o : Outcome × Fs). (o.0, record (marked t key none d) { fs = o.1 }))
              (shift_tree-walk chown_mode t offset direction _ _ d.fs (passes d b) ∙ ends),
          p,
          shifted,
        )
