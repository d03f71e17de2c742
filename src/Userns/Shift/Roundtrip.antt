-- ===== src/Userns/Shift/Roundtrip.antt =====
-- src/boxmunge/userns: a tree that the migration shifted forward and the rollback shifted back.
use boxmunge.Prelude.{
  ℕ, ◌+◌, ◌≤◌, ◌<◌, String, ◌≡◌, sym, ap, ◌∙◌, subst, ◌≢◌, inl, inr, true, false, none, List, [],
  ◌∷◌, arith, is_some, elem,
}
use boxmunge.Userns.Shift.{
  Kind, Tree, new_id, range, Fs, forward, inverse, scan_problems, walk_problems, entry_problems,
  id_problems, unreachable, is_regular, Inode,
}
use boxmunge.Userns.Shift.Modes.{target}
use boxmunge.Userns.Shift.Stages.{Clears, Shifted}
use boxmunge.Userns.Shift.Journalled.{Disk, shift_journalled}
use boxmunge.Userns.Shift.Scans.{if-nil, append-nil_iff, when-not-nil}
use boxmunge.Userns.Shift.Resumes.{Fresh, Attempts, shift_journalled-resumes}
use boxmunge.Userns.Shift.Kills.{elem-nil, elem-cons}
use boxmunge.Userns.Shift.Walk.{ShiftReport, done, Outcome}

target_back :
    (offset value : ℕ)
    → range ≤ offset
    → value < range
    → target offset inverse (target offset forward value) ≡ value
target_back offset value h k = ground arith

target_small : (offset value : ℕ) → value < range → target offset forward value ≡ value + offset
target_small offset value h = ground arith

small_of : (offset value : ℕ) → is_some (new_id value offset forward false) ≡ true → value < range
unfolding new_id
small_of offset value h = ground arith

ids-small :
    (offset : ℕ) (rel : String) (st : Inode)
    → id_problems rel st offset forward false ≡ []
    → (st.uid < range) × (st.gid < range)
unfolding id_problems
ids-small offset rel st h =
    let (u, g) = append-nil_iff _ _ h in
    (small_of offset st.uid (when-not-nil _ _ u), small_of offset st.gid (when-not-nil _ _ g))

entry-small :
    (offset : ℕ) (rel : String) (st : Inode) (root_dev : ℕ)
    → entry_problems rel st offset forward root_dev false ≡ []
    → (st.uid < range) × (st.gid < range)
unfolding entry_problems
entry-small offset rel st root_dev h =
    let (_, other) = append-nil_iff _ _ h in
    let (_, ids) = append-nil_iff _ _ other in ids-small offset rel st (append-nil_iff _ _ ids).0

-- A tree that passes the first forward scan holds no id outside a container's.
module _ (t : Tree) (fs : Fs) (offset : ℕ) where
  walk-small :
      (root_dev : ℕ) (names : List String)
      → walk_problems t fs offset forward root_dev false names ≡ []
      → (rel : String) → elem rel names ≡ true
      → ((fs (t.inode_of rel)).uid < range) × ((fs (t.inode_of rel)).gid < range)
  unfolding walk_problems
  walk-small root_dev [] h rel m = absurd (elem-nil rel m)
  walk-small root_dev (first ∷ names) h rel m =
      let (entry, rest) =
        append-nil_iff (entry_problems first (fs (t.inode_of first)) offset forward root_dev false)
          _ h in
      elim (elem-cons rel first names m) [
        | inl e ↦
            subst (λ x. ((fs (t.inode_of x)).uid < range) × ((fs (t.inode_of x)).gid < range))
              (sym e) (entry-small offset first (fs (t.inode_of first)) root_dev entry)
        | inr n ↦ walk-small root_dev names rest rel n
      ]

  scan-small :
      scan_problems t fs offset forward false ≡ []
      → (rel : String) → elem rel t.names ≡ true
      → ((fs (t.inode_of rel)).uid < range) × ((fs (t.inode_of rel)).gid < range)
  unfolding scan_problems
  scan-small h rel m =
      let (_, found) = if-nil t.reachable unreachable _ h in
      let (_, rest) = append-nil_iff _ _ found in
      let (walked, _) = append-nil_iff _ _ rest in walk-small _ t.names walked rel m

module _ (chown_mode : Kind → ℕ → ℕ) (law : Clears chown_mode) (t : Tree) (offset : ℕ)
    (aligned : range ≤ offset) where
  -- From a tree that the scan passes and the journal does not list yet, with an offset of at
  -- least 65536: after any number of forward runs killed anywhere, one more run succeeds; then
  -- every entry of the tree has its ids plus the offset, once, a regular file has its first mode,
  -- and no inode without a name in the tree has changed.
  pub shift_forward :
      (key : String) (d₀ d : Disk)
      → Fresh chown_mode t offset forward key d₀
      → Attempts chown_mode t offset forward key d₀ d
      → (r : ShiftReport) × (d₁ : Disk) × (shift_journalled chown_mode t offset forward key none d
          ≡ (done r, d₁))
        × ((rel : String)
            → elem rel t.names ≡ true
            → let o = d₀.fs (t.inode_of rel) in
              let c = d₁.fs (t.inode_of rel) in
              (c.uid ≡ o.uid + offset)
              × (c.gid ≡ o.gid + offset)
              × (is_regular o.kind ≡ true → c.mode ≡ o.mode))
        × ((i : ℕ)
            → ((rel : String) → elem rel t.names ≡ true → t.inode_of rel ≢ i)
            → d₁.fs i ≡ d₀.fs i)
  shift_forward key d₀ d fresh a =
      let (r, d₁, ends, p, shifted) =
        shift_journalled-resumes chown_mode t offset forward key law aligned d₀ fresh d a in
      (
        r,
        d₁,
        ends,
        (λ rel m.
            let (s, (u, g), mode) = shifted rel m in
            let (u', g') = scan-small t d₀.fs offset fresh.clean rel m in
            (
              u ∙ target_small offset _ u',
              g ∙ target_small offset _ g',
              λ e. mode (ap is_regular s.0.kind ∙ e),
            )),
        p.outside,
      )

  -- From such a tree, shifted forward by a run that succeeds after any number of killed ones, and
  -- passed by the scan for the way back, under a key of its own: after any number of inverse runs
  -- killed anywhere, one more succeeds, and every entry has its first ids and every regular file
  -- its first mode.
  pub shift_back :
      (key back_key : String) (d₀ d d₁ d' : Disk) (r : ShiftReport)
      → Fresh chown_mode t offset forward key d₀
      → Attempts chown_mode t offset forward key d₀ d
      → shift_journalled chown_mode t offset forward key none d ≡ (done r, d₁)
      → Fresh chown_mode t offset inverse back_key d₁
      → Attempts chown_mode t offset inverse back_key d₁ d'
      → (r' : ShiftReport) × (d₂ : Disk) × (shift_journalled chown_mode t offset inverse back_key
            none d'
          ≡ (done r', d₂))
        × ((rel : String)
            → elem rel t.names ≡ true
            → let o = d₀.fs (t.inode_of rel) in
              let c = d₂.fs (t.inode_of rel) in
              (c.uid ≡ o.uid) × (c.gid ≡ o.gid) × (is_regular o.kind ≡ true → c.mode ≡ o.mode))
  shift_back key back_key d₀ d d₁ d' r fresh a ends back_fresh b =
      let (_, f₁, ends₁, p₁, first) =
        shift_journalled-resumes chown_mode t offset forward key law aligned d₀ fresh d a in
      let same : f₁ ≡ d₁ = ap (λ (o : Outcome × Disk). o.1) (sym ends₁ ∙ ends) in
      let (r', d₂, ends₂, p₂, second) =
        shift_journalled-resumes chown_mode t offset inverse back_key law aligned d₁ back_fresh d'
          b in
      (
        r',
        d₂,
        ends₂,
        λ rel m.
            let (s₁, (u₁, g₁), m₁) =
              subst
                (λ (x : Disk).
                  Shifted offset forward (d₀.fs (t.inode_of rel)) (x.fs (t.inode_of rel)))
                same (first rel m) in
            let (s₂, (u₂, g₂), m₂) = second rel m in
            let (u', g') = scan-small t d₀.fs offset fresh.clean rel m in
            (
              u₂ ∙ ap (target offset inverse) u₁ ∙ target_back offset _ aligned u',
              g₂ ∙ ap (target offset inverse) g₁ ∙ target_back offset _ aligned g',
              λ e.
                  m₂ (ap is_regular (s₂.0.kind ∙ s₁.0.kind) ∙ e) ∙ m₁ (ap is_regular s₁.0.kind ∙ e),
            ),
      )
