-- ===== src/Userns/Shift/Stages.antt =====
-- src/boxmunge/userns/shift.py: the stages of an inode in a shift that may be killed and resumed.
use boxmunge.Prelude.{
  ℕ, ◌≤◌, ◌≡◌, refl, ap, ◌∙◌, ◌⊎◌, inl, inr, Bool, true, false, ◌&&◌, Option, none, some, arith,
  Bool-cases, sym,
}
use boxmunge.Userns.Shift.{
  Kind, Inode, Direction, range, cleared, opened, is_regular, directory, regular, fifo, symlink,
  socket, char_device, block_device,
}
use boxmunge.Userns.Shift.Modes.{target, new_id-target, target_idem, cleared_idem}
use boxmunge.Userns.Shift.Walk.{own, remode, visit}

-- chown(2) leaves the mode, or clears setuid, and setgid where the group may execute.
pub record Clears (chown_mode : Kind → ℕ → ℕ) : Type 0 where
  pub keeps_or_clears : (k : Kind) (m : ℕ) → (chown_mode k m ≡ m) ⊎ (chown_mode k m ≡ cleared m)

-- What no step of a shift changes.
pub record Kept (o c : Inode) : Type 0 where
  pub kind : c.kind ≡ o.kind
  pub dev : c.dev ≡ o.dev
  pub nlink : c.nlink ≡ o.nlink
  pub xattrs : c.xattrs ≡ o.xattrs
  pub immutable : c.immutable ≡ o.immutable
  pub append_only : c.append_only ≡ o.append_only

pub Kept-trans : {a b c : Inode} → Kept a b → Kept b c → Kept a c
Kept-trans h k = ground arith

module _ (offset : ℕ) (direction : Direction) where
  abbrev pub IsOwned : Inode → Inode → Type 0
  IsOwned o c = (c.uid ≡ target offset direction o.uid) × (c.gid ≡ target offset direction o.gid)

  -- As it was; or chowned, with its mode kept or cleared.
  abbrev pub Stage : Inode → Inode → Type 0
  Stage o c =
      Kept o c
      × (((c.uid ≡ o.uid) × (c.gid ≡ o.gid) × (c.mode ≡ o.mode))
          ⊎ (IsOwned o c × ((c.mode ≡ o.mode) ⊎ (c.mode ≡ cleared o.mode))))

  -- The shift is over: the owners are the target's, and a regular file has its mode.
  abbrev pub Shifted : Inode → Inode → Type 0
  Shifted o c = Stage o c × IsOwned o c × (is_regular c.kind ≡ true → c.mode ≡ o.mode)

module _ (offset : ℕ) (direction : Direction) where
  pub uid_of :
      (o c : Inode)
      → Stage offset direction o c
      → (c.uid ≡ o.uid) ⊎ (c.uid ≡ target offset direction o.uid)
  uid_of o c (_, inl (u, _, _)) = inl u
  uid_of o c (_, inr ((u, _), _)) = inr u

  pub gid_of :
      (o c : Inode)
      → Stage offset direction o c
      → (c.gid ≡ o.gid) ⊎ (c.gid ≡ target offset direction o.gid)
  gid_of o c (_, inl (_, g, _)) = inl g
  gid_of o c (_, inr ((_, g), _)) = inr g

  pub mode_of :
      (o c : Inode) → Stage offset direction o c → (c.mode ≡ o.mode) ⊎ (c.mode ≡ cleared o.mode)
  mode_of o c (_, inl (_, _, m)) = inl m
  mode_of o c (_, inr (_, m)) = m

-- The mode that the walk puts back: the first one, wherever a chown would change it.
abbrev pub Known : Inode → Option ℕ → Type 0
Known o mode =
    (mode ≡ some o.mode) ⊎ ((mode ≡ none) × (is_regular o.kind ≡ true → cleared o.mode ≡ o.mode))

module _ (chown_mode : Kind → ℕ → ℕ) (law : Clears chown_mode) (offset : ℕ) (direction : Direction)
    (aligned : range ≤ offset) where
  own-ids :
      (c : Inode) (resumed : Bool)
      → let r = own chown_mode offset direction resumed c in
        Kept c r
        × (r.uid ≡ target offset direction c.uid)
        × (r.gid ≡ target offset direction c.gid)
        × (((r.uid ≡ c.uid) × (r.gid ≡ c.gid) × (r.mode ≡ c.mode))
            ⊎ (r.mode ≡ chown_mode c.kind c.mode))
  unfolding own
  own-ids c resumed =
      rw
        (new_id-target offset c.uid direction resumed, new_id-target offset c.gid direction resumed)
        (grind arith)

  moved :
      (x y : ℕ)
      → (y ≡ x) ⊎ (y ≡ target offset direction x)
      → target offset direction y ≡ target offset direction x
  moved x y (inl e) = ap (target offset direction) e
  moved x y (inr e) = ap (target offset direction) e ∙ target_idem offset x direction aligned

  own_mode :
      (o c : Inode) (resumed : Bool)
      → (c.mode ≡ o.mode) ⊎ (c.mode ≡ cleared o.mode)
      → ((own chown_mode offset direction resumed c).mode ≡ o.mode)
        ⊎ ((own chown_mode offset direction resumed c).mode ≡ cleared o.mode)
  own_mode o c resumed m =
      ground (arith, own-ids c resumed, law.keeps_or_clears c.kind c.mode, cleared_idem o.mode)

  pub own-Stage :
      (o c : Inode) (resumed : Bool)
      → Stage offset direction o c
      → Stage offset direction o (own chown_mode offset direction resumed c)
        × IsOwned offset direction o (own chown_mode offset direction resumed c)
  own-Stage o c resumed s =
      let (kept, uid', gid', _) = own-ids c resumed in
      let owned : IsOwned offset direction o (own chown_mode offset direction resumed c) = (
        uid' ∙ moved o.uid c.uid (uid_of offset direction o c s),
        gid' ∙ moved o.gid c.gid (gid_of offset direction o c s),
      ) in
      (
        (Kept-trans s.0 kept, inr (owned, own_mode o c resumed (mode_of offset direction o c s))),
        owned,
      )

  regular-opened : (k : Kind) → (opened k && is_regular k) ≡ is_regular k
  regular-opened directory = refl
  regular-opened regular = refl
  regular-opened fifo = refl
  regular-opened symlink = refl
  regular-opened socket = refl
  regular-opened char_device = refl
  regular-opened block_device = refl

  keep_mode :
      (o r : Inode)
      → Known o none
      → (r.mode ≡ o.mode) ⊎ (r.mode ≡ cleared o.mode)
      → is_regular o.kind ≡ true
      → r.mode ≡ o.mode
  keep_mode o r k (inl m) e = m
  keep_mode o r (inl k) (inr m) e = cc
  keep_mode o r (inr (_, k)) (inr m) e = m ∙ k e

  some_of : (o : Inode) (v : ℕ) → Known o (some v) → v ≡ o.mode
  some_of o v k = ground arith

  remode-none : (c r : Inode) → remode chown_mode none c r ≡ r
  unfolding remode
  remode-none c r = refl

  remode-regular :
      (o c r : Inode) (v : ℕ)
      → v ≡ o.mode
      → (c.mode ≡ o.mode) ⊎ (c.mode ≡ cleared o.mode)
      → is_regular c.kind ≡ true
      → remode chown_mode (some v) c r ≡ record r { mode = v }
  unfolding remode
  remode-regular o c r v h m e = ground (arith, regular-opened c.kind)

  remode-other :
      (c r : Inode) (v : ℕ) → is_regular c.kind ≡ false → remode chown_mode (some v) c r ≡ r
  unfolding remode
  remode-other c r v e = ground (arith, regular-opened c.kind)

  remode-Shifted :
      (o c r : Inode) (mode : Option ℕ)
      → Known o mode
      → (c.mode ≡ o.mode) ⊎ (c.mode ≡ cleared o.mode)
      → Kept o c
      → Stage offset direction o r
      → IsOwned offset direction o r
      → Shifted offset direction o (remode chown_mode mode c r)
  remode-Shifted o c r none k m kept t owned = rw remode-none (
    t,
    owned,
    λ e. keep_mode o r k (mode_of offset direction o r t) (ap is_regular (sym t.0.kind) ∙ e),
  )
  remode-Shifted o c r (some v) k m kept t owned = elim (Bool-cases (is_regular c.kind)) [
    | inl e ↦ rw (remode-regular o c r v (some_of o v k) m e) (
      (
        Kept-trans t.0 (record {
          kind = refl;
          dev = refl;
          nlink = refl;
          xattrs = refl;
          immutable = refl;
          append_only = refl;
        }),
        inr (owned, inl (some_of o v k)),
      ),
      owned,
      λ _. some_of o v k,
    )
    | inr e ↦ rw (remode-other c r v e) (t, owned, λ h. ground (arith, kept.kind, t.0.kind))
  ]

  pub visit-Shifted :
      (o c : Inode) (mode : Option ℕ) (resumed : Bool)
      → Known o mode
      → Stage offset direction o c
      → Shifted offset direction o (visit chown_mode mode offset direction resumed c)
  unfolding visit
  visit-Shifted o c mode resumed k s =
      let (t, owned) = own-Stage o c resumed s in
      remode-Shifted o c (own chown_mode offset direction resumed c) mode k
        (mode_of offset direction o c s) s.0 t owned
