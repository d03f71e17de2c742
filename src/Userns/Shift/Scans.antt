-- ===== src/Userns/Shift/Scans.antt =====
-- src/boxmunge/userns/shift.py: what a scan says of a tree whose shift was begun before.
use boxmunge.Prelude.{
  ℕ, ◌≤◌, String, ◌≡◌, refl, sym, ap, ◌∙◌, ◌⊎◌, inl, inr, Bool, true, false, not, List, [], ◌∷◌,
  ◌++◌, arith, ltb, if◌then◌else◌, is_some, length, Dict,
}
use boxmunge.Userns.Shift
use boxmunge.Userns.Shift.Stages.{Kept, Stage, uid_of, gid_of, mode_of}
use boxmunge.Userns.Shift.Modes.{target, loses, cleared-loses}
use boxmunge.Userns.Shift.{
  Direction, Problem, range, Inode, entry_problems, new_id, opened_problems, forward, id_problems,
  when, Fs, has_links, links_of, loses_mode, max_setid, scan_problems, scan_setid, walk_problems,
  Tree, too_many_setid, unreachable, link_problems,
}
use Shift.{inverse}
use mathlib.Core.Bool.{false≢true}

pub append-nil_iff : (a b : List Problem) → a ++ b ≡ [] → (a ≡ []) × (b ≡ [])
append-nil_iff [] b h = (refl, h)
append-nil_iff (p ∷ a) b h = cc

append-nil : {a b : List Problem} → a ≡ [] → b ≡ [] → a ++ b ≡ []
append-nil h k = rw (h, k)

opened_problems-Stage :
    (rel : String) (o c : Inode) → Kept o c → opened_problems rel c ≡ opened_problems rel o
unfolding opened_problems
opened_problems-Stage rel o c kept = rw (kept.kind, kept.xattrs, kept.immutable, kept.append_only)

new_id-again :
    (offset o c : ℕ) (resumed : Bool)
    → range ≤ offset
    → (c ≡ o) ⊎ (c ≡ target offset forward o)
    → is_some (new_id o offset forward resumed) ≡ true
    → is_some (new_id c offset forward true) ≡ true
unfolding new_id
new_id-again offset o c resumed aligned h k = ground arith

pub when-not-nil : (b : Bool) (p : Problem) → when (not b) p ≡ [] → b ≡ true
when-not-nil true p h = refl
when-not-nil false p h = cc

id_problems-Stage :
    (offset : ℕ) (direction : Direction) (aligned : range ≤ offset) (rel : String) (o c : Inode)
    (resumed : Bool)
    → Stage offset direction o c
    → id_problems rel o offset direction resumed ≡ []
    → id_problems rel c offset direction true ≡ []
unfolding id_problems
id_problems-Stage offset inverse aligned rel o c resumed s h = refl
id_problems-Stage offset forward aligned rel o c resumed s h =
    let (u, g) = append-nil_iff _ _ h in
    let u' =
      new_id-again offset o.uid c.uid resumed aligned (uid_of offset forward o c s)
        (when-not-nil _ _ u) in
    let g' =
      new_id-again offset o.gid c.gid resumed aligned (gid_of offset forward o c s)
        (when-not-nil _ _ g) in
    rw (u', g')

module _ (offset : ℕ) (direction : Direction) (aligned : range ≤ offset) where
  entry_problems-Stage :
      (rel : String) (o c : Inode) (root_dev : ℕ) (resumed : Bool)
      → Stage offset direction o c
      → entry_problems rel o offset direction root_dev resumed ≡ []
      → entry_problems rel c offset direction root_dev true ≡ []
  unfolding entry_problems
  entry_problems-Stage rel o c root_dev resumed s h =
      let (device, rest) = append-nil_iff _ _ h in
      let (other, rest') = append-nil_iff _ _ rest in
      let (ids, shown) = append-nil_iff _ _ rest' in
      append-nil (rw s.0.kind device) (
        append-nil (rw s.0.dev other) (
          append-nil (id_problems-Stage offset direction aligned rel o c resumed s ids)
            (opened_problems-Stage rel o c s.0 ∙ shown)))

loses-loses_mode : (st : Inode) → loses_mode st ≡ true → loses st.mode ≡ true
unfolding loses_mode
loses-loses_mode st h = ground arith

loses_mode-eq : (a b : Inode) → a.kind ≡ b.kind → a.mode ≡ b.mode → loses_mode a ≡ loses_mode b
unfolding loses_mode
loses_mode-eq a b k m = rw (k, m)

length_if_mono :
    (a b : Bool) (x y : String × ℕ) (r q : Dict ℕ)
    → (a ≡ true → b ≡ true)
    → length r ≤ length q
    → length (if a then x ∷ r else r) ≤ length (if b then y ∷ q else q)
length_if_mono true true x y r q h k = omega (arith)
length_if_mono true false x y r q h k = absurd (false≢true (h refl))
length_if_mono false true x y r q h k = omega arith
length_if_mono false false x y r q h k = k

pub if-nil :
    (b : Bool) (p : Problem) (l : List Problem)
    → (if not b then p ∷ [] else l) ≡ []
    → (b ≡ true) × (l ≡ [])
if-nil true p l h = (refl, h)
if-nil false p l h = cc

nil-if :
    (p : Problem) {b : Bool} {l : List Problem}
    → b ≡ true
    → l ≡ []
    → (if not b then p ∷ [] else l) ≡ []
nil-if p h k = rw (h, k)

-- Every inode at a stage of the shift that began at `fs₀`.

module _ (offset : ℕ) (direction : Direction) (fs₀ fs : Fs) where
  abbrev pub StageFs : Type 0
  StageFs = (i : ℕ) → Stage offset direction (fs₀ i) (fs i)

  pub loses_mode-Stage :
      (o c : Inode) → Stage offset direction o c → loses_mode c ≡ true → loses_mode o ≡ true
  loses_mode-Stage o c s h = elim (mode_of offset direction o c s) [
    | inl m ↦ sym (loses_mode-eq c o s.0.kind m) ∙ h
    | inr m ↦ cc (cleared-loses o.mode, ap loses m, loses-loses_mode c h)
  ]

  length-scan_setid :
      (t : Tree) (names : List String)
      → StageFs
      → length (scan_setid t fs names) ≤ length (scan_setid t fs₀ names)
  unfolding scan_setid
  length-scan_setid t [] s = omega arith
  length-scan_setid t (rel ∷ names) s =
      length_if_mono (loses_mode (fs (t.inode_of rel))) (loses_mode (fs₀ (t.inode_of rel))) _ _ _ _
        (loses_mode-Stage (fs₀ (t.inode_of rel)) (fs (t.inode_of rel)) (s (t.inode_of rel)))
        (length-scan_setid t names s)

  pub has_links-Stage : (i : ℕ) → StageFs → has_links (fs i) ≡ has_links (fs₀ i)
  has_links-Stage i s = rw ((s i).0.kind, (s i).0.nlink)

  links_of-Stage :
      (t : Tree) (names : List String) (links : List (ℕ × String × ℕ × ℕ))
      → StageFs
      → links_of t fs names links ≡ links_of t fs₀ names links
  unfolding links_of
  links_of-Stage t [] links s = refl
  links_of-Stage t (rel ∷ names) links s =
      rw ((s (t.inode_of rel)).0.kind, (s (t.inode_of rel)).0.nlink) (links_of-Stage t names _ s)

  walk_problems-Stage :
      (t : Tree) (aligned : range ≤ offset) (root_dev : ℕ) (resumed : Bool) (names : List String)
      → StageFs
      → walk_problems t fs₀ offset direction root_dev resumed names ≡ []
      → walk_problems t fs offset direction root_dev true names ≡ []
  unfolding walk_problems
  walk_problems-Stage t aligned root_dev resumed [] s h = refl
  walk_problems-Stage t aligned root_dev resumed (rel ∷ names) s h =
      let (first, rest) = append-nil_iff _ _ h in
      append-nil
        (entry_problems-Stage offset direction aligned rel (fs₀ (t.inode_of rel))
          (fs (t.inode_of rel)) root_dev resumed (s (t.inode_of rel)) first)
        (walk_problems-Stage t aligned root_dev resumed names s rest)

  count-Stage :
      (n m : ℕ)
      → m ≤ n
      → when (ltb max_setid n) (too_many_setid n) ≡ []
      → when (ltb max_setid m) (too_many_setid m) ≡ []
  count-Stage n m h k = ground arith

  -- What passed the scan before the shift began passes it again as a resumed one.
  pub scan_problems-Stage :
      (t : Tree) (aligned : range ≤ offset) (resumed : Bool)
      → StageFs
      → scan_problems t fs₀ offset direction resumed ≡ []
      → scan_problems t fs offset direction true ≡ []
  unfolding scan_problems
  scan_problems-Stage t aligned resumed s h =
      let (reached, found) = if-nil _ _ _ h in
      let (mounts, rest) = append-nil_iff _ _ found in
      let (walked, rest') = append-nil_iff _ _ rest in
      let (linked, counted) = append-nil_iff _ _ rest' in
      nil-if unreachable reached (
        append-nil mounts (
          append-nil
            (ap (λ d. walk_problems t fs offset direction d true t.names) (s t.root_inode).0.dev
              ∙ walk_problems-Stage t aligned _ resumed t.names s walked)
            (append-nil (ap link_problems (links_of-Stage t t.names [] s) ∙ linked)
              (count-Stage _ _ (length-scan_setid t t.names s) counted))))
