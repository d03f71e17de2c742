-- ===== src/Userns/Shift/Kills.antt =====
-- src/boxmunge/userns/shift.py: the walk of a shift, from any stage, whole or killed.
use boxmunge.Prelude.{
  ℕ, zero, suc, ◌≤◌, String, ◌≡◌, refl, sym, ◌∙◌, subst, ◌≢◌, ◌⊎◌, inl, inr, Bool, true, false, not,
  ◌&&◌, List, [], ◌∷◌, arith, eq_iff, eq_refl, ◌==◌, if◌then◌else◌, Bool-cases, Dict, lookup, elem,
}
use boxmunge.Userns.Shift.{Direction, Kind, put, Fs, Tree, Inode, range, has_links, is_linked}
use boxmunge.Userns.Shift.Stages.{Clears, Known, Shifted, Stage, visit-Shifted, own-Stage, Kept}
use boxmunge.Userns.Shift.Scans.{StageFs}
use boxmunge.Userns.Shift.Journalled.{killed_walk}
use boxmunge.Userns.Shift.Walk.{shift_walk, visit, ShiftReport, done, report_of}

-- How far a shift of a tree is: each inode at a stage of it, those without a name in the tree as
-- they were.
pub record Progress (offset : ℕ) (direction : Direction) (t : Tree) (fs₀ fs : Fs) : Type 0 where
  pub stages : StageFs offset direction fs₀ fs
  pub outside :
      (i : ℕ) → ((rel : String) → elem rel t.names ≡ true → t.inode_of rel ≢ i) → fs i ≡ fs₀ i

pub start-Progress :
    (offset : ℕ) (direction : Direction) (t : Tree) (fs₀ : Fs) → Progress offset direction t fs₀ fs₀
start-Progress offset direction t fs₀ = record {
  stages = λ i. (
    record {
      kind = refl;
      dev = refl;
      nlink = refl;
      xattrs = refl;
      immutable = refl;
      append_only = refl;
    },
    inl (refl, refl, refl),
  );
  outside = λ i h. refl;
}

put-other : (fs : Fs) (i j : ℕ) (st : Inode) → j == i ≡ false → put fs i st j ≡ fs j
unfolding put
put-other fs i j st h = rw h

put_self : (fs : Fs) (i j : ℕ) (st : Inode) → j == i ≡ true → put fs i st j ≡ st
unfolding put
put_self fs i j st h = rw h

pub eq_self : (i : ℕ) → i == i ≡ true
eq_self i = ground arith

eq_of : (i j : ℕ) → j == i ≡ true → i ≡ j
eq_of i j h = ground arith

if_both {ℓ} :
    {A : Type 0} (P : A → Type ℓ) (b : Bool) {x y : A} → P x → P y → P (if b then x else y)
if_both P true h k = h
if_both P false h k = k

elem-head : (rel : String) (names : List String) → elem rel (rel ∷ names) ≡ true
unfolding elem
elem-head rel names = rw (eq_refl rel)

pub elem-nil : (rel : String) → elem rel [] ≡ true → ⊥
unfolding elem
elem-nil rel h = cc

pub elem-cons :
    (x rel : String) (names : List String)
    → elem x (rel ∷ names) ≡ true
    → (x ≡ rel) ⊎ (elem x names ≡ true)
unfolding elem
elem-cons x rel names h = ground (arith, eq_iff x rel)

and_not : (a b : Bool) → (a ≡ true → b ≡ true) → (a && not b) ≡ false
and_not true b h = rw (h refl)
and_not false b h = refl

guard_open :
    (i : ℕ) (linked : List (ℕ × String × ℕ × ℕ)) (o c : Inode)
    → Kept o c
    → (has_links o ≡ true → is_linked i linked ≡ true)
    → (has_links c && not (is_linked i linked)) ≡ false
guard_open i linked o c kept h =
    rw (kept.kind, kept.nlink) (and_not (has_links o) (is_linked i linked) h)

elem-tail :
    (x rel : String) (names : List String) → elem x names ≡ true → elem x (rel ∷ names) ≡ true
unfolding elem
elem-tail x rel names m = ground arith

module _ (chown_mode : Kind → ℕ → ℕ) (law : Clears chown_mode) (offset : ℕ) (direction : Direction)
    (aligned : range ≤ offset) (t : Tree) (fs₀ : Fs) (modes : Dict ℕ)
    (known : (rel : String)
      → elem rel t.names ≡ true
      → Known (fs₀ (t.inode_of rel)) (lookup rel modes))
    (linked : List (ℕ × String × ℕ × ℕ)) (resumed : Bool) where
  abbrev walked : Fs → String → Inode
  walked fs rel = visit chown_mode (lookup rel modes) offset direction resumed (fs (t.inode_of rel))

  put-at :
      (P : ℕ → Inode → Type 0) (fs : Fs) (i : ℕ) (st : Inode)
      → P i st
      → (j : ℕ) → P j (fs j)
      → P j (put fs i st j)
  put-at P fs i st h j k = elim (Bool-cases (j == i)) [
    | inl e ↦ subst (P j) (sym (put_self fs i j st e)) (subst (λ n. P n st) (eq_of i j e) h)
    | inr e ↦ subst (P j) (sym (put-other fs i j st e)) k
  ]

  put-Progress :
      (fs : Fs) (rel : String) (st : Inode)
      → elem rel t.names ≡ true
      → Progress offset direction t fs₀ fs
      → Stage offset direction (fs₀ (t.inode_of rel)) st
      → Progress offset direction t fs₀ (put fs (t.inode_of rel) st)
  put-Progress fs rel st m p s = record {
    stages = λ j.
        put-at (λ n c. Stage offset direction (fs₀ n) c) fs (t.inode_of rel) st s j (p.stages j);
    outside = λ j h. elim (Bool-cases (j == t.inode_of rel)) [
      | inl e ↦ absurd (h rel m (eq_of _ j e))
      | inr e ↦ put-other fs (t.inode_of rel) j st e ∙ p.outside j h
    ];
  }

  visited :
      (fs : Fs) (rel : String)
      → elem rel t.names ≡ true
      → Progress offset direction t fs₀ fs
      → Shifted offset direction
          (fs₀ (t.inode_of rel))
          (visit chown_mode (lookup rel modes) offset direction resumed (fs (t.inode_of rel)))
  visited fs rel m p =
      visit-Shifted chown_mode law offset direction aligned _ _ _ resumed (known rel m)
        (p.stages (t.inode_of rel))

  pub killed_walk-Progress :
      (k : ℕ) (names : List String) (fs : Fs)
      → ((rel : String) → elem rel names ≡ true → elem rel t.names ≡ true)
      → Progress offset direction t fs₀ fs
      → Progress offset direction t fs₀
          (killed_walk chown_mode k t modes linked offset direction resumed names fs)
  unfolding killed_walk
  killed_walk-Progress zero names fs sub p = p
  killed_walk-Progress (suc k) [] fs sub p = p
  killed_walk-Progress (suc zero) (rel ∷ names) fs sub p =
      if_both (λ g. Progress offset direction t fs₀ g) _ p
        (put-Progress fs rel _ (sub rel (elem-head rel names)) p
          (own-Stage chown_mode law offset direction aligned _ _ resumed
            (p.stages (t.inode_of rel))).0)
  killed_walk-Progress (suc (suc k)) (rel ∷ names) fs sub p =
      if_both (λ g. Progress offset direction t fs₀ g) _ p
        (killed_walk-Progress k names _ (λ r m. sub r (elem-tail r rel names m))
          (put-Progress fs rel _ (sub rel (elem-head rel names)) p
            (visited fs rel (sub rel (elem-head rel names)) p).0))

  abbrev Ended : Fs → String → Type 0
  Ended fs rel = Shifted offset direction (fs₀ (t.inode_of rel)) (fs (t.inode_of rel))

  named :
      (rel : String) (names : List String) (fs fs' : Fs) (st : Inode)
      → Shifted offset direction (fs₀ (t.inode_of rel)) st
      → ((i : ℕ)
          → Shifted offset direction (fs₀ i) (put fs (t.inode_of rel) st i)
          → Shifted offset direction (fs₀ i) (fs' i))
      → ((x : String) → elem x names ≡ true → Ended fs' x)
      → (x : String) → elem x (rel ∷ names) ≡ true
      → Ended fs' x
  named rel names fs fs' st now keeps rest x m = elim (elem-cons x rel names m) [
    | inl e ↦ subst (Ended fs') (sym e) (
        keeps _ (
          subst (Shifted offset direction (fs₀ (t.inode_of rel)))
            (sym (put_self fs (t.inode_of rel) (t.inode_of rel) st (eq_self _))) now))
    | inr n ↦ rest x n
  ]

  -- A whole walk, from any stage, ends with every named inode shifted.
  pub shift_walk-Shifted :
      ((rel : String)
        → elem rel t.names ≡ true
        → has_links (fs₀ (t.inode_of rel)) ≡ true
        → is_linked (t.inode_of rel) linked ≡ true)
      → (names : List String) (r : ShiftReport) (fs : Fs)
      → ((rel : String) → elem rel names ≡ true → elem rel t.names ≡ true)
      → Progress offset direction t fs₀ fs
      → (r' : ShiftReport) × (fs' : Fs) × (shift_walk chown_mode t modes linked offset direction
            resumed names r fs
          ≡ (done r', fs'))
        × Progress offset direction t fs₀ fs'
        × ((i : ℕ)
            → Shifted offset direction (fs₀ i) (fs i)
            → Shifted offset direction (fs₀ i) (fs' i))
        × ((rel : String)
            → elem rel names ≡ true
            → Shifted offset direction (fs₀ (t.inode_of rel)) (fs' (t.inode_of rel)))
  unfolding shift_walk
  shift_walk-Shifted all_linked [] r fs sub p =
      (r, fs, refl, p, (λ i h. h), λ rel m. absurd (elem-nil rel m))
  shift_walk-Shifted all_linked (rel ∷ names) r fs sub p =
      let m = sub rel (elem-head rel names) in
      let now = visited fs rel m p in
      let fs₁ = put fs (t.inode_of rel) (walked fs rel) in
      let (r', fs', ends, p', keeps, rest) =
        shift_walk-Shifted all_linked names
          (report_of chown_mode rel offset direction resumed (fs (t.inode_of rel)) r) fs₁
          (λ x y. sub x (elem-tail x rel names y)) (put-Progress fs rel _ m p now.0) in
      let stays = λ (i : ℕ) (h : Shifted offset direction (fs₀ i) (fs i)).
        keeps i
          (put-at (λ n c. Shifted offset direction (fs₀ n) c) fs (t.inode_of rel) _ now i h) in
      (
        r',
        fs',
        rw (guard_open (t.inode_of rel) linked _ _ (p.stages (t.inode_of rel)).0 (all_linked rel m))
            ends,
        p',
        stays,
        named rel names fs fs' _ now keeps rest,
      )
