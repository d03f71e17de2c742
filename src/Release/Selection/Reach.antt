-- ===== src/Release/Selection/Reach.antt =====
-- src/boxmunge/release_selection.py: what auto-update may reach.
use boxmunge.Prelude.{
  ℕ, ◌≡◌, refl, sym, ◌∙◌, ◌↔◌, ◌⊎◌, inl, inr, Bool, true, false, not, ◌&&◌, ◌||◌, Option, none,
  some, List, [], ◌∷◌, arith, ◌==◌, if◌then◌else◌, Bool-cases, Option-cases, is_some, keep,
}
use boxmunge.Release.Selection.{
  Release, newer, block_reason, head, on_path, find_blocked, major, select, Mode, is_update,
  accepts, latest, may_install, BlockReason, newest, path_reason, blocked_by, is_latest,
}
use boxmunge.Release.Selection.Versions.{newer_neg_trans, newer-head, not_newer-head}
use Selection.{security_mode, breakfix_mode}
use boxmunge.Release.Selection.Newest.{
  In, first, newest_from-kept, newest_from-max, newest_from-none, not_in_nil, in_cons, later,
}
use boxmunge.Release.Selection

keep_step :
    (b : Bool) (y : Release) (r : List Release)
    → (if b then y ∷ r else r) ≡ []
    → (b ≡ false) × (r ≡ [])
keep_step true y r h = cc
keep_step false y r h = (refl, h)

keep_nil :
    (p : Release → Bool) (rs : List Release)
    → keep p rs ≡ []
    → (x : Release) → In x rs
    → p x ≡ false
keep_nil p [] h x i = absurd (not_in_nil i)
keep_nil p (y ∷ rs) h x i =
    let (no_y, rest) = keep_step (p y) y (keep p rs) h in
    in_cons (λ z. p z ≡ false) y rs no_y (keep_nil p rs rest) x i

nil_keep :
    (p : Release → Bool) (rs : List Release)
    → ((x : Release) → In x rs → p x ≡ false)
    → keep p rs ≡ []
nil_keep p [] h = refl
nil_keep p (y ∷ rs) h = rw (h y first) (nil_keep p rs (λ x i. h x (later i)))

-- A target that auto-update may move to: the major version stays, and no breaking release is on
-- the way to it, the target included.
abbrev pub Reachable : List Release → List ℕ → List ℕ → Type 0
Reachable releases current target =
    (head target ≡ head current)
    × ((b : Release)
        → In b releases
        → b.breaking ≡ true
        → newer b.version current ≡ true
        → newer b.version target ≡ true)

path_of :
    (current target : List ℕ) (b : Release)
    → on_path current target b ≡ false
    → b.breaking ≡ true
    → newer b.version current ≡ true
    → newer b.version target ≡ true
path_of current target b h k l = ground arith

of_path :
    (current target : List ℕ) (b : Release)
    → (b.breaking ≡ true → newer b.version current ≡ true → newer b.version target ≡ true)
    → on_path current target b ≡ false
of_path current target b h = ground arith

unblocked :
    (b : Bool) (rs : List Release) (n : ℕ)
    → (if b then path_reason rs else some (major n)) ≡ none
    → (b ≡ true) × (rs ≡ [])
unblocked true [] n h = (refl, refl)
unblocked true (r ∷ rs) n h = cc
unblocked false rs n h = cc

blocked_not :
    {b : Bool} {rs : List Release} (n : ℕ)
    → b ≡ true
    → rs ≡ []
    → (if b then path_reason rs else some (major n)) ≡ none
blocked_not n h k = rw (h, k)

eq_head : (a b : ℕ) → a == b ≡ true → a ≡ b
eq_head a b h = ground arith

head_eq : (a b : ℕ) → a ≡ b → a == b ≡ true
head_eq a b h = ground arith

-- block_reason gives nothing exactly at the reachable targets.
block_reason_iff :
    (releases : List Release) (current target : List ℕ)
    → (block_reason releases current target ≡ none) ↔ Reachable releases current target
unfolding block_reason
block_reason_iff releases current target = (
  (λ h.
      let (same, none_on) = unblocked _ (keep (on_path current target) releases) (head target) h in
      (
        eq_head _ _ same,
        λ b i k l.
            path_of current target b (keep_nil (on_path current target) releases none_on b i) k l,
      )),
  λ (same, clear).
      blocked_not (head target) (head_eq _ _ same)
        (nil_keep (on_path current target) releases (λ b i. of_path current target b (clear b i))),
)

-- Reachability shrinks as versions rise: what is between the box and a reachable target is
-- reachable.
Reachable-below :
    (releases : List Release) (current lower target : List ℕ)
    → newer lower current ≡ true
    → newer lower target ≡ false
    → Reachable releases current target
    → Reachable releases current lower
Reachable-below releases current lower target above below (same, clear) = (
  omega (arith, newer-head lower current above, not_newer-head lower target below),
  λ b i k l. elim (Bool-cases (newer b.version lower)) [
    | inl e ↦ e
    | inr e ↦ cc (newer_neg_trans b.version lower target e below, clear b i k l)
  ],
)

unblocked_by : (r : Release) (o : Option BlockReason) → blocked_by r o ≡ none → o ≡ none
unblocked_by r none h = refl
unblocked_by r (some reason) h = cc

three_parts : (a b c : Bool) → (a && (b && c)) ≡ true → (a ≡ true) × (b ≡ true) × (c ≡ true)
three_parts a b c h = ground arith

free_of :
    {P : Type 0} (mode : Mode) (o : Option BlockReason)
    → (is_latest mode || not (is_some o)) ≡ true
    → (o ≡ none → P)
    → (mode ≡ latest) ⊎ P
free_of latest o h k = inl refl
free_of security_mode none h k = inr (k refl)
free_of security_mode (some r) h k = cc
free_of breakfix_mode none h k = inr (k refl)
free_of breakfix_mode (some r) h k = cc

update_newer :
    (current : List ℕ) (x : Release) → is_update current x ≡ true → newer x.version current ≡ true
update_newer current x h = ground arith

not_blocked :
    (releases : List Release) (current : List ℕ) (r : Release)
    → newest (is_update current) releases ≡ some r
    → find_blocked releases current ≡ none
    → block_reason releases current r.version ≡ none
unfolding find_blocked
not_blocked releases current r e h =
    unblocked_by r (block_reason releases current r.version) (sym (rw (e, find_blocked)) ∙ h)

kept_release :
    (kept : Release → Bool) (rs : List Release) (r : Release)
    → newest kept rs ≡ some r
    → In r rs × (kept r ≡ true)
kept_release kept rs r h = elim (newest_from-kept kept none rs r h) [ inl e ↦ cc | inr k ↦ k ]

install_parts :
    (releases : List Release) (current : List ℕ) (mode : Mode) (r : Release)
    → may_install releases current mode r ≡ true
    → (accepts mode r.class ≡ true)
      × (newer r.version current ≡ true)
      × ((mode ≡ latest) ⊎ Reachable releases current r.version)
unfolding may_install
install_parts releases current mode r h =
    let (a, n, f) = three_parts _ _ _ h in
    (
      a,
      n,
      free_of mode (block_reason releases current r.version) f
          (block_reason_iff releases current r.version).0,
    )

-- select gives a release of the list of a class that the mode accepts, newer than the box and, in
-- the two auto modes, reachable; no other such release is newer.
pub select_sound :
    (releases : List Release) (current : List ℕ) (mode : Mode) (r : Release)
    → select releases current mode ≡ some r
    → In r releases
      × (accepts mode r.class ≡ true)
      × (newer r.version current ≡ true)
      × ((mode ≡ latest) ⊎ Reachable releases current r.version)
      × ((x : Release)
          → In x releases
          → may_install releases current mode x ≡ true
          → newer x.version r.version ≡ false)
unfolding select
select_sound releases current mode r h =
    let (r_in, ok_r) = kept_release (may_install releases current mode) releases r h in
    let (accepted, above, free) = install_parts releases current mode r ok_r in
    (
      r_in,
      accepted,
      above,
      free,
      (newest_from-max (may_install releases current mode) none releases r h).1,
    )

-- Where nothing is reported blocked, every security or break-fix release newer than the box is
-- reachable.
pub find_blocked-none :
    (releases : List Release) (current : List ℕ)
    → find_blocked releases current ≡ none
    → (x : Release) → In x releases
    → is_update current x ≡ true
    → Reachable releases current x.version
find_blocked-none releases current h x i u =
    elim (Option-cases (newest (is_update current) releases)) [
      | inl e ↦ cc ((newest_from-none (is_update current) none releases e).1 x i, u)
      | inr (r, e) ↦
          let free =
            (block_reason_iff releases current r.version).0 (not_blocked releases current r e h) in
          let below = (newest_from-max (is_update current) none releases r e).1 x i u in
          Reachable-below releases current x.version r.version (update_newer current x u) below free
    ]
