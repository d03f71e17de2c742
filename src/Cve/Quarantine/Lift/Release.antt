-- ===== src/Cve/Quarantine/Lift/Release.antt =====
-- What restart_hold.release leaves: every policy its original, or on a failure none lost.
use boxmunge.Prelude.{
  String, ◌≡◌, refl, sym, ◌∙◌, ◌⊎◌, inl, inr, Bool, true, false, Option, none, some, List, [], ◌∷◌,
  arith, eq_iff, if◌then◌else◌, Bool-cases, any, All, Dict, lookup, keys, str_eq, str_le, elem,
  sorted, All-sorted, any-sorted, elem-sorted, subst, ap,
}
use boxmunge.Cve.Quarantine.{
  World, Failure, Outcome, done, failed, updated, reached_of, set_restart_policy, then_do,
  cannot_restore,
}
use boxmunge.Cve.Quarantine.Safe.{SavedOk, Kept, updated-lookup, put_policy}
use boxmunge.Cve.Quarantine.Lift.{
  LiftFaults, group_names, set_groups, release, by_policy, raised_as,
}
use boxmunge.Cve.Quarantine.Lift.Groups.{in_group, GroupOk, group_names-GroupOk, group_names-in}
use boxmunge.Cve.Quarantine.History.{Ends, if-Ends}

put_either :
    (o : Option String) (b : Bool) (q p : String)
    → (if b then put_policy q o else o) ≡ some p
    → ((b ≡ true) × (q ≡ p)) ⊎ ((b ≡ false) × (o ≡ some p))
put_either o false q p e = inr (refl, e)
put_either none true q p e = cc
put_either (some r) true q p e = inl (refl, cc)

elem-reached_of :
    (n : String) (changed xs : List String)
    → elem n (reached_of changed xs) ≡ true
    → elem n xs ≡ true
unfolding elem
elem-reached_of n changed [] h = h
elem-reached_of n changed (x ∷ xs) h = elim (Bool-cases (elem x changed)) [
  | inl e ↦ ground (arith, elem-reached_of n changed xs)
  | inr e ↦ ground (arith, elem-reached_of n changed xs)
]

-- Giving the policy to some of the group's containers.
updated-Kept :
    (original : String → String) (saved policies : Dict String) (policy : String)
    (names changed : List String)
    → GroupOk original (policy, names)
    → ((n : String) → elem n changed ≡ true → elem n names ≡ true)
    → Kept original saved policies
    → Kept original saved (updated changed policy policies)
updated-Kept original saved policies policy names changed g sub kept n p e =
    elim (put_either (lookup n policies) (elem n changed) policy p
      (sym (updated-lookup n policy changed policies) ∙ e)) [
        | inl (i, same) ↦ inl (sym same ∙ g n (sub n i))
        | inr (_, l) ↦ kept n p l
      ]

-- What the groups leave: a container has its original, or is in no group and as it was.
abbrev Left : (String → String) → List (String × List String) → Dict String → Dict String → Type 0
Left original groups before after =
    (n p : String)
    → lookup n after ≡ some p
    → (p ≡ original n) ⊎ ((any (in_group n) groups ≡ false) × (lookup n before ≡ some p))

abbrev pub Same : World → World → Type 0
Same w u = (u.record_file ≡ w.record_file) × (u.live ≡ w.live)

abbrev pub Part : (String → String) → Dict String → World → World → Type 0
Part original saved w u = (u.record_file ≡ w.record_file) × Kept original saved u.policies

step-Left :
    (original : String → String) (policy : String) (names : List String)
    (groups : List (String × List String)) (before after : Dict String)
    → GroupOk original (policy, names)
    → Left original groups (updated (sorted str_le names) policy before) after
    → Left original ((policy, names) ∷ groups) before after
step-Left original policy names groups before after g h n p e = elim (h n p e) [
  | inl same ↦ inl same
  | inr (out, l) ↦
      elim (put_either (lookup n before) (elem n (sorted str_le names)) policy p
        (sym (updated-lookup n policy (sorted str_le names) before) ∙ l)) [
          | inl (i, same) ↦ inl (sym same ∙ g n (sym (elem-sorted n names) ∙ i))
          | inr (i, was) ↦ inr (ground (arith, elem-sorted n names), was)
        ]
]

abbrev GroupsEnd :
    (String → String) → Dict String → List (String × List String) → World → Outcome → Type 0
GroupsEnd original saved groups w o =
    Ends (λ u. Same w u × Left original groups w.policies u.policies) (Part original saved w) o

abbrev given : String → List String → World → World
given policy names w = record w { policies = updated (sorted str_le names) policy w.policies }

given-Kept :
    (original : String → String) (saved : Dict String) (policy : String) (names : List String)
    (w : World)
    → GroupOk original (policy, names)
    → Kept original saved w.policies
    → Kept original saved (given policy names w).policies
given-Kept original saved policy names w g k =
    updated-Kept original saved w.policies policy names (sorted str_le names) g
      (λ n i. sym (elem-sorted n names) ∙ i) k

extend-end :
    (original : String → String) (saved : Dict String) (policy : String) (names : List String)
    (rest : List (String × List String)) (w : World) (o : Outcome)
    → GroupOk original (policy, names)
    → GroupsEnd original saved rest (given policy names w) o
    → GroupsEnd original saved ((policy, names) ∷ rest) w o
extend-end original saved policy names rest w (done u) g (s, l) =
    (s, step-Left original policy names rest w.policies u.policies g l)
extend-end original saved policy names rest w (failed e u) g h = h

failed_group-end :
    (original : String → String) (saved : Dict String) (changed : List String)
    (faults : List (Option (List String))) (policy : String) (names : List String)
    (rest : List (String × List String)) (w : World) (xs : List String)
    → sorted str_le names ≡ xs
    → GroupOk original (policy, names)
    → Kept original saved w.policies
    → let w2 = given policy names w in
      GroupsEnd original saved rest w2 (set_groups faults rest w2)
      → GroupsEnd original saved
          ((policy, names) ∷ rest)
          w
          (then_do (set_restart_policy (some changed) xs policy w) (set_groups faults rest))
failed_group-end original saved changed faults policy names rest w [] e g k tail =
    subst
      (λ ns.
        GroupsEnd original saved ((policy, names) ∷ rest) w
          (set_groups faults rest (record w { policies = updated ns policy w.policies })))
      e
      (extend-end original saved policy names rest w (set_groups faults rest (given policy names w))
        g tail)
failed_group-end original saved changed faults policy names rest w (x ∷ xs) e g k tail = (
  refl,
  updated-Kept original saved w.policies policy names (reached_of changed (x ∷ xs)) g
      (λ m i. sym (elem-sorted m names) ∙ (ap (elem m) e ∙ elem-reached_of m changed (x ∷ xs) i)) k,
)

set_groups-end :
    (original : String → String) (saved : Dict String) (faults : List (Option (List String)))
    (groups : List (String × List String)) (w : World)
    → All (GroupOk original) groups
    → Kept original saved w.policies
    → GroupsEnd original saved groups w (set_groups faults groups w)
unfolding set_groups
set_groups-end original saved [] [] w g k = ((refl, refl), λ n p e. inr (refl, e))
set_groups-end original saved (f ∷ faults) [] w g k = ((refl, refl), λ n p e. inr (refl, e))
set_groups-end original saved [] ((policy, names) ∷ rest) w (g, gs) k =
    let w2 = given policy names w in
    extend-end original saved policy names rest w (set_groups [] rest w2) g
      (set_groups-end original saved [] rest w2 gs (given-Kept original saved policy names w g k))
set_groups-end original saved (none ∷ faults) ((policy, names) ∷ rest) w (g, gs) k =
    let w2 = given policy names w in
    extend-end original saved policy names rest w (set_groups faults rest w2) g (
      set_groups-end original saved faults rest w2 gs
        (given-Kept original saved policy names w g k))
set_groups-end original saved (some changed ∷ faults) ((policy, names) ∷ rest) w (g, gs) k =
    failed_group-end original saved changed faults policy names rest w (sorted str_le names) refl g
      k
      (set_groups-end original saved faults rest (given policy names w) gs
        (given-Kept original saved policy names w g k))

abbrev pub Restored : (String → String) → Dict String → Type 0
Restored original policies = (n p : String) → lookup n policies ≡ some p → p ≡ original n

missed : (b : Bool) (x y z : Option String) → b ≡ false → (if b then x else y) ≡ z → y ≡ z
missed b x y z e h = ground arith

lookup-elem : (n q : String) (m : Dict String) → lookup n m ≡ some q → elem n (keys m) ≡ true
unfolding lookup elem
lookup-elem n q [] h = cc
lookup-elem n q ((k, v) ∷ m) h = elim (Bool-cases (str_eq k n)) [
  | inl e ↦ ground (arith, eq_iff k n, eq_iff n k)
  | inr e ↦
      ground (arith, lookup-elem n q m (missed (str_eq k n) (some v) (lookup n m) (some q) e h))
]

raised_as-Ends :
    (P Q : World → Type 0) (e : Failure) (o : Outcome) → Ends P Q o → Ends P Q (raised_as e o)
raised_as-Ends P Q e (done w) h = h
raised_as-Ends P Q e (failed d w) h = h

Ends-done :
    (P R Q : World → Type 0) (o : Outcome) → ((w : World) → P w → R w) → Ends P Q o → Ends R Q o
Ends-done P R Q (done w) k h = k w h
Ends-done P R Q (failed e w) k h = h

grouped-Restored :
    (original : String → String) (saved before after : Dict String)
    → SavedOk original saved
    → Kept original saved before
    → Left original (sorted by_policy (group_names saved before (keys saved) [])) before after
    → Restored original after
grouped-Restored original saved before after ok kept h n p e = elim (h n p e) [
  | inl same ↦ same
  | inr (out, was) ↦ elim (kept n p was) [
    | inl same ↦ same
    | inr (off, s) ↦ elim (Bool-cases (str_eq (original n) p)) [
      | inl same ↦ let (to, _) = eq_iff (original n) p in sym (to same)
      | inr other ↦
          let found =
            group_names-in saved before (keys saved) n (original n) p []
              (lookup-elem n (original n) saved s) s was other in
          absurd (
            cc (
              found,
              out,
              any-sorted by_policy (in_group n) (group_names saved before (keys saved) []),
            ))
    ]
  ]
]

pub release-end :
    (original : String → String) (f : LiftFaults) (saved : Dict String) (w : World)
    → SavedOk original saved
    → Kept original saved w.policies
    → Ends
        (λ u. Same w u × Restored original u.policies)
        (Part original saved w)
        (release f saved w)
unfolding release
release-end original f saved w ok kept =
    let names = group_names saved w.policies (keys saved) [] in
    let groups = sorted by_policy names in
    let P = λ (u : World). Same w u × Restored original u.policies in
    let Q = Part original saved w in
    if-Ends P Q f.list_policies (failed cannot_restore w) _ (refl, kept)
      (raised_as-Ends P Q cannot_restore (set_groups f.updates groups w) (
        Ends-done (λ u. Same w u × Left original groups w.policies u.policies) P Q
          (set_groups f.updates groups w)
          (λ u (s, l). (s, grouped-Restored original saved w.policies u.policies ok kept l))
          (set_groups-end original saved f.updates groups w
            (All-sorted by_policy (GroupOk original) names
              (group_names-GroupOk original saved w.policies (keys saved) [] ok tt))
            kept)))
