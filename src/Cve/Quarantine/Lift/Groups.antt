-- ===== src/Cve/Quarantine/Lift/Groups.antt =====
-- The grouping of the saved policies: nothing that differs is left out, nothing else is in.
use boxmunge.Prelude.{
  String, ◌≡◌, refl, sym, ap, ◌∙◌, subst, inl, inr, Bool, true, false, ◌||◌, Option, none, some,
  List, [], ◌∷◌, ◌++◌, arith, eq_iff, eq_refl, if◌then◌else◌, Bool-cases, get_or_else, any, All,
  Dict, lookup, insert, str_eq, elem,
}
use boxmunge.Cve.Quarantine.Safe.{SavedOk}
use boxmunge.Cve.Quarantine.Lift.{append_name, regroup, group_names}

abbrev pub in_group : String → String × List String → Bool
in_group n (p, names) = elem n names

-- Each name of a group has that group's policy as its original.
abbrev pub GroupOk : (String → String) → String × List String → Type 0
GroupOk original (p, names) = (n : String) → elem n names ≡ true → p ≡ original n

insert-in :
    (n k : String) (v : List String) (m : Dict (List String))
    → elem n v ≡ true
    → any (in_group n) (insert k v m) ≡ true
unfolding insert
insert-in n k v [] h = ground arith
insert-in n k v ((j, w) ∷ m) h = ground (arith, insert-in n k v m h)

insert-keeps :
    (n k : String) (v : List String) (m : Dict (List String))
    → ((old : List String) → lookup k m ≡ some old → elem n old ≡ true → elem n v ≡ true)
    → any (in_group n) m ≡ true
    → any (in_group n) (insert k v m) ≡ true
unfolding insert lookup
insert-keeps n k v [] s h = cc
insert-keeps n k v ((j, w) ∷ m) s h = elim (Bool-cases (str_eq j k)) [
  | inl e ↦ let head : elem n w ≡ true → elem n v ≡ true = s w (rw e refl) in ground (arith, head)
  | inr e ↦ let rest = insert-keeps n k v m (λ old l. s old (rw e l)) in ground (arith, rest)
]

insert-All :
    (P : String × List String → Type 0) (k : String) (v : List String) (m : Dict (List String))
    → All P m
    → P (k, v)
    → All P (insert k v m)
unfolding insert
insert-All P k v [] h p = (p, tt)
insert-All P k v ((j, w) ∷ m) (h, t) p = elim (Bool-cases (str_eq j k)) [
  | inl e ↦ rw e (p, t)
  | inr e ↦ rw e (h, insert-All P k v m t p)
]

names-inj : (a b : List String) → some a ≡ some b → a ≡ b
names-inj a b h = cc

if_hit : (b : Bool) (x y z : Option (List String)) → b ≡ true → (if b then x else y) ≡ z → x ≡ z
if_hit b x y z e h = ground arith

if_miss : (b : Bool) (x y z : Option (List String)) → b ≡ false → (if b then x else y) ≡ z → y ≡ z
if_miss b x y z e h = ground arith

lookup-GroupOk :
    (original : String → String) (k : String) (old : List String) (m : Dict (List String))
    → All (GroupOk original) m
    → lookup k m ≡ some old
    → GroupOk original (k, old)
unfolding lookup
lookup-GroupOk original k old [] h l = cc
lookup-GroupOk original k old ((j, w) ∷ m) (h, t) l = elim (Bool-cases (str_eq j k)) [
  | inl e ↦
      let (to, _) = eq_iff j k in
      let same : w ≡ old =
        names-inj w old (if_hit (str_eq j k) (some w) (lookup k m) (some old) e l) in
      λ n i. sym (to e) ∙ h n (ap (elem n) same ∙ i)
  | inr e ↦
      lookup-GroupOk original k old m t (if_miss (str_eq j k) (some w) (lookup k m) (some old) e l)
]

elem-last :
    (n name : String) (xs : List String) → elem n (xs ++ name ∷ []) ≡ (elem n xs || str_eq n name)
unfolding elem
elem-last n name [] = ground arith
elem-last n name (x ∷ xs) = ground (arith, elem-last n name xs)

append_name-in :
    (policy name : String) (groups : Dict (List String))
    → any (in_group name) (append_name policy name groups) ≡ true
append_name-in policy name groups =
    let old = get_or_else (lookup policy groups) [] in
    insert-in name policy (old ++ name ∷ []) groups
      (ground (arith, elem-last name name old, eq_refl name))

append_name-keeps :
    (policy name n : String) (groups : Dict (List String))
    → any (in_group n) groups ≡ true
    → any (in_group n) (append_name policy name groups) ≡ true
append_name-keeps policy name n groups h =
    let old = get_or_else (lookup policy groups) [] in
    insert-keeps n policy (old ++ name ∷ []) groups
      (λ names l i. elem-last n name old ∙ ground (arith, i, ap (λ o. elem n (get_or_else o [])) l))
      h

extended :
    (original : String → String) (policy name n : String) (o : Option (List String))
    → policy ≡ original name
    → ((old : List String) → o ≡ some old → elem n old ≡ true → policy ≡ original n)
    → elem n (get_or_else o [] ++ name ∷ []) ≡ true
    → policy ≡ original n
unfolding elem
extended original policy name n none p h i =
    let (to, _) = eq_iff n name in p ∙ ap original (sym (to (ground arith)))
extended original policy name n (some old) p h i = elim (Bool-cases (elem n old)) [
  | inl e ↦ h old refl e
  | inr e ↦
      let (to, _) = eq_iff n name in
      p ∙ ap original (sym (to (ground (arith, elem-last n name old))))
]

append_name-GroupOk :
    (original : String → String) (policy name : String) (groups : Dict (List String))
    → policy ≡ original name
    → All (GroupOk original) groups
    → All (GroupOk original) (append_name policy name groups)
append_name-GroupOk original policy name groups p h =
    insert-All (GroupOk original) policy (get_or_else (lookup policy groups) [] ++ name ∷ []) groups
      h
      (λ n i.
        extended original policy name n (lookup policy groups) p
          (λ old l. lookup-GroupOk original policy old groups h l n) i)

regroup-GroupOk :
    (original : String → String) (name : String) (o q : Option String) (groups : Dict (List String))
    → ((p : String) → o ≡ some p → p ≡ original name)
    → All (GroupOk original) groups
    → All (GroupOk original) (regroup name o q groups)
regroup-GroupOk original name none q groups p h = h
regroup-GroupOk original name (some policy) none groups p h = h
regroup-GroupOk original name (some policy) (some present) groups p h =
    elim (Bool-cases (str_eq policy present)) [
      | inl e ↦ rw e h
      | inr e ↦ rw e (append_name-GroupOk original policy name groups (p policy refl) h)
    ]

regroup-keeps :
    (name n : String) (o q : Option String) (groups : Dict (List String))
    → any (in_group n) groups ≡ true
    → any (in_group n) (regroup name o q groups) ≡ true
regroup-keeps name n none q groups h = h
regroup-keeps name n (some policy) none groups h = h
regroup-keeps name n (some policy) (some present) groups h =
    elim (Bool-cases (str_eq policy present)) [
      | inl e ↦ rw e h
      | inr e ↦ rw e (append_name-keeps policy name n groups h)
    ]

pub group_names-GroupOk :
    (original : String → String) (saved present : Dict String) (names : List String)
    (groups : Dict (List String))
    → SavedOk original saved
    → All (GroupOk original) groups
    → All (GroupOk original) (group_names saved present names groups)
unfolding group_names
group_names-GroupOk original saved present [] groups s h = h
group_names-GroupOk original saved present (name ∷ rest) groups s h =
    group_names-GroupOk original saved present rest
      (regroup name (lookup name saved) (lookup name present) groups) s
      (regroup-GroupOk original name (lookup name saved) (lookup name present) groups (s name) h)

group_names-keeps :
    (saved present : Dict String) (names : List String) (n : String) (groups : Dict (List String))
    → any (in_group n) groups ≡ true
    → any (in_group n) (group_names saved present names groups) ≡ true
unfolding group_names
group_names-keeps saved present [] n groups h = h
group_names-keeps saved present (name ∷ rest) n groups h =
    group_names-keeps saved present rest n
      (regroup name (lookup name saved) (lookup name present) groups)
      (regroup-keeps name n (lookup name saved) (lookup name present) groups h)

regroup-in :
    (name policy present : String) (groups : Dict (List String))
    → str_eq policy present ≡ false
    → any (in_group name) (regroup name (some policy) (some present) groups) ≡ true
regroup-in name policy present groups e = rw e (append_name-in policy name groups)

-- A container whose policy is not the saved one is in some group.
pub group_names-in :
    (saved present : Dict String) (names : List String) (n policy p : String)
    (groups : Dict (List String))
    → elem n names ≡ true
    → lookup n saved ≡ some policy
    → lookup n present ≡ some p
    → str_eq policy p ≡ false
    → any (in_group n) (group_names saved present names groups) ≡ true
unfolding group_names elem
group_names-in saved present [] n policy p groups i s q e = cc
group_names-in saved present (name ∷ rest) n policy p groups i s q e =
    let after = regroup name (lookup name saved) (lookup name present) groups in
    elim (Bool-cases (str_eq n name)) [
      | inl same ↦
          let (to, _) = eq_iff n name in
          group_names-keeps saved present rest n after (
            subst
              (λ t. any (in_group n) (regroup t (lookup t saved) (lookup t present) groups) ≡ true)
              (to same) (rw (s, q) (regroup-in n policy p groups e)))
      | inr other ↦ group_names-in saved present rest n policy p after (ground arith) s q e
    ]
