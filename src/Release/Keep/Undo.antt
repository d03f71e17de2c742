-- ===== src/Release/Keep/Undo.antt =====
-- src/boxmunge/release_keep.py: a keep killed anywhere is undone by restore_superseded, itself
-- killed any number of times.
use boxmunge.Prelude.{
  ℕ, zero, suc, String, ◌≡◌, refl, true, not, ◌||◌, Option, none, some, List, [], ◌∷◌,
  if◌then◌else◌, is_some, subst, sym, Bool, ap, ◌∙◌,
}
use boxmunge.Release.Keep.{
  Releases, killed, keep_steps, Step, restore_steps, run, discard_building, drop_kept, put_back,
  drop_kept_meta, put_meta_back,
}
use boxmunge.Release.Txn.{InstallTxn}
use Keep.{false}
use boxmunge.Release.Keep.Kills.{
  Opened, Restorable, at_rest, dropped, Safe, killed-Always, Safe-start, keep-Always, put_back_eq,
  put_over_eq,
}
use boxmunge.Release.Keep

-- What was there under a name is there, aside or in place; where nothing was, anything that the
-- keep put there may stand.

module _ {Code : Type 0} where
  -- The install is undone: the code and the metadata that were there are in place again, and
  -- nothing else is left.
  pub record Undone (before r : Releases Code) : Type 0 where
    pub building : r.building ≡ none
    pub previous : r.previous ≡ before.previous
    pub previous_json : r.previous_json ≡ before.previous_json
    pub superseded : r.superseded ≡ none
    pub superseded_json : r.superseded_json ≡ none

  -- Every step goes through, with a property before each, and another one at the end.
  abbrev Through :
      (Releases Code → Type 0)
      → (Releases Code → Type 0)
      → List (Step Code)
      → Releases Code
      → Type 0
  Through P Q [] r = P r × Q r
  Through P Q (step ∷ steps) r =
      P r × elim (step r) as (λ _. Type 0) [ none ↦ ⊥ | some r' ↦ Through P Q steps r' ]

  through :
      (P Q : Releases Code → Type 0) (step : Step Code) (steps : List (Step Code))
      (r r' : Releases Code)
      → P r
      → step r ≡ some r'
      → Through P Q steps r'
      → Through P Q (step ∷ steps) r
  through P Q step steps r r' p e t = (
    p,
    subst (λ o. elim o as (λ _. Type 0) [ none ↦ ⊥ | some r' ↦ Through P Q steps r' ]) (sym e) t,
  )

  if_some :
      {A : Type 0} (b : Bool) (f : A → Releases Code) (x y : A)
      → (if b then some (f x) else some (f y)) ≡ some (f (if b then x else y))
  if_some true f x y = refl
  if_some false f x y = refl

  next :
      (P Q : Releases Code → Type 0) (steps : List (Step Code)) (o : Option (Releases Code))
      → elim o as (λ _. Type 0) [ none ↦ ⊥ | some r' ↦ Through P Q steps r' ]
      → (r' : Releases Code) × (o ≡ some r') × Through P Q steps r'
  next P Q steps none t = absurd t
  next P Q steps (some r') t = (r', refl, t)

  run_next :
      (step : Step Code) (steps : List (Step Code)) (r r' : Releases Code)
      → step r ≡ some r'
      → run (step ∷ steps) r ≡ run steps r'
  unfolding run
  run_next step steps r r' e =
      ap (λ o. elim o as (λ _. Bool × Releases Code) [ none ↦ (false, r) | some x ↦ run steps x ]) e

  Through-run :
      (P Q : Releases Code → Type 0) (steps : List (Step Code)) (r : Releases Code)
      → Through P Q steps r
      → (r' : Releases Code) × (run steps r ≡ (true, r')) × Q r'
  unfolding run
  Through-run P Q [] r (p, q) = (r, refl, q)
  Through-run P Q (step ∷ steps) r (p, t) =
      let (r₁, e, t₁) = next P Q steps (step r) t in
      let (r₂, ran, q) = Through-run P Q steps r₁ t₁ in (r₂, run_next step steps r r₁ e ∙ ran, q)

  Through-killed :
      (P Q : Releases Code → Type 0) (k : ℕ) (steps : List (Step Code)) (r : Releases Code)
      → Through P Q steps r
      → P (killed k steps r)
  unfolding killed
  Through-killed P Q zero [] r t = t.0
  Through-killed P Q zero (step ∷ steps) r t = t.0
  Through-killed P Q (suc k) [] r t = t.0
  Through-killed P Q (suc k) (step ∷ steps) r (p, t) =
      let (r₁, e, t₁) = next P Q steps (step r) t in rw e (Through-killed P Q k steps r₁ t₁)

  restore-Through :
      (txn : InstallTxn) (before r : Releases Code)
      → txn.had_previous ≡ is_some before.previous
      → is_some txn.previous_before ≡ is_some before.previous_json
      → Restorable before r
      → Through (Restorable before) (Undone before) (restore_steps txn) r
  unfolding restore_steps
  restore-Through txn before r had had_meta s =
      let (code, kept, gone) = dropped before.previous r.previous r.superseded s.code in
      let (meta, kept_meta, gone_meta) =
        dropped before.previous_json r.previous_json r.superseded_json s.meta in
      let now =
        if is_some r.superseded || not (is_some before.previous) then none else r.previous in
      let now_meta =
        if is_some r.superseded_json || not (is_some before.previous_json)
        then none
        else r.previous_json in
      let r₁ = record r { building = none } in
      let r₂ = record r₁ { previous = now } in
      let r₃ = record r₂ { previous = before.previous; superseded = none } in
      let r₄ = record r₃ { previous_json = now_meta } in
      let r₅ = record r₄ { previous_json = before.previous_json; superseded_json = none } in
      let start : Safe before.previous before.previous none =
        Safe-start before.previous none refl in
      through (Restorable before) (Undone before) discard_building
        (drop_kept txn.had_previous
          ∷ put_back
          ∷ drop_kept_meta txn.previous_before
          ∷ put_meta_back
          ∷ [])
        r r₁ s refl
        (through (Restorable before) (Undone before) (drop_kept txn.had_previous)
          (put_back ∷ drop_kept_meta txn.previous_before ∷ put_meta_back ∷ []) r₁ r₂
          (record { code = s.code; meta = s.meta })
          (ap
              (λ b.
                if is_some r.superseded || not b
                then some (record r₁ { previous = none })
                else some r₁)
              had
            ∙ if_some (is_some r.superseded || not (is_some before.previous))
                (λ (x : Option Code). record r₁ { previous = x }) none r.previous)
          (through (Restorable before) (Undone before) put_back
            (drop_kept_meta txn.previous_before ∷ put_meta_back ∷ []) r₂ r₃
            (record { code = code; meta = s.meta })
            (put_back_eq (Releases Code) (λ x y. record r₂ { previous = x; superseded = y })
              before.previous now r.superseded code kept gone)
            (through (Restorable before) (Undone before) (drop_kept_meta txn.previous_before)
              (put_meta_back ∷ []) r₃ r₄ (record { code = start; meta = s.meta })
              (ap
                  (λ b.
                    if is_some r.superseded_json || not b
                    then some (record r₃ { previous_json = none })
                    else some r₃)
                  had_meta
                ∙ if_some (is_some r.superseded_json || not (is_some before.previous_json))
                    (λ (x : Option String). record r₃ { previous_json = x }) none r.previous_json)
              (through (Restorable before) (Undone before) put_meta_back [] r₄ r₅
                (record { code = start; meta = meta })
                (put_over_eq (Releases Code)
                  (λ x y. record r₄ { previous_json = x; superseded_json = y }) before.previous_json
                  now_meta r.superseded_json meta kept_meta)
                (
                  record { code = start; meta = Safe-start before.previous_json none refl },
                  record {
                    building = refl;
                    previous = refl;
                    previous_json = refl;
                    superseded = refl;
                    superseded_json = refl;
                  },
                )))))

  -- What is left once the keep was killed, and each undoing after it as well.
  pub data Crashed (txn : InstallTxn) (before : Releases Code) (live : Code) (text : String)
      : Releases Code → Type 0 where
    keep_killed : (k : ℕ) → Crashed txn before live text (killed k (keep_steps live text) before)
    undo_killed :
        {r : Releases Code}
        → Crashed txn before live text r
        → (k : ℕ) → Crashed txn before live text (killed k (restore_steps txn) r)

  module _ (txn : InstallTxn) (before : Releases Code) (o : Opened txn before) (live : Code)
      (text : String) where
    keep_killed-Restorable : (k : ℕ) → Restorable before (killed k (keep_steps live text) before)
    keep_killed-Restorable k =
        subst (λ b. Restorable b (killed k (keep_steps live text) b)) rest
          (killed-Always (Restorable (at_rest before.building before.previous before.previous_json))
            k (keep_steps live text) _
            (keep-Always live text before.building before.previous before.previous_json))
      where
        rest : at_rest before.building before.previous before.previous_json ≡ before
        rest =
            sym
              (λ i. record before { superseded = o.unaside i; superseded_json = o.unaside_meta i })

    pub Crashed-Restorable :
        {r : Releases Code} → Crashed txn before live text r → Restorable before r
    Crashed-Restorable (keep_killed k) = keep_killed-Restorable k
    Crashed-Restorable (undo_killed {r} c k) =
        Through-killed (Restorable before) (Undone before) k (restore_steps txn) r
          (restore-Through txn before r o.had o.had_meta (Crashed-Restorable c))

    -- Where the install found nothing set aside: wherever its keep was killed, and however often
    -- the undoing was, the undoing that runs to its end goes through and leaves the previous
    -- release and its previous.json as the install found them, with nothing set aside.
    pub restore_superseded-undoes :
        (r : Releases Code)
        → Crashed txn before live text r
        → (r' : Releases Code) × (run (restore_steps txn) r ≡ (true, r')) × Undone before r'
    restore_superseded-undoes r c =
        Through-run (Restorable before) (Undone before) (restore_steps txn) r
          (restore-Through txn before r o.had o.had_meta (Crashed-Restorable c))
