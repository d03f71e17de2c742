-- ===== src/Release/Keep/Meta.antt =====
-- src/boxmunge/release_keep.py: what a keep that is killed anywhere, and its undoing, leave as
-- previous.json.
use boxmunge.Prelude.{
  ℕ, String, ◌≡◌, refl, sym, ap, ◌∙◌, subst, ◌⊎◌, inl, inr, Bool, true, false, not, ◌||◌, Option,
  none, some, List, [], ◌∷◌, arith, if◌then◌else◌, is_some,
}
use boxmunge.Release.Keep.{
  Releases, killed, keep_steps, Step, restore_steps, discard_building, drop_kept, put_back,
  drop_kept_meta, put_meta_back,
}
use boxmunge.Release.Keep.Kills.{Safe, Opened, Always, killed-Always, dropped, at_rest}
use boxmunge.Release.Keep.Undo.{Crashed, Crashed-Restorable, keep_killed, undo_killed}
use boxmunge.Release.Txn.{InstallTxn}

-- The kept text, what was there before, or nothing with what was there set aside.
abbrev pub KeptMeta : Option String → String → Option String → Option String → Type 0
KeptMeta before text now aside =
    (now ≡ some text) ⊎ ((now ≡ before) ⊎ ((now ≡ none) × (aside ≡ before)))

aside_was : (before now : Option String) (m : String) → Safe before now (some m) → some m ≡ before
aside_was none now m h = cc
aside_was (some a) now m (inl h) = h
aside_was (some a) now m (inr (h, k)) = cc

-- Once the kept previous.json is dropped.
back :
    (before aside now : Option String)
    → Safe before now aside
    → (aside ≡ none → now ≡ before)
    → (elim aside [ none ↦ now | some text ↦ some text ]) ≡ before
back before none now s k = k refl
back before (some m) now s k = aside_was before now m s

set_aside :
    (before now aside : Option String) (t : String)
    → Safe before now aside
    → (aside ≡ none → now ≡ before)
    → (is_some aside ≡ true → now ≡ none)
    → KeptMeta before t now aside
set_aside before now none t s k l = inr (inl (k refl))
set_aside before now (some m) t s k l = inr (inr (l refl, aside_was before now m s))

module _ {Code : Type 0} where
  abbrev Meta : Releases Code → String → Releases Code → Type 0
  Meta before text r = KeptMeta before.previous_json text r.previous_json r.superseded_json

  keep-Meta :
      (live : Code) (text : String) (building code : Option Code) (meta : Option String)
      → Always
          (Meta (at_rest building code meta) text)
          (keep_steps live text)
          (at_rest building code meta)
  unfolding keep_steps
  keep-Meta live text building none none = ground arith
  keep-Meta live text building none (some m) = ground arith
  keep-Meta live text building (some c) none = ground arith
  keep-Meta live text building (some c) (some m) = ground arith

  step_Always :
      (P : Releases Code → Type 0) (step : Step Code) (steps : List (Step Code)) (r : Releases Code)
      → P r
      → ((r' : Releases Code) → step r ≡ some r' → Always P steps r')
      → Always P (step ∷ steps) r
  step_Always P step steps r p k = (p, onward (step r) k)
    where
      onward :
          (o : Option (Releases Code))
          → ((r' : Releases Code) → o ≡ some r' → Always P steps r')
          → elim o as (λ _. Type 0) [ none ↦ Unit | some r' ↦ Always P steps r' ]
      onward none k = tt
      onward (some r') k = k r' refl

  abbrev SameMeta : Releases Code → Releases Code → Type 0
  SameMeta r r' = (r'.previous_json ≡ r.previous_json) × (r'.superseded_json ≡ r.superseded_json)

  same_meta : (r r' : Releases Code) → some r ≡ some r' → SameMeta r r'
  same_meta r r' h =
      let e : r' ≡ r = cc in
      (
        ap (λ (x : Releases Code). x.previous_json) e,
        ap (λ (x : Releases Code). x.superseded_json) e,
      )

  drop_kept-SameMeta :
      (b : Bool) (r r' : Releases Code)
      → (if b then some (record r { previous = none }) else some r) ≡ some r'
      → SameMeta r r'
  drop_kept-SameMeta true r r' h = same_meta (record r { previous = none }) r' h
  drop_kept-SameMeta false r r' h = same_meta r r' h

  put_back-SameMeta :
      (o : Option Code) (b : Bool) (r r' : Releases Code)
      → (elim o as (λ _. Option (Releases Code)) [
        | none ↦ some r
        | some code ↦
            if b then none else some (record r { superseded = none; previous = some code })
      ])
        ≡ some r'
      → SameMeta r r'
  put_back-SameMeta none b r r' h = same_meta r r' h
  put_back-SameMeta (some code) true r r' h = cc
  put_back-SameMeta (some code) false r r' h =
      same_meta (record r { superseded = none; previous = some code }) r' h

  moved-Meta :
      (before : Releases Code) (text : String) (r r' : Releases Code)
      → SameMeta r r'
      → Safe before.previous_json r.previous_json r.superseded_json
      → Meta before text r
      → Safe before.previous_json r'.previous_json r'.superseded_json × Meta before text r'
  moved-Meta before text r r' (e, f) s m = (
    subst (λ x. Safe before.previous_json x r'.superseded_json) (sym e)
        (subst (Safe before.previous_json r.previous_json) (sym f) s),
    subst (λ x. KeptMeta before.previous_json text x r'.superseded_json) (sym e)
        (subst (KeptMeta before.previous_json text r.previous_json) (sym f) m),
  )

  -- What stands after drop_kept_meta is what was there, or nothing with that set aside.
  dropped_meta :
      (b : Bool) (r r' : Releases Code)
      → (if b then some (record r { previous_json = none }) else some r) ≡ some r'
      → (r'.previous_json ≡ (if b then none else r.previous_json))
        × (r'.superseded_json ≡ r.superseded_json)
  dropped_meta true r r' h = same_meta (record r { previous_json = none }) r' h
  dropped_meta false r r' h = same_meta r r' h

  put_meta_back-last :
      (o : Option String) (r r' : Releases Code)
      → (elim o as (λ _. Option (Releases Code)) [
        | none ↦ some r
        | some text ↦ some (record r { superseded_json = none; previous_json = some text })
      ])
        ≡ some r'
      → r'.previous_json ≡ (elim o [ none ↦ r.previous_json | some text ↦ some text ])
  put_meta_back-last none r r' h = (same_meta r r' h).0
  put_meta_back-last (some text) r r' h =
      (same_meta (record r { superseded_json = none; previous_json = some text }) r' h).0

  module _ (txn : InstallTxn) (before : Releases Code) (text : String)
      (had_meta : is_some txn.previous_before ≡ is_some before.previous_json) where
    abbrev P : Releases Code → Type 0
    P = Meta before text

    restore_end :
        (r r₁ : Releases Code)
        → Safe before.previous_json r.previous_json r.superseded_json
        → drop_kept_meta txn.previous_before r ≡ some r₁
        → Always P (put_meta_back ∷ []) r₁
    restore_end r r₁ s h =
        let (e, f) =
          dropped_meta (is_some r.superseded_json || not (is_some txn.previous_before)) r r₁ h in
        let (s', k, l) = dropped before.previous_json r.previous_json r.superseded_json s in
        let e' =
          e
          ∙ ap (λ b. if is_some r.superseded_json || not b then none else r.previous_json)
              had_meta in
        let s₁ : Safe before.previous_json r₁.previous_json r₁.superseded_json =
          subst (λ x. Safe before.previous_json x r₁.superseded_json) (sym e')
            (subst (Safe before.previous_json _) (sym f) s') in
        let k₁ : r₁.superseded_json ≡ none → r₁.previous_json ≡ before.previous_json =
          λ q. e' ∙ k (sym f ∙ q) in
        step_Always P put_meta_back [] r₁
          (set_aside before.previous_json r₁.previous_json r₁.superseded_json text s₁ k₁
            (λ q. e' ∙ l (ap is_some (sym f) ∙ q)))
          (λ r₂ h₂. inr (
            inl (
              put_meta_back-last r₁.superseded_json r₁ r₂ h₂
              ∙ back before.previous_json r₁.superseded_json r₁.previous_json s₁ k₁)))

    restore-Meta :
        (r : Releases Code)
        → Safe before.previous_json r.previous_json r.superseded_json
        → P r
        → Always P (restore_steps txn) r
    unfolding restore_steps
    restore-Meta r s m =
        step_Always P discard_building
          (drop_kept txn.had_previous
            ∷ put_back
            ∷ drop_kept_meta txn.previous_before
            ∷ put_meta_back
            ∷ [])
          r m
          (λ r₁ h₁.
            let (s₁, m₁) =
              moved-Meta before text r r₁ (same_meta (record r { building = none }) r₁ h₁) s m in
            step_Always P (drop_kept txn.had_previous)
              (put_back ∷ drop_kept_meta txn.previous_before ∷ put_meta_back ∷ []) r₁ m₁
              (λ r₂ h₂.
                let (s₂, m₂) =
                  moved-Meta before text r₁ r₂
                    (drop_kept-SameMeta (is_some r₁.superseded || not txn.had_previous) r₁ r₂ h₂) s₁
                    m₁ in
                step_Always P put_back (drop_kept_meta txn.previous_before ∷ put_meta_back ∷ []) r₂
                  m₂
                  (λ r₃ h₃.
                    let (s₃, m₃) =
                      moved-Meta before text r₂ r₃
                        (put_back-SameMeta r₂.superseded (is_some r₂.previous) r₂ r₃ h₃) s₂ m₂ in
                    step_Always P (drop_kept_meta txn.previous_before) (put_meta_back ∷ []) r₃ m₃
                      (λ r₄ h₄. restore_end r₃ r₄ s₃ h₄))))

  module _ (txn : InstallTxn) (before : Releases Code) (o : Opened txn before) (live : Code)
      (text : String) where
    keep_killed-Meta : (k : ℕ) → Meta before text (killed k (keep_steps live text) before)
    keep_killed-Meta k =
        subst (λ b. Meta b text (killed k (keep_steps live text) b)) rest
          (killed-Always (Meta (at_rest before.building before.previous before.previous_json) text)
            k (keep_steps live text) _
            (keep-Meta live text before.building before.previous before.previous_json))
      where
        rest : at_rest before.building before.previous before.previous_json ≡ before
        rest =
            sym
              (λ i. record before { superseded = o.unaside i; superseded_json = o.unaside_meta i })

    -- previous.json, wherever the keep and its undoing were killed.
    pub Crashed-Meta :
        {r : Releases Code}
        → Crashed txn before live text r
        → KeptMeta before.previous_json text r.previous_json r.superseded_json
    Crashed-Meta (keep_killed k) = keep_killed-Meta k
    Crashed-Meta (undo_killed {r} c k) = killed-Always (Meta before text) k (restore_steps txn) r (
        restore-Meta txn before text o.had_meta r (Crashed-Restorable txn before o live text c).meta
          (Crashed-Meta c))
