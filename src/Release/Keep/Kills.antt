-- ===== src/Release/Keep/Kills.antt =====
-- src/boxmunge/release_keep.py: what a keep that is killed anywhere leaves, and the steps of its
-- undoing on that.
use boxmunge.Prelude.{
  ℕ, zero, suc, String, ◌≡◌, refl, ◌⊎◌, inl, inr, true, not, ◌||◌, Option, none, some, List, [],
  ◌∷◌, arith, if◌then◌else◌, is_some,
}
use boxmunge.Release.Keep.{Releases, keep_steps, killed, Step}
use boxmunge.Release.Txn.{InstallTxn}

abbrev pub Safe : {A : Type 0} → Option A → Option A → Option A → Type 0
Safe none now aside = aside ≡ none
Safe (some a) now aside = (aside ≡ some a) ⊎ ((aside ≡ none) × (now ≡ some a))

pub Safe-start : {A : Type 0} (before aside : Option A) → aside ≡ none → Safe before before aside
Safe-start none aside h = h
Safe-start (some a) aside h = inr (h, refl)

module _ {Code : Type 0} where
  pub record Restorable (before r : Releases Code) : Type 0 where
    pub code : Safe before.previous r.previous r.superseded
    pub meta : Safe before.previous_json r.previous_json r.superseded_json

  -- An install that found `before`, with nothing set aside yet.
  pub record Opened (txn : InstallTxn) (before : Releases Code) : Type 0 where
    pub had : txn.had_previous ≡ is_some before.previous
    pub had_meta : is_some txn.previous_before ≡ is_some before.previous_json
    pub unaside : before.superseded ≡ none
    pub unaside_meta : before.superseded_json ≡ none

  start-Restorable :
      (txn : InstallTxn) (before : Releases Code) → Opened txn before → Restorable before before
  start-Restorable txn before o = record {
    code = Safe-start _ _ o.unaside;
    meta = Safe-start _ _ o.unaside_meta;
  }

  -- A property that holds before each step that is reached, and at the end.
  abbrev pub Always : (Releases Code → Type 0) → List (Step Code) → Releases Code → Type 0
  Always P [] r = P r
  Always P (step ∷ steps) r = P r × elim (step r) [ none ↦ Unit {0} | some r' ↦ Always P steps r' ]

  stepped :
      (P : Releases Code → Type 0) (k : ℕ) (steps : List (Step Code)) (r : Releases Code)
      (o : Option (Releases Code))
      → P r
      → elim o as (λ _. Type 0) [ none ↦ Unit {0} | some r' ↦ Always P steps r' ]
      → ((r' : Releases Code) → Always P steps r' → P (killed k steps r'))
      → P (elim o [ none ↦ r | some r' ↦ killed k steps r' ])
  stepped P k steps r none p h go = p
  stepped P k steps r (some r') p h go = go r' h

  pub killed-Always :
      (P : Releases Code → Type 0) (k : ℕ) (steps : List (Step Code)) (r : Releases Code)
      → Always P steps r
      → P (killed k steps r)
  unfolding killed
  killed-Always P zero [] r h = h
  killed-Always P zero (step ∷ steps) r h = h.0
  killed-Always P (suc k) [] r h = h
  killed-Always P (suc k) (step ∷ steps) r h =
      stepped P k steps r (step r) h.0 h.1 (λ r' h'. killed-Always P k steps r' h')

  abbrev pub at_rest : Option Code → Option Code → Option String → Releases Code
  at_rest building code meta = record {
    building = building;
    previous = code;
    previous_json = meta;
    superseded = none;
    superseded_json = none;
  }

  pub keep-Always :
      (live : Code) (text : String) (building code : Option Code) (meta : Option String)
      → Always
          (Restorable (at_rest building code meta))
          (keep_steps live text)
          (at_rest building code meta)
  unfolding keep_steps
  keep-Always live text building none none = ground arith
  keep-Always live text building none (some m) = ground arith
  keep-Always live text building (some c) none = ground arith
  keep-Always live text building (some c) (some m) = ground arith

-- One step of the undoing, on what stands under a name and what is aside.
module _ {A : Type 0} where
  pub dropped :
      (before now aside : Option A)
      → Safe before now aside
      → let now' = if is_some aside || not (is_some before) then none else now in
        Safe before now' aside
        × ((aside ≡ none) → now' ≡ before)
        × (is_some aside ≡ true → now' ≡ none)
  dropped none now aside h = rw h (refl, (λ _. refl), λ k. cc)
  dropped (some a) now aside (inl h) = rw h (inl refl, (λ k. cc), λ _. refl)
  dropped (some a) now aside (inr (h, k)) = rw (h, k) (inr (refl, refl), (λ _. refl), λ l. cc)

  pub put_back_eq :
      (R : Type 0) (mk : Option A → Option A → R) (before now aside : Option A)
      → Safe before now aside
      → (aside ≡ none → now ≡ before)
      → (is_some aside ≡ true → now ≡ none)
      → (elim aside as (λ _. Option R) [
        | none ↦ some (mk now aside)
        | some a ↦ if is_some now then none else some (mk (some a) none)
      ])
        ≡ some (mk before none)
  put_back_eq R mk none now aside h k l = rw h (λ i. some (mk (k h i) (h i)))
  put_back_eq R mk (some a) now aside (inl h) k l = rw (h, l (rw h))
  put_back_eq R mk (some a) now aside (inr (h, e)) k l = rw h (λ i. some (mk (e i) (h i)))

  pub put_over_eq :
      (R : Type 0) (mk : Option A → Option A → R) (before now aside : Option A)
      → Safe before now aside
      → (aside ≡ none → now ≡ before)
      → (elim aside as (λ _. Option R) [
        | none ↦ some (mk now aside)
        | some a ↦ some (mk (some a) none)
      ])
        ≡ some (mk before none)
  put_over_eq R mk none now aside h k = rw h (λ i. some (mk (k h i) (h i)))
  put_over_eq R mk (some a) now aside (inl h) k = rw h
  put_over_eq R mk (some a) now aside (inr (h, e)) k = rw h (λ i. some (mk (e i) (h i)))
