-- ===== src/Cve/Alerting/Keys.antt =====
-- A dict with the keys (CVE, package) of src/boxmunge/cve/alerting.py.
use boxmunge.Prelude.{
  String, ◌≡◌, refl, sym, ap, subst, ◌↔◌, inl, inr, Bool, true, false, ◌&&◌, Option, none, some,
  List, [], ◌∷◌, arith, eq_iff, eq_refl, if◌then◌else◌, Bool-cases, All, str_eq,
}
use mathlib.Core.Path.{ap₂}

abbrev pub Key : Type 0
Key = String × String

abbrev pub Keyed : Type 0 → Type 0
Keyed V = List (Key × V)

abbrev pub same_key : Key → Key → Bool
same_key (a, b) (c, d) = str_eq a c && str_eq b d

pair_path : {a b c d : String} → a ≡ c → b ≡ d → ◌≡◌ {A = Key} (a, b) (c, d)
pair_path h k = ap₂ (λ x y. (x, y)) h k

pub same_key_iff : (j k : Key) → (same_key j k ≡ true) ↔ (j ≡ k)
same_key_iff (a, b) (c, d) = (
  λ h. pair_path (ground (arith, eq_iff a c)) (ground (arith, eq_iff b d)),
  λ h. ground (arith, eq_iff a c, eq_iff b d, ap (λ t. t.0) h, ap (λ t. t.1) h),
)

pub same_key_refl : (k : Key) → same_key k k ≡ true
same_key_refl (a, b) = ground (arith, eq_refl a, eq_refl b)

same_key_comm : (j k : Key) → same_key j k ≡ same_key k j
same_key_comm (a, b) (c, d) = ground (arith, eq_iff a c, eq_iff c a, eq_iff b d, eq_iff d b)

module _ {V : Type 0} where
  unfoldable pub find_key : Key → Keyed V → Option V
  find_key k [] = none
  find_key k ((j, v) ∷ m) = if same_key j k then some v else find_key k m

  unfoldable pub put_key : Key → V → Keyed V → Keyed V
  put_key k v [] = (k, v) ∷ []
  put_key k v ((j, w) ∷ m) = if same_key j k then (k, v) ∷ m else (j, w) ∷ put_key k v m

  pub find-put :
      (k j : Key) (v : V) (m : Keyed V)
      → find_key j (put_key k v m) ≡ (if same_key k j then some v else find_key j m)
  unfolding find_key put_key
  find-put k j v [] = refl
  find-put k j v ((i, w) ∷ m) =
      ground (arith, same_key_iff k j, same_key_iff i k, same_key_iff i j, find-put k j v m)

  -- No key stands twice.
  abbrev pub IsMap : Keyed V → Type 0
  IsMap [] = Unit
  IsMap ((k, v) ∷ m) = (find_key k m ≡ none) × IsMap m

  put_hit :
      (k : Key) (v : V) (j : Key) (w : V) (m : Keyed V)
      → same_key j k ≡ true
      → put_key k v ((j, w) ∷ m) ≡ (k, v) ∷ m
  unfolding put_key
  put_hit k v j w m e = ground arith

  put_miss :
      (k : Key) (v : V) (j : Key) (w : V) (m : Keyed V)
      → same_key j k ≡ false
      → put_key k v ((j, w) ∷ m) ≡ (j, w) ∷ put_key k v m
  unfolding put_key
  put_miss k v j w m e = ground arith

  finds_under :
      (k : Key) (v : V) (j : Key) (w : V) (m : Keyed V)
      → find_key k m ≡ none
      → find_key j m ≡ some w
      → find_key j ((k, v) ∷ m) ≡ some w
  unfolding find_key
  finds_under k v j w m h e = elim (Bool-cases (same_key k j)) [
    | inl s ↦
        let (to, _) = same_key_iff k j in
        let same : find_key k m ≡ find_key j m = ap (λ i. find_key i m) (to s) in cc
    | inr s ↦ ground (arith, s, e)
  ]

  finds_cons :
      (k : Key) (v : V) (m xs : Keyed V)
      → find_key k m ≡ none
      → All (λ e. find_key e.0 m ≡ some e.1) xs
      → All (λ e. find_key e.0 ((k, v) ∷ m) ≡ some e.1) xs
  unfolding find_key
  finds_cons k v m [] h t = tt
  finds_cons k v m ((j, w) ∷ xs) h (e, t) = (finds_under k v j w m h e, finds_cons k v m xs h t)

  pub put-IsMap : (k : Key) (v : V) (m : Keyed V) → IsMap m → IsMap (put_key k v m)
  unfolding put_key find_key
  put-IsMap k v [] h = (refl, tt)
  put-IsMap k v ((j, w) ∷ m) (h, t) = elim (Bool-cases (same_key j k)) [
    | inl e ↦
        let (to, _) = same_key_iff j k in
        subst IsMap (sym (put_hit k v j w m e)) (subst (λ i. find_key i m ≡ none) (to e) h, t)
    | inr e ↦
        subst IsMap (sym (put_miss k v j w m e))
          (ground (arith, find-put k j v m, h, same_key_comm j k), put-IsMap k v m t)
  ]

  -- Every entry is what its key finds.
  pub IsMap-finds : (m : Keyed V) → IsMap m → All (λ e. find_key e.0 m ≡ some e.1) m
  unfolding find_key
  IsMap-finds [] h = tt
  IsMap-finds ((k, v) ∷ m) (h, t) =
      (ground (arith, same_key_refl k), finds_cons k v m m h (IsMap-finds m t))
