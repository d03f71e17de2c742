-- ===== src/Prelude/Rounding.antt =====
-- How far the rounding of a double's product goes, and what it never passes.
use boxmunge.Prelude.Tests.{ltb, leb, Bool-cases}
use boxmunge.Prelude.Floats.{excess, round_to, float_times}
use Prim.Native.Nat.{ℕ, zero, suc, ◌+◌, ◌-◌, ◌*◌, ◌/◌, ◌^◌, ◌≤◌, ◌<◌}
use mathlib.Core.Path.{◌≡◌, refl, sym, ap, ◌∙◌, subst}
use mathlib.Core.Logic.{◌⊎◌, inl, inr}
use native.Mathlib.Omega.{arith}
use native.Mathlib.Nat.{mod-add-div', mod-lt, mul_assoc, pow-suc, mul-le-mul_right}

excess_small : (fuel p : ℕ) → (excess fuel p ≡ 0) ⊎ (2 ^ excess fuel p * 2 ^ 52 ≤ p)
unfolding excess
excess_small zero p = inl refl
excess_small (suc fuel) p = elim (Bool-cases (ltb p (2 ^ 53))) [
  | inl h ↦ inl (rw h refl)
  | inr h ↦ inr (
      rw h (elim (excess_small fuel (p / 2)) [ inl e ↦ rw e (ground arith) | inr e ↦ grind arith ]))
]

excess_le : (fuel k p : ℕ) → p < 2 ^ 53 * 2 ^ k → excess fuel p ≤ k
unfolding excess
excess_le zero k p h = ground arith
excess_le (suc fuel) zero p h = ground arith
excess_le (suc fuel) (suc k) p h = elim (Bool-cases (ltb p (2 ^ 53))) [
  | inl e ↦ rw e (ground arith)
  | inr e ↦
      let half : p / 2 < 2 ^ 53 * 2 ^ k = omega arith in
      let le = excess_le fuel k (p / 2) half in rw e (ground (arith, le))
]

round_near : (u p : ℕ) → 0 < u → 2 * p ≤ 2 * round_to u p + u
round_near u p h = ground (arith, mod-add-div' p u, mod-lt p h)

round_under : (u p k : ℕ) → 0 < u → p ≤ k * u → round_to u p ≤ k * u
round_under u p k h m = elim (Bool-cases (leb k (p / u))) [
  | inl le ↦
      let up = mul-le-mul_right {m = k} {n = p / u} u (ground (arith, le)) in
      ground (arith, mod-add-div' p u, mod-lt p h, up)
  | inr lt ↦
      let up = mul-le-mul_right {m = p / u + 1} {n = k} u (ground (arith, lt)) in
      ground (arith, mod-add-div' p u, up)
]

pow_positive : (e : ℕ) → 0 < 2 ^ e
pow_positive zero = omega arith
pow_positive (suc e) = ground (arith, pow_positive e)

pow_sum : (a e : ℕ) → 2 ^ (a + e) ≡ 2 ^ a * 2 ^ e
pow_sum a zero = let same : a + 0 ≡ a = omega arith in ap (λ n. 2 ^ n) same ∙ omega arith
pow_sum a (suc e) =
    let same : a + suc e ≡ suc (a + e) = omega arith in
    ap (λ n. 2 ^ n) same
    ∙ (pow-suc 2 (a + e)
        ∙ (ap (λ n. n * 2) (pow_sum a e)
            ∙ (mul_assoc (2 ^ a) (2 ^ e) 2 ∙ sym (ap (λ n. 2 ^ a * n) (pow-suc 2 e)))))

round_pow_under :
    (e p count : ℕ) → e ≤ 40 → p ≤ count * 2 ^ 52 → round_to (2 ^ e) p ≤ count * 2 ^ 52
round_pow_under e p count small le =
    let exponent : 52 ≡ 52 - e + e = omega arith in
    let unit = ap (λ n. 2 ^ n) exponent ∙ pow_sum (52 - e) e in
    let same : count * 2 ^ 52 ≡ (count * 2 ^ (52 - e)) * 2 ^ e = ground (arith, unit) in
    subst (λ b. round_to (2 ^ e) p ≤ b) (sym same)
      (round_under (2 ^ e) p (count * 2 ^ (52 - e)) (pow_positive e) (subst (λ b. p ≤ b) same le))

round_pow_near :
    (e p : ℕ) → (e ≡ 0) ⊎ (2 ^ e * 2 ^ 52 ≤ p) → 2 ^ 53 * p ≤ 2 ^ 53 * round_to (2 ^ e) p + p
round_pow_near e p small =
    let near = round_near (2 ^ e) p (pow_positive e) in close (round_to (2 ^ e) p) near small
  where
    close :
        (r : ℕ)
        → 2 * p ≤ 2 * r + 2 ^ e
        → (e ≡ 0) ⊎ (2 ^ e * 2 ^ 52 ≤ p)
        → 2 ^ 53 * p ≤ 2 ^ 53 * r + p
    close r near (inl zero_bits) =
        let le = subst (λ n. 2 * p ≤ 2 * r + 2 ^ n) zero_bits near in omega arith
    close r near (inr unit) = omega arith

-- What stays below a count of 2 ^ 52 units is not rounded past it, for products below 2 ^ 93.
pub float_times_under :
    (m n count : ℕ) → m * n < 2 ^ 93 → m * n ≤ count * 2 ^ 52 → float_times m n ≤ count * 2 ^ 52
unfolding float_times
float_times_under m n count small le =
    round_pow_under (excess 64 (m * n)) (m * n) count (excess_le 64 40 (m * n) small) le

-- The rounding takes at most a part in 2 ^ 53 away.
pub float_times_near : (m n : ℕ) → 2 ^ 53 * (m * n) ≤ 2 ^ 53 * float_times m n + m * n
unfolding float_times
float_times_near m n = round_pow_near (excess 64 (m * n)) (m * n) (excess_small 64 (m * n))
