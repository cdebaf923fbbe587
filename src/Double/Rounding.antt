-- ===== src/Double/Rounding.antt =====
-- The double nearest to a quotient (`nearest`): it keeps a whole number of at most 53 bits, and
-- where the dividend has at most 53 bits it does not cross a whole number.
use neo_lloyds.Prelude.{
  ℕ, zero, suc, ◌+◌, ◌-◌, ◌*◌, ◌/◌, ◌^◌, ◌≤◌, ◌<◌, ◌≡◌, inl, inr, ◌∙◌, arith, ap, refl,
}
use native.Mathlib.Nat.{
  zero-add, suc-add, pow-zero, pow-suc, div-add-mod, mod-lt, mul-le-mul_right,
  mul-lt-mul_of_pos_right, lt_of_mul-lt-mul_right, le_of_mul-le-mul_right, div-eq_of_lt-le,
  one-le-pow, div-mul-le_self, le-mul_of_pos_right, lt-div-mul-add, mul-pos,
}
use native.Mathlib.Decide.{dec_le}
use neo_lloyds.Double.{excess, round_half_even, nearest}
use neo_lloyds.Double.Excess.{excess_lower, excess_least}

-- Rounding moves a quotient by a half at most.
record IsNear (n d r : ℕ) : Type 0 where
  above : 2 * n ≤ 2 * (r * d) + d
  below : 2 * (r * d) ≤ 2 * n + d

round_half_even-IsNear : (n d : ℕ) → 0 < d → IsNear n d (round_half_even n d)
unfolding round_half_even
round_half_even-IsNear n d h = grind (arith, div-add-mod n d, mod-lt n h)

-- An exact quotient is kept.
IsNear-exact : (n d c r : ℕ) → 0 < d → n ≡ c * d → IsNear n d r → r ≡ c
IsNear-exact n d c r hd e near =
    let lower : c < suc r = lt_of_mul-lt-mul_right d (omega (arith, near.above, e)) in
    let upper : r < suc c = lt_of_mul-lt-mul_right d (omega (arith, near.below, e)) in omega arith

pow-add : (t k : ℕ) → 2 ^ (k + t) ≡ 2 ^ t * 2 ^ k
pow-add t zero = rw zero-add (grind (arith, pow-zero 2))
pow-add t (suc k) = rw suc-add (grind (arith, pow-suc 2 (k + t), pow-suc 2 k, pow-add t k))

-- A power of two below another divides it.
pow-split : (k a : ℕ) → k ≤ a → (t : ℕ) × (2 ^ a ≡ t * 2 ^ k)
pow-split k a h = (2 ^ (a - k), ap (λ (m : ℕ). 2 ^ m) (omega arith) ∙ pow-add (a - k) k)

-- `n / d` is the quotient of `y` and `w`, in units of `u`.
abbrev SameQuotient : ℕ → ℕ → ℕ → ℕ → ℕ → Type 0
SameQuotient n d y w u = n * w ≡ y * u * d

module _ (n d y w u e t r : ℕ) where
  -- Rounded to a multiple of `e`, a divisor of the unit, the quotient does not fall below a
  -- whole number of units that it has reached.
  rounded_from_below :
      0 < w
      → SameQuotient n d y w u
      → u ≡ t * e
      → IsNear n (d * e) r
      → 0 < d
      → 0 < e
      → (q : ℕ) → q * w ≤ y
      → q * u ≤ r * e
  rounded_from_below hw same split near hd he q hq = elim (dec_le (q * u) (r * e)) [
    | yes le ↦ le
    | no gt ↦
        let short : suc r ≤ q * t =
          lt_of_mul-lt-mul_right e (omega (arith, ap (λ (m : ℕ). q * m) split)) in
        let scaled : 2 * (q * u) * (w * d) ≤ (2 * r + 1) * e * (w * d) = omega (
          arith,
          mul-le-mul_right w near.above,
          mul-le-mul_right (u * d) hq,
          ap (λ (m : ℕ). 2 * m) same,
        ) in
        let cancelled = le_of_mul-le-mul_right scaled (mul-pos hw hd) in
        absurd (omega (arith, mul-le-mul_right e short, ap (λ (m : ℕ). q * m) split, cancelled))
  ]

  -- Nor does it reach the next one, where `e` is short.
  rounded_from_above :
      0 < w
      → SameQuotient n d y w u
      → IsNear n (d * e) r
      → 0 < d
      → e * w < 2 * u
      → (q : ℕ) → suc y ≤ q * w
      → r * e < q * u
  rounded_from_above hw same near hd short q hq = elim (dec_le (q * u) (r * e)) [
    | no lt ↦ omega arith
    | yes ge ↦ absurd (
        omega (
          arith,
          mul-le-mul_right w near.below,
          mul-lt-mul_of_pos_right short hd,
          mul-le-mul_right (u * d) hq,
          mul-le-mul_right (w * d) ge,
          same,
        ))
  ]

nearest_lem :
    (n d : ℕ) → nearest n d ≡ round_half_even n (d * 2 ^ excess (n / d)) * 2 ^ excess (n / d)
unfolding nearest
nearest_lem n d = refl

module _ (a n d y w : ℕ) (hy : y < 2 ^ 53) (hw : 0 < w) (hd : 0 < d)
    (same : SameQuotient n d y w (2 ^ a)) where
  quotient-le : n / d * w ≤ y * 2 ^ a
  quotient-le =
      le_of_mul-le-mul_right (omega (arith, mul-le-mul_right w (div-mul-le_self n d), same)) hd

  excess-le : excess (n / d) ≤ a
  excess-le = excess_least a (n / d) (
      omega (
        arith,
        quotient-le,
        le-mul_of_pos_right (n / d) hw,
        mul-lt-mul_of_pos_right hy (one-le-pow a 2 (omega arith)),
      ))

  -- The last kept bit is below twice the unit over the divisor.
  last_bit_short : w < 2 * 2 ^ a → 2 ^ excess (n / d) * w < 2 * 2 ^ a
  last_bit_short hwu = elim (excess_lower (n / d)) [
    | inl e ↦ rw e (omega (arith, pow-zero 2, hwu))
    | inr full ↦ omega (
      arith,
      mul-le-mul_right w full,
      quotient-le,
      mul-lt-mul_of_pos_right hy (one-le-pow a 2 (omega arith)),
    )
  ]

  -- A quotient of a dividend of at most 53 bits rounds within its whole number of units.
  pub nearest-floor : w < 2 * 2 ^ a → nearest n d / 2 ^ a ≡ y / w
  nearest-floor hwu =
      let he : 0 < 2 ^ excess (n / d) = one-le-pow (excess (n / d)) 2 (omega arith) in
      let near = round_half_even-IsNear n (d * 2 ^ excess (n / d)) (mul-pos hd he) in
      let (t, split) = pow-split (excess (n / d)) a excess-le in
      rw (nearest_lem n d) (
        div-eq_of_lt-le _
          (rounded_from_below n d y w (2 ^ a) (2 ^ excess (n / d)) t _ hw same split near hd he
            (y / w) (div-mul-le_self y w))
          (rounded_from_above n d y w (2 ^ a) (2 ^ excess (n / d)) t _ hw same near hd
            (last_bit_short hwu) (y / w + 1) (omega (arith, lt-div-mul-add {a = y} hw))))

-- A whole number of units with at most 53 bits is kept.
pub nearest-exact : (a n d y : ℕ) → y < 2 ^ 53 → 0 < d → n ≡ y * 2 ^ a * d → nearest n d ≡ y * 2 ^ a
nearest-exact a n d y hy hd e =
    let he : 0 < 2 ^ excess (n / d) = one-le-pow (excess (n / d)) 2 (omega arith) in
    let near = round_half_even-IsNear n (d * 2 ^ excess (n / d)) (mul-pos hd he) in
    let (t, split) =
      pow-split (excess (n / d)) a (excess-le a n d y 1 hy (omega arith) hd (omega (arith, e))) in
    let kept =
      IsNear-exact n (d * 2 ^ excess (n / d)) (y * t) _ (mul-pos hd he)
        (e ∙ omega (arith, ap (λ (u : ℕ). y * u * d) split)) near in
    rw (nearest_lem n d, kept) (omega (arith, ap (λ (u : ℕ). y * u) split))
