-- ===== src/Double/Excess.antt =====
-- How many bits of a whole number do not fit into a significand (`excess`).
use neo_lloyds.Prelude.{ℕ, zero, suc, ◌*◌, ◌/◌, ◌^◌, ◌≤◌, ◌<◌, ◌≡◌, refl, ap, ◌⊎◌, inl, arith}
use native.Mathlib.Nat.{pow-suc}
use neo_lloyds.Double.{excess_fuel, excess}

pub excess_fuel_upper : (fuel q : ℕ) → q ≤ fuel → q < 2 ^ 53 * 2 ^ excess_fuel fuel q
unfolding excess_fuel
excess_fuel_upper zero q h = omega arith
excess_fuel_upper (suc fuel) q h =
    ground (arith, excess_fuel_upper fuel (q / 2), pow-suc 2 (excess_fuel fuel (q / 2)))

pub excess_fuel_lower :
    (fuel q : ℕ) → q ≤ fuel → (excess_fuel fuel q ≡ 0) ⊎ (2 ^ 52 * 2 ^ excess_fuel fuel q ≤ q)
unfolding excess_fuel
excess_fuel_lower zero q h = inl refl
excess_fuel_lower (suc fuel) q h = ground (
  arith,
  excess_fuel_lower fuel (q / 2),
  pow-suc 2 (excess_fuel fuel (q / 2)),
  λ (e : excess_fuel fuel (q / 2) ≡ 0). ap (λ (k : ℕ). 2 ^ k) e,
)

pub excess_fuel_least : (j fuel q : ℕ) → q < 2 ^ 53 * 2 ^ j → excess_fuel fuel q ≤ j
unfolding excess_fuel
excess_fuel_least j zero q h = omega arith
excess_fuel_least zero (suc fuel) q h = ground arith
excess_fuel_least (suc j) (suc fuel) q h =
    ground (arith, excess_fuel_least j fuel (q / 2), pow-suc 2 j)

-- A number with no excess bits, or one whose significand is full.
pub excess_lower : (q : ℕ) → (excess q ≡ 0) ⊎ (2 ^ 52 * 2 ^ excess q ≤ q)
unfolding excess
excess_lower q = excess_fuel_lower q q (omega arith)

pub excess_least : (j q : ℕ) → q < 2 ^ 53 * 2 ^ j → excess q ≤ j
unfolding excess
excess_least j q = excess_fuel_least j q q
