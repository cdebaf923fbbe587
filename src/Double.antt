-- ===== src/Double.antt =====
-- Numbers of JavaScript that need not be integers: IEEE-754 doubles, as the domain package computes
-- with them (packages/domain/src/money.ts and its callers). A finite double is an integer count of
-- units of 2^-1074, the distance of the least two doubles, so a sum, product or quotient is that of
-- the exact values rounded to 53 significant bits, ties to even. The results are finite here: past
-- 2^1024 the source has an infinity, which every caller refuses just as it refuses a large number.
pub mod Excess
pub mod Rounding
pub mod Signed
pub mod Whole
use neo_lloyds.Prelude.{ℕ, zero, suc, ◌+◌, ◌*◌, ◌/◌, ◌%◌, ◌^◌, ltb, ◌==◌, if◌then◌else◌}

-- The number of units in one, and in a half.
unfoldable pub units : ℕ
units = 2 ^ 1074

unfoldable pub half_units : ℕ
half_units = 2 ^ 1073

-- How often a whole number must be halved to have at most 53 bits. The number itself is fuel enough.
unfoldable pub excess_fuel : ℕ → ℕ → ℕ
excess_fuel zero q = 0
excess_fuel (suc fuel) q =
    let rest = suc (excess_fuel fuel (q / 2)) in if ltb q (2 ^ 53) then 0 else rest

unfoldable pub excess : ℕ → ℕ
unfolding excess_fuel
excess q = excess_fuel q q

-- The whole number that is nearest to n / d, the even one of two.
unfoldable pub round_half_even : ℕ → ℕ → ℕ
round_half_even n d =
    let q = n / d in
    let twice = 2 * (n % d) in
    if ltb twice d then q else if ltb d twice then q + 1 else if (q % 2) == 0 then q else q + 1

-- The double, in units, that is nearest to n / d units.
unfoldable pub nearest : ℕ → ℕ → ℕ
nearest n d = let e = 2 ^ excess (n / d) in round_half_even n (d * e) * e
