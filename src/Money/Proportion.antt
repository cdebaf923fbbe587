-- ===== src/Money/Proportion.antt =====
-- A proportion in basis points, of an amount that is not negative.
use neo_lloyds.Prelude.{ℕ, ◌+◌, ◌*◌, ◌/◌, ◌^◌, ◌≤◌, ◌<◌, ◌≡◌, arith}
use neo_lloyds.Prelude.Int.{pos}
use neo_lloyds.Double.Whole.{of_int-pos, multiply-whole_double, round-divide-whole_double}
use neo_lloyds.Money.{proportion}

-- The exact proportion, rounded half up.
abbrev pub rounded_share : ℕ → ℕ → ℕ
rounded_share n bps = (2 * (n * bps) + 10000) / 20000

pub proportion-pos :
    (n bps : ℕ)
    → bps ≤ 10000
    → n * 10000 < 2 ^ 52
    → proportion (pos n) (pos bps) ≡ pos (rounded_share n bps)
unfolding proportion
proportion-pos n bps le small =
    let product : n * bps < 2 ^ 52 = grind arith in
    rw
      (
        of_int-pos n (omega arith),
        of_int-pos bps (omega arith),
        of_int-pos 10000 (omega arith),
        multiply-whole_double n bps (omega arith),
      )
      (round-divide-whole_double (n * bps) 10000 product (omega arith) (omega arith))

pub rounded_share-le : (n bps : ℕ) → bps ≤ 10000 → rounded_share n bps ≤ n
rounded_share-le n bps le = grind arith
