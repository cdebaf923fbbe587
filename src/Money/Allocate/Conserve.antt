-- ===== src/Money/Allocate/Conserve.antt =====
-- `allocateMoney` as its callers meet it: the parts add up to the total.
use neo_lloyds.Prelude.{
  ℕ, ◌*◌, ◌^◌, ◌<◌, ◌≡◌, refl, ap, ◌∙◌, Bool, true, false, List, [], ◌∷◌, map, arith, sum, length,
  length-map, ltb→lt,
}
use neo_lloyds.Prelude.Int.{pos}
use native.Mathlib.Nat.{mul-pos}
use neo_lloyds.Errors.{ok}
use neo_lloyds.Double.Signed.{Double, abs, of_int, is_negative, with_sign}
use neo_lloyds.Double.Whole.{whole_double, map-of_int-pos, foldl-add-zero, units-pos}
use neo_lloyds.Money.{Money, sum_money, matches_currency_pattern}
use neo_lloyds.Money.Sums.{
  IsMoney, of_amount, signed_amounts, money-with_sign, sum_money-with_sign, with_sign-is_negative,
}
use neo_lloyds.Money.Allocate.{allocate_money, any_negative, priced, split_magnitude, is_empty}
use neo_lloyds.Money.Allocate.Exact.{sum-split_magnitude, length-split_magnitude}

-- Integer weights, as the callers pass them.
abbrev pub int_weights : List ℕ → List Double
int_weights ws = map (λ w. of_int (pos w)) ws

any_negative-whole_double : (ws : List ℕ) → any_negative (map whole_double ws) ≡ false
unfolding any_negative
any_negative-whole_double [] = refl
any_negative-whole_double (w ∷ ws) = any_negative-whole_double ws

priced_lem :
    (negative : Bool) (total : Money)
    → matches_currency_pattern total.currency ≡ true
    → (ns : List ℕ) → sum ns < 2 ^ 53
    → priced negative total ns ≡ ok (signed_amounts negative total.currency ns)
unfolding priced
priced_lem negative total coded [] h = refl
priced_lem negative total coded (n ∷ ns) h =
    rw
      (
        money-with_sign negative total.currency coded n (omega arith),
        priced_lem negative total coded ns (omega arith),
      )
      refl

not-is_empty : (ws : List ℕ) → 0 < sum ws → is_empty (map whole_double ws) ≡ false
not-is_empty [] h = absurd (omega arith)
not-is_empty (w ∷ ws) h = refl

module _ (total : Money) (ws : List ℕ) (valid : IsMoney total) (positive : 0 < sum ws)
    (weights : sum ws < 2 ^ 53) (product : abs total.amount_minor * sum ws < 2 ^ 53) where
  abbrev pub magnitudes : List ℕ
  magnitudes =
      split_magnitude (abs total.amount_minor) (map whole_double ws) (whole_double (sum ws))

  safe-magnitude : abs total.amount_minor < 2 ^ 53
  safe-magnitude = ltb→lt _ _ valid.safe

  sum-magnitudes : sum magnitudes ≡ abs total.amount_minor
  sum-magnitudes =
      sum-split_magnitude (abs total.amount_minor) ws safe-magnitude positive weights product

  -- The split does not throw; its parts have the sign and the currency of the total.
  pub allocate_money_lem :
      allocate_money total (int_weights ws)
      ≡ ok (signed_amounts (is_negative total.amount_minor) total.currency magnitudes)
  unfolding allocate_money
  allocate_money_lem =
      rw
        (
          map-of_int-pos ws weights,
          not-is_empty ws positive,
          any_negative-whole_double ws,
          foldl-add-zero ws weights,
        )
        (ground (
          arith,
          mul-pos positive units-pos,
          priced_lem (is_negative total.amount_minor) total valid.coded magnitudes
              (omega (arith, sum-magnitudes, safe-magnitude)),
        ))

-- Every split of a total over integer weights, of which one at least is positive, returns; it has
-- as many parts as there are weights, and `sumMoney` of the parts is exactly the total, a negative
-- one too. The weights' sum, and its product with the total, must be below 2 ^ 53.
pub sum_money-allocate_money :
    (total : Money) (ws : List ℕ)
    → IsMoney total
    → 0 < sum ws
    → sum ws < 2 ^ 53
    → abs total.amount_minor * sum ws < 2 ^ 53
    → (parts : List Money) × (allocate_money total (int_weights ws) ≡ ok parts)
      × (length parts ≡ length ws)
      × (sum_money parts total.currency ≡ ok total)
sum_money-allocate_money total ws valid positive weights product =
    let negative = is_negative total.amount_minor in
    let ns = magnitudes total ws valid positive weights product in
    (
      signed_amounts negative total.currency ns,
      allocate_money_lem total ws valid positive weights product,
      length-map (λ (n : ℕ). of_amount (with_sign negative n) total.currency) ns
          ∙ length-split_magnitude (abs total.amount_minor) ws (ltb→lt _ _ valid.safe) positive
              weights product,
      sum_money-with_sign negative total.currency valid.coded ns (
            omega (
              arith,
              sum-magnitudes total ws valid positive weights product,
              ltb→lt _ _ valid.safe,
            ))
          ∙ ap (λ (n : ℕ). ok (of_amount (with_sign negative n) total.currency))
              (sum-magnitudes total ws valid positive weights product)
          ∙ ap (λ a. ok (of_amount a total.currency)) (with_sign-is_negative total.amount_minor),
    )
