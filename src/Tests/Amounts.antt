-- ===== src/Tests/Amounts.antt =====
-- Tests of the sums and splits of money.
use neo_lloyds.Prelude.{ℕ, ◌≡◌, refl, List, [], ◌∷◌, length, arith}
use neo_lloyds.Prelude.Int.{negsuc, ◌+ℤ◌, ◌-ℤ◌}
use neo_lloyds.Prelude.Sorting.{sort}
use neo_lloyds.Double.{units, excess, round_half_even, nearest}
use neo_lloyds.Double.Signed.{of_int, add, subtract, multiply, divide, floor}
use neo_lloyds.Errors.{ok}
use neo_lloyds.Money.{
  Money, money, matches_currency_pattern, add_money, sum_money, assert_same_currency,
}
use neo_lloyds.Money.Sums.{IsMoney, of_amount}
use neo_lloyds.Money.Allocate.{allocate_money}
use neo_lloyds.Money.Allocate.Conserve.{sum_money-allocate_money, int_weights}
use neo_lloyds.Tests.{dollars, dollars_coded}

abbrev debt : Money
debt = of_amount (negsuc 100) "USD"

debt-IsMoney : IsMoney debt
debt-IsMoney = record { safe = refl; coded = dollars_coded }

abbrev ones : List ℕ
ones = 1 ∷ 1 ∷ []

-- -101 in halves.
halves :
    allocate_money debt (int_weights ones)
    ≡ ok (of_amount (negsuc 50) "USD" ∷ of_amount (negsuc 49) "USD" ∷ [])
unfolding allocate_money of_int add subtract multiply divide floor units nearest excess
    round_half_even sort money matches_currency_pattern ◌+ℤ◌ ◌-ℤ◌
halves = refl

sum_money-allocate_money_example :
    (parts : List Money) × (allocate_money debt (int_weights ones) ≡ ok parts)
    × (length parts ≡ 2)
    × (sum_money parts "USD" ≡ ok debt)
sum_money-allocate_money_example =
    sum_money-allocate_money debt ones debt-IsMoney (omega arith) (omega arith) (omega arith)

three_and_four : add_money (dollars 3) (dollars 4) ≡ ok (dollars 7)
unfolding add_money assert_same_currency money matches_currency_pattern ◌+ℤ◌
three_and_four = refl
