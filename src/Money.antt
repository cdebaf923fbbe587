-- ===== src/Money.antt =====
-- packages/domain/src/money.ts: an integer count of minor units and a currency.
pub mod Allocate
pub mod Sums
pub mod Proportion
use text.Mathlib.Text.{◌==◌ as str_eq}
use Prim.Native.String.{String}
use neo_lloyds.Prelude.{
  ℕ, ◌^◌, Bool, true, false, not, ◌&&◌, List, [], ◌∷◌, foldl, ltb, leb, ◌==◌, if◌then◌else◌,
}
use neo_lloyds.Prelude.Int.{ℤ, pos, negsuc, ◌+ℤ◌, ◌-ℤ◌, ltb_ℤ}
use neo_lloyds.Prelude.Text.{codes}
use neo_lloyds.Errors.{Result, ok, err, DomainError, invalid_money, throw_if, ◌>>=◌, ◌>>◌}
use neo_lloyds.Double.Signed.{Double, abs, of_int, multiply, divide, round}

pub record Money : Type 0 where
  pub amount_minor : ℤ
  pub currency : String

-- `Number.isSafeInteger`, at an integer.
abbrev pub is_safe_integer : ℤ → Bool
is_safe_integer a = ltb (abs a) (2 ^ 53)

abbrev is_upper : ℕ → Bool
is_upper c = leb b'A' c && leb c b'Z'

-- `/^[A-Z]{3}$/`
abbrev three_upper : List ℕ → Bool
three_upper (a ∷ b ∷ c ∷ []) = is_upper a && is_upper b && is_upper c
three_upper _ = false

unfoldable pub matches_currency_pattern : String → Bool
matches_currency_pattern c = three_upper (codes c)

unfoldable pub money : ℤ → String → Result Money
money amount currency = do
  throw_if (not (is_safe_integer amount)) invalid_money
  throw_if (not (matches_currency_pattern currency)) invalid_money
  ok (record { amount_minor = amount; currency = currency })

unfoldable pub is_zero : Money → Bool
is_zero m = elim m.amount_minor [ pos n ↦ n == 0 | negsuc n ↦ false ]

abbrev pub same_currency : Money → Money → Bool
same_currency a b = str_eq a.currency b.currency

unfoldable pub assert_same_currency : Money → Money → Result (Unit {0})
assert_same_currency a b = throw_if (not (same_currency a b)) invalid_money

unfoldable pub add_money : Money → Money → Result Money
unfolding assert_same_currency money
add_money a b = do assert_same_currency a b; money (a.amount_minor +ℤ b.amount_minor) a.currency

unfoldable pub subtract_money : Money → Money → Result Money
unfolding assert_same_currency money
subtract_money a b = do
  assert_same_currency a b
  money (a.amount_minor -ℤ b.amount_minor) a.currency

add_all : Money → List Money → Result Money
add_all acc [] = ok acc
add_all acc (item ∷ items) = do acc' ← add_money acc item; add_all acc' items

-- The reduction starts at a zero of the given currency.
unfoldable pub sum_money : List Money → String → Result Money
unfolding add_all
sum_money items currency = do zero_money ← money (pos 0) currency; add_all zero_money items

-- The comparison of JavaScript: less, equal or more.
pub data Comparison : Type 0 where
  less same more : Comparison

abbrev pub compare_amounts : ℤ → ℤ → Comparison
compare_amounts a b = if ltb_ℤ a b then less else if ltb_ℤ b a then more else same

unfoldable pub compare_money : Money → Money → Result Comparison
unfolding assert_same_currency
compare_money a b = do assert_same_currency a b; ok (compare_amounts a.amount_minor b.amount_minor)

abbrev pub is_more : Comparison → Bool
is_more more = true
is_more _ = false

-- The ratio is finite, as every double of the model.
unfoldable pub scale_money : Money → Double → Result Money
unfolding money
scale_money m ratio = money (round (multiply (of_int m.amount_minor) ratio)) m.currency

-- `Math.round((amountMinor * bps) / 10_000)`, the proportion that fees and quota shares take.
unfoldable pub proportion : ℤ → ℤ → ℤ
proportion amount bps = round (divide (multiply (of_int amount) (of_int bps)) (of_int (pos 10000)))
