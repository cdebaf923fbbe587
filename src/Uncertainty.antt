-- ===== src/Uncertainty.antt =====
-- packages/domain/src/uncertainty.ts: estimates with their confidence. A number is a double, which
-- is finite here.
pub mod Combine
use neo_lloyds.Prelude.{ℕ, Bool, true, false, not, ◌&&◌, ◌||◌, List, [], ◌∷◌, if◌then◌else◌}
use neo_lloyds.Prelude.Int.{pos, leb_ℤ, ltb_ℤ}
use neo_lloyds.Errors.{
  Result, ok, throw_if, ◌>>=◌, ◌>>◌, invalid_confidence, invalid_estimate, invalid_probability,
}
use neo_lloyds.Double.Signed.{Double, of_int, decimal}

abbrev pub one : Double
one = of_int (pos 1)

-- `value < 0 || value > 1`
abbrev pub outside_unit : Double → Bool
outside_unit value = ltb_ℤ value (pos 0) || ltb_ℤ one value

abbrev pub Confidence : Type 0
Confidence = Double

unfoldable pub confidence : Double → Result Confidence
confidence value = do throw_if (outside_unit value) invalid_confidence; ok value

pub data EstimateBasis : Type 0 where
  observed statistical_model expert_judgement ai_inference insufficient_data : EstimateBasis

pub record Estimate : Type 0 where
  pub expected : Double
  pub confidence_in : Confidence
  pub basis : EstimateBasis

pub record RangeEstimate : Type 0 where
  pub range_low : Double
  pub expected : Double
  pub range_high : Double
  pub confidence_in : Confidence
  pub basis : EstimateBasis

unfoldable pub estimate : Double → Double → EstimateBasis → Result Estimate
unfolding confidence
estimate expected conf basis = do
  c ← confidence conf
  ok (record { expected = expected; confidence_in = c; basis = basis })

unfoldable pub range_estimate :
    Double → Double → Double → Double → EstimateBasis → Result RangeEstimate
unfolding confidence
range_estimate range_low expected range_high conf basis = do
  throw_if (not (leb_ℤ range_low expected && leb_ℤ expected range_high)) invalid_estimate
  c ← confidence conf
  ok (record {
    range_low = range_low;
    expected = expected;
    range_high = range_high;
    confidence_in = c;
    basis = basis;
  })

pub record Probability : Type 0 where
  pub value : Double
  pub confidence_in : Confidence
  pub basis : EstimateBasis

unfoldable pub probability : Double → Double → EstimateBasis → Result Probability
unfolding confidence
probability value conf basis = do
  throw_if (outside_unit value) invalid_probability
  c ← confidence conf
  ok (record { value = value; confidence_in = c; basis = basis })

-- `Math.min` and `Math.max`
abbrev pub min_double : Double → Double → Double
min_double a b = if ltb_ℤ b a then b else a

abbrev pub max_double : Double → Double → Double
max_double a b = if ltb_ℤ a b then b else a

-- `Math.min(...values)`, of at least one.
unfoldable pub least : Double → List Double → Double
least a [] = a
least a (b ∷ rest) = least (min_double a b) rest

unfoldable pub combine_confidence : List Confidence → Result Confidence
unfolding confidence least
combine_confidence [] = confidence (pos 0)
combine_confidence (a ∷ rest) = confidence (least a rest)

unfoldable pub significant_digits_for : Confidence → ℕ
significant_digits_for conf =
    if leb_ℤ (decimal 9 10) conf then 3 else if leb_ℤ (decimal 7 10) conf then 2 else 1
