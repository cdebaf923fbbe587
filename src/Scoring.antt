-- ===== src/Scoring.antt =====
-- packages/domain/src/scoring.ts: the deterministic score of a risk from declared factors. A number
-- is a double; keys and descriptions of factors, times and the model version are text.
pub mod Ranges
use neo_lloyds.Prelude.{ℕ, Bool, true, false, ◌&&◌, ◌||◌, List, [], ◌∷◌, map, foldl, if◌then◌else◌}
use neo_lloyds.Prelude.Int.{pos, leb_ℤ, ltb_ℤ}
use Prim.Native.String.{String}
use neo_lloyds.Errors.{Result, ok, throw_if, ◌>>=◌, ◌>>◌, invalid_scoring_input}
use neo_lloyds.Double.Signed.{Double, of_int, add, subtract, multiply, divide, decimal}
use neo_lloyds.Money.{Money, money, add_money, scale_money}
use neo_lloyds.Uncertainty.{
  one, outside_unit, Confidence, EstimateBasis, observed, statistical_model, expert_judgement,
  ai_inference, insufficient_data, Estimate, RangeEstimate, estimate, range_estimate, min_double,
  max_double, combine_confidence,
}

pub record RiskFactor : Type 0 where
  pub weight : Double
  pub likelihood : Double
  pub confidence_in : Confidence
  pub basis : EstimateBasis

pub record RiskFactorsInput : Type 0 where
  pub risk_id : ℕ
  pub factors : List RiskFactor
  pub maximum_estimated_loss : Money
  pub duration_days : Double
  pub mitigation_coverage : Double
  pub correlated_risk_count : Double
  pub concentration_share : Double

pub record ExpectedLoss : Type 0 where
  pub loss_low : Money
  pub expected : Money
  pub loss_high : Money

pub record RiskScore : Type 0 where
  pub risk_id : ℕ
  pub probability : Estimate
  pub severity : RangeEstimate
  pub expected_loss : ExpectedLoss
  pub maximum_estimated_loss : Money
  pub confidence_in : Confidence
  pub duration_days : Double
  pub correlation_score : Estimate
  pub concentration_score : Estimate
  pub mitigation_score : Estimate

unfoldable pub assert_unit_interval : Double → Result (Unit {0})
assert_unit_interval value = throw_if (outside_unit value) invalid_scoring_input

abbrev pub is_observed : EstimateBasis → Bool
is_observed observed = true
is_observed _ = false

abbrev pub is_ai_inference : EstimateBasis → Bool
is_ai_inference ai_inference = true
is_ai_inference _ = false

unfoldable pub every_observed : List RiskFactor → Bool
every_observed [] = true
every_observed (f ∷ fs) = is_observed f.basis && every_observed fs

unfoldable pub some_ai_inference : List RiskFactor → Bool
some_ai_inference [] = false
some_ai_inference (f ∷ fs) = is_ai_inference f.basis || some_ai_inference fs

unfoldable pub basis_of : List RiskFactor → EstimateBasis
unfolding every_observed some_ai_inference
basis_of factors =
    if every_observed factors
    then observed
    else if some_ai_inference factors
    then ai_inference
    else expert_judgement

unfoldable pub total_weight : List RiskFactor → Double
total_weight = foldl (λ total f. add total f.weight) (pos 0)

unfoldable pub weighted_sum : List RiskFactor → Double
weighted_sum = foldl (λ total f. add total (multiply f.weight f.likelihood)) (pos 0)

-- `Math.min(1, Math.max(0, x))`
abbrev pub clamp_unit : Double → Double
clamp_unit x = min_double one (max_double (pos 0) x)

unfoldable pub compute_probability : List RiskFactor → Double → Result Estimate
unfolding total_weight weighted_sum basis_of
compute_probability [] mitigation_coverage = estimate (pos 0) (pos 0) insufficient_data
compute_probability (f ∷ fs) mitigation_coverage = do
  throw_if (leb_ℤ (total_weight (f ∷ fs)) (pos 0)) invalid_scoring_input
  let weighted = divide (weighted_sum (f ∷ fs)) (total_weight (f ∷ fs))
  let mitigated = multiply weighted (subtract one mitigation_coverage)
  conf ← combine_confidence (map (λ (g : RiskFactor). g.confidence_in) (f ∷ fs))
  estimate (clamp_unit mitigated) conf (basis_of (f ∷ fs))

unfoldable pub compute_severity : Estimate → Result RangeEstimate
compute_severity p = do
  let spread = multiply (decimal 5 10) (subtract one p.confidence_in)
  let low = max_double (pos 0) (subtract p.expected spread)
  let high = min_double one (add p.expected spread)
  range_estimate low p.expected high p.confidence_in p.basis

unfoldable pub compute_expected_loss : RangeEstimate → Money → Result ExpectedLoss
compute_expected_loss severity mel = do
  low ← scale_money mel severity.range_low
  expected ← scale_money mel severity.expected
  high ← scale_money mel severity.range_high
  ok (record { loss_low = low; expected = expected; loss_high = high })

unfoldable pub assert_factors : List RiskFactor → Result (Unit {0})
unfolding assert_unit_interval
assert_factors [] = ok tt
assert_factors (f ∷ fs) = do
  assert_unit_interval f.weight
  assert_unit_interval f.likelihood
  assert_factors fs

unfoldable pub assert_input : RiskFactorsInput → Result (Unit {0})
unfolding assert_unit_interval assert_factors
assert_input input = do
  assert_unit_interval input.mitigation_coverage
  assert_unit_interval input.concentration_share
  assert_factors input.factors
  throw_if (ltb_ℤ input.duration_days (pos 0)) invalid_scoring_input
  throw_if (ltb_ℤ input.correlated_risk_count (pos 0)) invalid_scoring_input

abbrev pub has_factors : List RiskFactor → Bool
has_factors [] = false
has_factors (f ∷ fs) = true

unfoldable pub score_risk : RiskFactorsInput → Result RiskScore
unfolding assert_input compute_probability compute_severity compute_expected_loss
score_risk input = do
  assert_input input
  probability ← compute_probability input.factors input.mitigation_coverage
  severity ← compute_severity probability
  expected_loss ← compute_expected_loss severity input.maximum_estimated_loss
  let correlation_value = min_double one (divide input.correlated_risk_count (of_int (pos 10)))
  correlation_score ←
      estimate correlation_value
        (if ltb_ℤ (pos 0) input.correlated_risk_count then decimal 6 10 else decimal 3 10)
        statistical_model
  concentration_score ← estimate input.concentration_share (decimal 9 10) observed
  mitigation_score ←
      estimate input.mitigation_coverage
        (if has_factors input.factors then decimal 7 10 else decimal 3 10)
        (if has_factors input.factors then expert_judgement else insufficient_data)
  overall_confidence ← combine_confidence (
      probability.confidence_in ∷ correlation_score.confidence_in
      ∷ concentration_score.confidence_in ∷ mitigation_score.confidence_in ∷ [])
  ok (record {
    risk_id = input.risk_id;
    probability = probability;
    severity = severity;
    expected_loss = expected_loss;
    maximum_estimated_loss = input.maximum_estimated_loss;
    confidence_in = overall_confidence;
    duration_days = input.duration_days;
    correlation_score = correlation_score;
    concentration_score = concentration_score;
    mitigation_score = mitigation_score;
  })

-- The body of the reduction.
unfoldable pub add_losses : ExpectedLoss → List RiskScore → Result ExpectedLoss
add_losses acc [] = ok acc
add_losses acc (s ∷ rest) = do
  low ← add_money acc.loss_low s.expected_loss.loss_low
  expected ← add_money acc.expected s.expected_loss.expected
  high ← add_money acc.loss_high s.expected_loss.loss_high
  add_losses (record { loss_low = low; expected = expected; loss_high = high }) rest

unfoldable pub aggregate_expected_loss : List RiskScore → String → Result ExpectedLoss
unfolding add_losses
aggregate_expected_loss scores currency = do
  nothing ← money (pos 0) currency
  add_losses (record { loss_low = nothing; expected = nothing; loss_high = nothing }) scores
