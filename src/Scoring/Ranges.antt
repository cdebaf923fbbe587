-- ===== src/Scoring/Ranges.antt =====
-- What a score promises: probabilities and severities within the unit interval, and no more
-- confidence than the weakest factor.
use neo_lloyds.Prelude.{◌≡◌, sym, subst, List, [], ◌∷◌, map, arith, if◌then◌else◌}
use neo_lloyds.Prelude.Int.{pos, ◌≤ℤ◌, ltb_ℤ, leb_ℤ}
use neo_lloyds.Errors.{ok, >>=-eq-ok, ok_injective, throw_if, invalid_scoring_input}
use neo_lloyds.Double.{nearest, excess, units, round_half_even}
use neo_lloyds.Double.Signed.{Double, of_int, add, subtract, multiply, divide, decimal}
use neo_lloyds.Uncertainty.{
  one, Estimate, RangeEstimate, estimate, min_double, max_double, combine_confidence,
  insufficient_data, statistical_model, observed, expert_judgement,
}
use neo_lloyds.Uncertainty.Combine.{
  InUnit, AtMostAll, combine_confidence-weakest, estimate-eq-ok, range_estimate-eq-ok,
}
use neo_lloyds.Scoring.{
  RiskFactor, RiskFactorsInput, RiskScore, assert_input, compute_probability, compute_severity,
  compute_expected_loss, score_risk, clamp_unit, basis_of, total_weight, weighted_sum, has_factors,
}

one_positive : pos 0 ≤ℤ one
unfolding of_int
one_positive = ground arith

clamp_unit-InUnit : (x : Double) → InUnit (clamp_unit x)
clamp_unit-InUnit x = ground (arith, one_positive)

abbrev pub confidences : List RiskFactor → List Double
confidences = map (λ (f : RiskFactor). f.confidence_in)

probability-InUnit :
    (factors : List RiskFactor) (m : Double) (p : Estimate)
    → compute_probability factors m ≡ ok p
    → InUnit p.expected × AtMostAll p.confidence_in (confidences factors)
unfolding compute_probability
probability-InUnit [] m p h =
    let (is, _, _) = estimate-eq-ok (pos 0) (pos 0) insufficient_data p h in
    (ground (arith, one_positive), tt)
probability-InUnit (f ∷ fs) m p h =
    let weighted = divide (weighted_sum (f ∷ fs)) (total_weight (f ∷ fs)) in
    let mitigated = multiply weighted (subtract one m) in
    let (_, _, h₁) =
      >>=-eq-ok (throw_if (leb_ℤ (total_weight (f ∷ fs)) (pos 0)) invalid_scoring_input) _ h in
    let (conf, combined, h₂) = >>=-eq-ok (combine_confidence (confidences (f ∷ fs))) _ h₁ in
    let (is, level, _) = estimate-eq-ok (clamp_unit mitigated) conf (basis_of (f ∷ fs)) p h₂ in
    (
      subst InUnit (sym is) (clamp_unit-InUnit mitigated),
      subst (λ c. AtMostAll c (confidences (f ∷ fs))) (sym level)
          (combine_confidence-weakest (confidences (f ∷ fs)) conf combined).1,
    )

severity_brackets :
    (p : Estimate) (r : RangeEstimate)
    → InUnit p.expected
    → compute_severity p ≡ ok r
    → (r.expected ≡ p.expected)
      × InUnit r.range_low
      × InUnit r.range_high
      × (r.range_low ≤ℤ r.expected)
      × (r.expected ≤ℤ r.range_high)
unfolding compute_severity
severity_brackets p r inside h =
    let spread = multiply (decimal 5 10) (subtract one p.confidence_in) in
    let low = subtract p.expected spread in
    let high = add p.expected spread in
    let (l, e, u, under, over) =
      range_estimate-eq-ok (max_double (pos 0) low) p.expected (min_double one high) p.confidence_in
        p.basis r h in
    let floor_ : pos 0 ≤ℤ max_double (pos 0) low = ground arith in
    let ceiling : min_double one high ≤ℤ one = ground arith in
    let from : max_double (pos 0) low ≤ℤ one = omega (arith, under, inside.1) in
    let to : pos 0 ≤ℤ min_double one high = omega (arith, over, inside.0) in
    (
      e,
      subst InUnit (sym l) (floor_, from),
      subst InUnit (sym u) (to, ceiling),
      rw (l, e) under,
      rw (e, u) over,
    )

pub record IsCalibrated (input : RiskFactorsInput) (score : RiskScore) : Type 0 where
  pub probability : InUnit score.probability.expected
  pub severity_low : InUnit score.severity.range_low
  pub severity_high : InUnit score.severity.range_high
  pub around : score.severity.expected ≡ score.probability.expected
  pub above_low : score.severity.range_low ≤ℤ score.severity.expected
  pub below_high : score.severity.expected ≤ℤ score.severity.range_high
  pub weakest : AtMostAll score.confidence_in (confidences input.factors)
  pub reserved : score.confidence_in ≤ℤ decimal 7 10

three_tenths-le : decimal 3 10 ≤ℤ decimal 7 10
unfolding decimal nearest excess units round_half_even
three_tenths-le = omega arith

mitigation_confidence :
    (factors : List RiskFactor)
    → (if has_factors factors then decimal 7 10 else decimal 3 10) ≤ℤ decimal 7 10
mitigation_confidence [] = three_tenths-le
mitigation_confidence (f ∷ fs) = omega arith

le_trans : (a b c : Double) → a ≤ℤ b → b ≤ℤ c → a ≤ℤ c
le_trans a b c h k = omega arith

lower-AtMostAll : (a b : Double) (l : List Double) → a ≤ℤ b → AtMostAll b l → AtMostAll a l
lower-AtMostAll a b [] h all = tt
lower-AtMostAll a b (x ∷ l) h all = (omega (arith, all.0), lower-AtMostAll a b l h all.1)

-- The score of a risk, where one is computed: its probability and both ends of its severity lie between
-- 0 and 1, the severity is a range around the probability, and the overall confidence is at most that
-- of each declared factor and at most 0.7, the most that is granted to the mitigation.
pub score_risk-IsCalibrated :
    (input : RiskFactorsInput) (score : RiskScore)
    → score_risk input ≡ ok score
    → IsCalibrated input score
unfolding score_risk
score_risk-IsCalibrated input score h =
    let share = input.mitigation_coverage in
    let (_, _, h₁) = >>=-eq-ok (assert_input input) _ h in
    let (p, likely, h₂) = >>=-eq-ok (compute_probability input.factors share) _ h₁ in
    let (v, severe, h₃) = >>=-eq-ok (compute_severity p) _ h₂ in
    let (loss, _, h₄) = >>=-eq-ok (compute_expected_loss v input.maximum_estimated_loss) _ h₃ in
    let (c₁, _, h₅) =
      >>=-eq-ok
        (estimate (min_double one (divide input.correlated_risk_count (of_int (pos 10))))
          (if ltb_ℤ (pos 0) input.correlated_risk_count then decimal 6 10 else decimal 3 10)
          statistical_model)
        _ h₄ in
    let (c₂, _, h₆) = >>=-eq-ok (estimate input.concentration_share (decimal 9 10) observed) _ h₅ in
    let level = if has_factors input.factors then decimal 7 10 else decimal 3 10 in
    let basis = if has_factors input.factors then expert_judgement else insufficient_data in
    let (c₃, mitigated, h₇) = >>=-eq-ok (estimate share level basis) _ h₆ in
    let parts = p.confidence_in ∷ c₁.confidence_in ∷ c₂.confidence_in ∷ c₃.confidence_in ∷ [] in
    let (overall, combined, h₈) = >>=-eq-ok (combine_confidence parts) _ h₇ in
    let (inside, weakest) = probability-InUnit input.factors share p likely in
    let (around, low, high, above, below) = severity_brackets p v inside severe in
    let (_, at_most) = combine_confidence-weakest parts overall combined in
    let (_, is_level, _) = estimate-eq-ok share level basis c₃ mitigated in
    let capped : overall ≤ℤ level = subst (λ x. overall ≤ℤ x) is_level at_most.1.1.1.0 in
    subst (IsCalibrated input) (ok_injective h₈) (record {
      probability = inside;
      severity_low = low;
      severity_high = high;
      around = around;
      above_low = above;
      below_high = below;
      weakest =
          lower-AtMostAll overall p.confidence_in (confidences input.factors) at_most.0 weakest;
      reserved = le_trans overall level (decimal 7 10) capped (mitigation_confidence input.factors);
    })
