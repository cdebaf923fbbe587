-- ===== src/Tests/Underwriting.antt =====
-- Tests of the bands, of the approval gate and of a submission's stages.
use neo_lloyds.Prelude.{◌≡◌, ◌↔◌, ◌⊎◌, refl, [], none, some, true, false}
use neo_lloyds.Prelude.Int.{pos, ◌+ℤ◌, ◌-ℤ◌}
use neo_lloyds.Double.{units, half_units, excess, round_half_even, nearest}
use neo_lloyds.Double.Signed.{
  Double, decimal, of_int, add, subtract, multiply, divide, round, floor,
}
use neo_lloyds.Errors.{ok}
use neo_lloyds.Money.{
  money, scale_money, compare_money, is_zero, assert_same_currency, matches_currency_pattern,
}
use neo_lloyds.Identity.{
  low, medium, automated_recommendation, human_underwriter, may_proceed_without_human, control_for,
}
use neo_lloyds.Submission.{draft, submitted, analysing, can_transition, transitions}
use neo_lloyds.Identity.{includes}
use neo_lloyds.Uncertainty.{Estimate, observed}
use neo_lloyds.Scoring.{RiskScore}
use neo_lloyds.Underwriting.{
  ApprovalThresholds, classify_band, loss_ratio, suggest_premium_range, UnderwritingAssessment,
  assess_underwriting, UnderwritingApproval, approved, require_approval_if_needed,
}
use neo_lloyds.Underwriting.Gate.{
  IsApproval, IsLow, require_approval_if_needed_iff, assess_underwriting-automated,
}
use neo_lloyds.Tests.{dollars}

abbrev certain : Double → Double → Estimate
certain expected conf = record { expected = expected; confidence_in = conf; basis = observed }

abbrev score : RiskScore
score = record {
  risk_id = 1;
  probability = certain (decimal 4 100) (decimal 8 10);
  severity = record {
    range_low = pos 0;
    expected = decimal 4 100;
    range_high = decimal 8 100;
    confidence_in = decimal 8 10;
    basis = observed;
  };
  expected_loss = record { loss_low = dollars 0; expected = dollars 400; loss_high = dollars 800 };
  maximum_estimated_loss = dollars 10000;
  confidence_in = decimal 8 10;
  duration_days = pos 0;
  correlation_score = certain (pos 0) (decimal 3 10);
  concentration_score = certain (pos 0) (decimal 9 10);
  mitigation_score = certain (pos 0) (decimal 7 10);
}

-- The default thresholds, of which the ceiling is 50,000 dollars.
abbrev thresholds : ApprovalThresholds
thresholds = record {
  low_max_ratio = decimal 5 100;
  medium_max_ratio = decimal 2 10;
  high_max_ratio = decimal 5 10;
  low_max_expected_loss = dollars 5000000;
  min_confidence_for_automation = decimal 75 100;
}

-- 4.60 at the least, and 10.56 at a margin of 1.32.
abbrev assessment : UnderwritingAssessment
assessment = record {
  risk_id = 1;
  eligible = true;
  band = low;
  control = automated_recommendation;
  requires_human_approval = false;
  risk_score_confidence = decimal 8 10;
  expected_loss = dollars 400;
  suggested_premium_range = record { range_low = dollars 460; range_high = dollars 1056 };
  capital_requirement = dollars 800;
  suggested_capacity = dollars 10000;
  exclusions = [];
  conditions = [];
  required_evidence = [];
  model_version = 1;
}

assessed : assess_underwriting score thresholds ≡ ok assessment
unfolding assess_underwriting classify_band loss_ratio suggest_premium_range decimal compare_money
    assert_same_currency is_zero scale_money may_proceed_without_human control_for money
    matches_currency_pattern of_int add subtract multiply divide round floor units half_units
    nearest excess round_half_even ◌+ℤ◌ ◌-ℤ◌
assessed = refl

passes : require_approval_if_needed assessment none ≡ ok tt
unfolding require_approval_if_needed
passes = refl

assess_underwriting-automated_example : IsLow score thresholds
assess_underwriting-automated_example =
    assess_underwriting-automated score thresholds assessed passes

abbrev reviewed : UnderwritingAssessment
reviewed = record assessment {
  band = medium;
  control = human_underwriter;
  requires_human_approval = true;
}

abbrev approval : UnderwritingApproval
approval = record { risk_id = 1; assessment_model_version = 1; decision = approved }

require_approval_if_needed_iff_example :
    (require_approval_if_needed reviewed (some approval) ≡ ok tt) ↔ (
      (true ≡ false)
      ⊎ ((a : UnderwritingApproval) × (some approval ≡ some a) × IsApproval reviewed a))
require_approval_if_needed_iff_example = require_approval_if_needed_iff reviewed (some approval)

can_submit : can_transition draft submitted ≡ true
unfolding can_transition transitions includes
can_submit = refl

can_analyse : can_transition submitted analysing ≡ true
unfolding can_transition transitions includes
can_analyse = refl
