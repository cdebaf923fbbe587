-- ===== src/Underwriting.antt =====
-- packages/domain/src/underwriting.ts: the approval band of a risk, its assessment, and the gate that
-- an assessment with a human control has to pass. Ratios and confidences are doubles, and a text
-- that the assessment builds is a constructor.
pub mod Gate
use neo_lloyds.Prelude.{
  ℕ, Bool, true, false, not, ◌&&◌, Option, none, some, List, [], ◌∷◌, ◌++◌, ◌*◌, ◌==◌,
  if◌then◌else◌,
}
use neo_lloyds.Prelude.Int.{pos, leb_ℤ, ltb_ℤ}
use neo_lloyds.Errors.{
  Result, ok, err, throw_if, ◌>>=◌, ◌>>◌, currency_mismatch, approval_required, stale_approval,
  not_approved,
}
use neo_lloyds.Double.Signed.{Double, decimal, of_int, add, subtract, multiply, divide, ltb_double}
use neo_lloyds.Uncertainty.{EstimateBasis, insufficient_data}
use neo_lloyds.Scoring.{RiskScore}
use neo_lloyds.Identity.{
  ApprovalBand, low, medium, high, extreme, ApprovalControl, control_for, may_proceed_without_human,
}
use neo_lloyds.Money.{Money, is_zero, same_currency, compare_money, is_more, scale_money}

pub record ApprovalThresholds : Type 0 where
  pub low_max_ratio : Double
  pub medium_max_ratio : Double
  pub high_max_ratio : Double
  pub low_max_expected_loss : Money
  pub min_confidence_for_automation : Double

abbrev pub default_approval_thresholds : ApprovalThresholds
default_approval_thresholds = record {
  low_max_ratio = decimal 5 100;
  medium_max_ratio = decimal 2 10;
  high_max_ratio = decimal 5 10;
  low_max_expected_loss = record { amount_minor = pos 5000000; currency = "USD" };
  min_confidence_for_automation = decimal 75 100;
}

-- `melMinor === 0 ? 0 : expected / melMinor`
unfoldable pub loss_ratio : RiskScore → Double
unfolding is_zero
loss_ratio score =
    if is_zero score.maximum_estimated_loss
    then pos 0
    else divide (of_int score.expected_loss.expected.amount_minor)
        (of_int score.maximum_estimated_loss.amount_minor)

-- The ladder of tests at the end of `classifyBand`.
abbrev pub band_of : ApprovalThresholds → Double → Bool → Bool → ApprovalBand
band_of t ratio under_absolute_ceiling confident_enough =
    if leb_ℤ ratio t.low_max_ratio && (under_absolute_ceiling && confident_enough)
    then low
    else if leb_ℤ ratio t.medium_max_ratio
    then medium
    else if leb_ℤ ratio t.high_max_ratio
    then high
    else extreme

unfoldable pub classify_band : RiskScore → ApprovalThresholds → Result ApprovalBand
unfolding loss_ratio
classify_band score t = do
  throw_if (not (same_currency score.maximum_estimated_loss t.low_max_expected_loss))
      currency_mismatch
  comparison ← compare_money score.expected_loss.expected t.low_max_expected_loss
  ok (
      band_of t (loss_ratio score) (not (is_more comparison))
        (leb_ℤ t.min_confidence_for_automation score.probability.confidence_in))

pub record PremiumRange : Type 0 where
  pub range_low : Money
  pub range_high : Money

unfoldable pub suggest_premium_range : RiskScore → Result PremiumRange
suggest_premium_range score = do
  let uncertainty_load = subtract (of_int (pos 1)) score.confidence_in
  let margin_high = add (decimal 115 100) (multiply uncertainty_load (decimal 85 100))
  range_low ← scale_money score.expected_loss.expected (decimal 115 100)
  range_high ← scale_money score.expected_loss.loss_high margin_high
  ok (record { range_low = range_low; range_high = range_high })

pub data Remark : Type 0 where
  insufficient_data_to_price portfolio_correlation_review concentration_limit_review
        additional_evidence :
      Remark

pub record UnderwritingAssessment : Type 0 where
  pub risk_id : ℕ
  pub eligible : Bool
  pub band : ApprovalBand
  pub control : ApprovalControl
  pub requires_human_approval : Bool
  pub risk_score_confidence : Double
  pub expected_loss : Money
  pub suggested_premium_range : PremiumRange
  pub capital_requirement : Money
  pub suggested_capacity : Money
  pub exclusions : List Remark
  pub conditions : List Remark
  pub required_evidence : List Remark
  pub model_version : ℕ

-- `UNDERWRITING_MODEL_VERSION`, of which only equality matters.
abbrev pub underwriting_model_version : ℕ
underwriting_model_version = 1

abbrev pub is_eligible : EstimateBasis → Bool
is_eligible insufficient_data = false
is_eligible _ = true

abbrev pub remark_if : Bool → Remark → List Remark
remark_if true r = r ∷ []
remark_if false r = []

unfoldable pub assess_underwriting : RiskScore → ApprovalThresholds → Result UnderwritingAssessment
unfolding classify_band suggest_premium_range
assess_underwriting score t = do
  band ← classify_band score t
  range ← suggest_premium_range score
  ok (record {
    risk_id = score.risk_id;
    eligible = is_eligible score.probability.basis;
    band = band;
    control = control_for band;
    requires_human_approval = not (may_proceed_without_human band);
    risk_score_confidence = score.confidence_in;
    expected_loss = score.expected_loss.expected;
    suggested_premium_range = range;
    capital_requirement = score.expected_loss.loss_high;
    suggested_capacity = score.maximum_estimated_loss;
    exclusions = remark_if (not (is_eligible score.probability.basis)) insufficient_data_to_price;
    conditions =
        remark_if (ltb_double (decimal 3 10) score.correlation_score.expected)
          portfolio_correlation_review
        ++ remark_if (ltb_double (decimal 1 10) score.concentration_score.expected)
            concentration_limit_review;
    required_evidence =
        remark_if (ltb_double score.confidence_in t.min_confidence_for_automation)
          additional_evidence;
    model_version = underwriting_model_version;
  })

pub data UnderwritingDecision : Type 0 where
  approved rejected : UnderwritingDecision

-- The approver, the reason and the time are not read by the gate.
pub record UnderwritingApproval : Type 0 where
  pub risk_id : ℕ
  pub assessment_model_version : ℕ
  pub decision : UnderwritingDecision

abbrev pub is_approved : UnderwritingDecision → Bool
is_approved approved = true
is_approved rejected = false

abbrev pub check_approval : UnderwritingAssessment → Option UnderwritingApproval → Result (Unit {0})
check_approval assessment none = err approval_required
check_approval assessment (some approval) = do
  throw_if (not (approval.assessment_model_version == assessment.model_version)) stale_approval
  throw_if (not (is_approved approval.decision)) not_approved

unfoldable pub require_approval_if_needed :
    UnderwritingAssessment → Option UnderwritingApproval → Result (Unit {0})
require_approval_if_needed assessment approval =
    if not assessment.requires_human_approval then ok tt else check_approval assessment approval
