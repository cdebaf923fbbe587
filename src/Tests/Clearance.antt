-- ===== src/Tests/Clearance.antt =====
-- Tests of scoring, of underwriting and of what has to be cleared before a listing: a risk that was
-- assessed, approved, and assessed again with no factor on record.
use neo_lloyds.Prelude.{◌≡◌, refl, List, [], ◌∷◌, none, some, true, false, ◌⊎◌}
use neo_lloyds.Prelude.Int.{pos, ◌+ℤ◌, ◌-ℤ◌}
use neo_lloyds.Prelude.Dict.{get}
use neo_lloyds.Double.{units, half_units, excess, round_half_even, nearest}
use neo_lloyds.Double.Signed.{of_int, add, subtract, multiply, divide, round, floor, decimal}
use neo_lloyds.Errors.{ok}
use neo_lloyds.Identity.{
  require_any_role, has_any_role, includes_role, require_tenant_access, may_proceed_without_human,
  control_for, read, medium, human_underwriter,
}
use neo_lloyds.Money.{
  money, matches_currency_pattern, scale_money, compare_money, assert_same_currency, is_zero,
}
use neo_lloyds.Uncertainty.{
  observed, statistical_model, insufficient_data, estimate, range_estimate, confidence,
  combine_confidence, least,
}
use neo_lloyds.Scoring.{
  RiskFactorsInput, RiskScore, score_risk, assert_input, assert_factors, assert_unit_interval,
  compute_probability, compute_severity, compute_expected_loss,
}
use neo_lloyds.Scoring.Ranges.{IsCalibrated, score_risk-IsCalibrated}
use neo_lloyds.Submission.{ready_for_underwriting}
use neo_lloyds.Underwriting.{
  UnderwritingAssessment, UnderwritingApproval, approved, insufficient_data_to_price,
  additional_evidence, assess_underwriting, classify_band, loss_ratio, suggest_premium_range,
  default_approval_thresholds, require_approval_if_needed,
}
use neo_lloyds.Underwriting.Gate.{IsApproval}
use neo_lloyds.Market.Store.{
  Store, RiskSubmission, StoredAssessment, StoredApproval, StoredListing, open_listing,
}
use neo_lloyds.Market.Repositories.{find_listing_by_submission}
use neo_lloyds.Market.Underwritings.{assess, require_clearance, latest_assessment, latest_approval}
use neo_lloyds.Market.Listings.{ListingInput, list_submission}
use neo_lloyds.Market.Clearance.{assess-require_clearance, list_submission-cleared}
use neo_lloyds.Tests.{dollars}
use neo_lloyds.Tests.Market.{originator}

abbrev request : RiskFactorsInput
request = record {
  risk_id = 3;
  factors = [];
  maximum_estimated_loss = dollars 10000;
  duration_days = pos 0;
  mitigation_coverage = pos 0;
  correlated_risk_count = pos 0;
  concentration_share = pos 0;
}

-- No factor, no confidence: half of the loss is its high end.
abbrev scored : RiskScore
scored = record {
  risk_id = 3;
  probability = record { expected = pos 0; confidence_in = pos 0; basis = insufficient_data };
  severity = record {
    range_low = pos 0;
    expected = pos 0;
    range_high = decimal 5 10;
    confidence_in = pos 0;
    basis = insufficient_data;
  };
  expected_loss = record { loss_low = dollars 0; expected = dollars 0; loss_high = dollars 5000 };
  maximum_estimated_loss = dollars 10000;
  confidence_in = pos 0;
  duration_days = pos 0;
  correlation_score = record {
    expected = pos 0;
    confidence_in = decimal 3 10;
    basis = statistical_model;
  };
  concentration_score = record { expected = pos 0; confidence_in = decimal 9 10; basis = observed };
  mitigation_score = record {
    expected = pos 0;
    confidence_in = decimal 3 10;
    basis = insufficient_data;
  };
}

scores : score_risk request ≡ ok scored
unfolding score_risk assert_input assert_factors assert_unit_interval compute_probability
    compute_severity compute_expected_loss estimate range_estimate confidence combine_confidence
    least scale_money money matches_currency_pattern decimal of_int add subtract multiply divide
    round floor units half_units nearest excess round_half_even ◌+ℤ◌ ◌-ℤ◌
scores = refl

score_risk-IsCalibrated_example : IsCalibrated request scored
score_risk-IsCalibrated_example = score_risk-IsCalibrated request scored scores

-- It is of the band MEDIUM for want of confidence, and cannot be priced.
abbrev rated : UnderwritingAssessment
rated = record {
  risk_id = 3;
  eligible = false;
  band = medium;
  control = human_underwriter;
  requires_human_approval = true;
  risk_score_confidence = pos 0;
  expected_loss = dollars 0;
  suggested_premium_range = record { range_low = dollars 0; range_high = dollars 10000 };
  capital_requirement = dollars 5000;
  suggested_capacity = dollars 10000;
  exclusions = insufficient_data_to_price ∷ [];
  conditions = [];
  required_evidence = additional_evidence ∷ [];
  model_version = 1;
}

abbrev stored : StoredAssessment
stored = record { id = 2; organisation_id = 1; assessment = rated }

abbrev approval : UnderwritingApproval
approval = record { risk_id = 3; assessment_model_version = 1; decision = approved }

abbrev earlier : StoredApproval
earlier = record { assessment_id = 1; approver_subject_id = 8; approval = approval }

abbrev submission : RiskSubmission
submission = record {
  id = 4;
  organisation_id = 1;
  risk_id = 3;
  status = ready_for_underwriting;
  submitted_by = 7;
}

abbrev store_with : List StoredAssessment → Store
store_with l = record {
  nodes = (3, record { organisation_id = 1; jurisdiction = none }) ∷ [];
  submissions = (4, submission) ∷ [];
  assessments = l;
  approvals = earlier ∷ [];
  listings = [];
  appetites = [];
  interests = [];
  syndications = [];
  allocations = [];
  events = [];
  commitments = [];
  audit_log = [];
}

abbrev approved_before : Store
approved_before = store_with []

rates : assess_underwriting scored default_approval_thresholds ≡ ok rated
unfolding assess_underwriting classify_band loss_ratio suggest_premium_range
    may_proceed_without_human control_for compare_money assert_same_currency is_zero scale_money
    money matches_currency_pattern decimal of_int add subtract multiply divide round floor units
    half_units nearest excess round_half_even ◌+ℤ◌ ◌-ℤ◌
rates = refl

reads_own : require_tenant_access originator 1 read ≡ ok tt
unfolding require_tenant_access includes_role
reads_own = refl

assesses : (assess originator 2 3 request none approved_before).0 ≡ ok stored
unfolding assess get require_tenant_access includes_role
assesses = rw (scores, rates) refl

on_record : latest_approval 3 approved_before.approvals ≡ some approval
unfolding latest_approval
on_record = refl

assess-require_clearance_example :
    (require_clearance originator 3 (assess originator 2 3 request none approved_before).1).0
    ≡ ok tt
assess-require_clearance_example =
    assess-require_clearance originator originator 2 3 request none approved_before stored approval
      assesses on_record refl refl reads_own

abbrev input : ListingInput
input = record { risk_class = 0; capacity = dollars 1000; duration_days = pos 0; custody_model = 0 }

abbrev listing : StoredListing
listing = record {
  id = 5;
  organisation_id = 1;
  submission_id = 4;
  risk_id = 3;
  risk_class = 0;
  jurisdiction = 1;
  capacity = dollars 1000;
  status = open_listing;
  duration_days = pos 0;
  custody_model = 0;
  closed_at = none;
}

lists : (list_submission originator 5 4 input (store_with (stored ∷ []))).0 ≡ ok listing
unfolding list_submission require_clearance get require_any_role has_any_role includes_role
    require_tenant_access latest_assessment latest_approval require_approval_if_needed
    find_listing_by_submission
lists = refl

list_submission-cleared_example :
    (found : RiskSubmission) × (last : StoredAssessment) × (get 4
        (store_with (stored ∷ [])).submissions
      ≡ some found)
    × (found.status ≡ ready_for_underwriting)
    × (latest_assessment found.risk_id (stored ∷ []) ≡ some last)
    × ((last.assessment.requires_human_approval ≡ false)
        ⊎ ((a : UnderwritingApproval) × (latest_approval found.risk_id (earlier ∷ []) ≡ some a)
            × IsApproval last.assessment a))
list_submission-cleared_example =
    list_submission-cleared originator 5 4 input (store_with (stored ∷ [])) listing lists
