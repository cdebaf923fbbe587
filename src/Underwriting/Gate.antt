-- ===== src/Underwriting/Gate.antt =====
-- What an assessment needs before it proceeds.
use neo_lloyds.Prelude.{
  ◌≡◌, refl, ap, subst, ◌∙◌, Bool-cases, ◌↔◌, ◌⊎◌, inl, inr, false, not, Option, none, some, arith,
}
use neo_lloyds.Prelude.Int.{◌≤ℤ◌}
use neo_lloyds.Errors.{ok, >>=-eq-ok, ok_injective}
use neo_lloyds.Identity.{ApprovalBand, low, may_proceed_without_human, control_for}
use neo_lloyds.Money.{compare_money, assert_same_currency}
use neo_lloyds.Scoring.{RiskScore}
use neo_lloyds.Underwriting.{
  ApprovalThresholds, UnderwritingAssessment, UnderwritingApproval, approved, classify_band,
  loss_ratio, assess_underwriting, suggest_premium_range, require_approval_if_needed,
}

-- An approval that was recorded for the assessment's model version.
abbrev pub IsApproval : UnderwritingAssessment → UnderwritingApproval → Type 0
IsApproval assessment a =
    (a.assessment_model_version ≡ assessment.model_version) × (a.decision ≡ approved)

-- The gate opens exactly for an assessment that needs no human, or with an approval on record that
-- says so for the same model version.
pub require_approval_if_needed_iff :
    (assessment : UnderwritingAssessment) (approval : Option UnderwritingApproval)
    → (require_approval_if_needed assessment approval ≡ ok tt) ↔ (
        (assessment.requires_human_approval ≡ false)
        ⊎ ((a : UnderwritingApproval) × (approval ≡ some a) × IsApproval assessment a))
unfolding require_approval_if_needed
require_approval_if_needed_iff assessment none = ground arith
require_approval_if_needed_iff assessment (some a) = (
  λ h. elim (Bool-cases assessment.requires_human_approval) [
    | inl needed ↦ inr (a, refl, (ground arith, ground arith))
    | inr free ↦ inl free
  ],
  λ e. elim e [
    | inl free ↦ ground arith
    | inr (b, is, holds) ↦
        let same : a ≡ b = ground arith in
        let version =
          ap (λ (x : UnderwritingApproval). x.assessment_model_version) same ∙ holds.0 in
        let decided = ap (λ (x : UnderwritingApproval). x.decision) same ∙ holds.1 in ground arith
  ],
)

-- What the band LOW stands for.
pub record IsLow (score : RiskScore) (t : ApprovalThresholds) : Type 0 where
  pub small_ratio : loss_ratio score ≤ℤ t.low_max_ratio
  pub under_ceiling :
      score.expected_loss.expected.amount_minor ≤ℤ t.low_max_expected_loss.amount_minor
  pub confident : t.min_confidence_for_automation ≤ℤ score.probability.confidence_in

classify_band-low :
    (score : RiskScore) (t : ApprovalThresholds) → classify_band score t ≡ ok low → IsLow score t
unfolding classify_band compare_money assert_same_currency
classify_band-low score t h = record {
  small_ratio = ground arith;
  under_ceiling = ground arith;
  confident = ground arith;
}

automated : (band : ApprovalBand) → not (may_proceed_without_human band) ≡ false → band ≡ low
unfolding may_proceed_without_human control_for
automated low h = refl
automated _ h = ground arith

free_of :
    (assessment : UnderwritingAssessment)
    → require_approval_if_needed assessment none ≡ ok tt
    → assessment.requires_human_approval ≡ false
unfolding require_approval_if_needed
free_of assessment h = ground arith

-- An assessment that proceeds with no approval on record is of a risk whose expected loss is at most the
-- absolute ceiling and the least ratio, and whose probability is known with the confidence that
-- automation asks for.
pub assess_underwriting-automated :
    (score : RiskScore) (t : ApprovalThresholds) {assessment : UnderwritingAssessment}
    → assess_underwriting score t ≡ ok assessment
    → require_approval_if_needed assessment none ≡ ok tt
    → IsLow score t
unfolding assess_underwriting
assess_underwriting-automated score t {assessment} h gate =
    let (band, classified, h₁) = >>=-eq-ok (classify_band score t) _ h in
    let (_, _, h₂) = >>=-eq-ok (suggest_premium_range score) _ h₁ in
    let needs = ap (λ (x : UnderwritingAssessment). x.requires_human_approval) (ok_injective h₂) in
    let is_low = automated band (needs ∙ free_of assessment gate) in
    classify_band-low score t (subst (λ b. classify_band score t ≡ ok b) is_low classified)
