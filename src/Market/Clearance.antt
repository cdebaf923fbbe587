-- ===== src/Market/Clearance.antt =====
-- What has to be cleared before a risk is listed, and what an approval clears.
use neo_lloyds.Prelude.{
  ℕ, ◌≡◌, refl, sym, ap, ◌∙◌, false, Option, some, List, [], ◌∷◌, ◌++◌, arith, ◌⊎◌, inl, inr,
  Option-cases,
}
use neo_lloyds.Prelude.Dict.{get}
use neo_lloyds.Errors.{ok, Result-cases}
use neo_lloyds.Identity.{AuthContext, read, require_tenant_access}
use neo_lloyds.Submission.{ready_for_underwriting}
use neo_lloyds.Scoring.{RiskFactorsInput, RiskScore, score_risk}
use neo_lloyds.Underwriting.{
  ApprovalThresholds, UnderwritingAssessment, UnderwritingApproval, approved, assess_underwriting,
  underwriting_model_version, require_approval_if_needed,
}
use neo_lloyds.Underwriting.Gate.{require_approval_if_needed_iff, IsApproval}
use neo_lloyds.Market.Store.{Store, StoredAssessment, StoredListing, RiskSubmission}
use neo_lloyds.Market.Underwritings.{
  latest_assessment, latest_approval, assess, require_clearance, thresholds_or_default,
}
use neo_lloyds.Market.Listings.{ListingInput, list_submission}

latest_assessment-append :
    (risk : ℕ) (l : List StoredAssessment) (a : StoredAssessment)
    → a.assessment.risk_id ≡ risk
    → latest_assessment risk (l ++ a ∷ []) ≡ some a
unfolding latest_assessment
latest_assessment-append risk [] a h = ground arith
latest_assessment-append risk (x ∷ l) a h = ground (arith, latest_assessment-append risk l a)

score-risk_id :
    (input : RiskFactorsInput) (score : RiskScore)
    → score_risk input ≡ ok score
    → score.risk_id ≡ input.risk_id
unfolding score_risk
score-risk_id input score h = ground arith

assessed :
    (score : RiskScore) (t : ApprovalThresholds) (a : UnderwritingAssessment)
    → assess_underwriting score t ≡ ok a
    → (a.risk_id ≡ score.risk_id) × (a.model_version ≡ underwriting_model_version)
unfolding assess_underwriting
assessed score t a h = ground arith

-- What an assessment that returned has stored.
pub record Assessed (s : Store) (risk : ℕ) (stored : StoredAssessment) (t : Store) : Type 0 where
  pub risk_id : stored.assessment.risk_id ≡ risk
  pub model_version : stored.assessment.model_version ≡ underwriting_model_version
  pub assessments : t.assessments ≡ s.assessments ++ stored ∷ []
  pub approvals : t.approvals ≡ s.approvals

assess-Assessed :
    (ctx : AuthContext) (fresh risk : ℕ) (request : RiskFactorsInput)
    (t : Option ApprovalThresholds) (s : Store) (stored : StoredAssessment)
    → (assess ctx fresh risk request t s).0 ≡ ok stored
    → Assessed s risk stored (assess ctx fresh risk request t s).1
unfolding assess
assess-Assessed ctx fresh risk request t s stored h =
    elim (Result-cases (score_risk (record request { risk_id = risk }))) [
      | inl (e, failed) ↦ absurd (ground arith)
      | inr (score, scored) ↦
          elim (Result-cases (assess_underwriting score (thresholds_or_default t))) [
            | inl (e, failed) ↦ absurd (ground arith)
            | inr (a, rated) ↦
                let id = score-risk_id (record request { risk_id = risk }) score scored in
                let (same_risk, version) = assessed score (thresholds_or_default t) a rated in
                record {
                  risk_id = ground arith;
                  model_version = ground arith;
                  assessments = ground arith;
                  approvals = ground arith;
                }
          ]
    ]

clearance_of :
    (reader : AuthContext) (risk : ℕ) (t : Store) (stored : StoredAssessment)
    (a : Option UnderwritingApproval)
    → latest_assessment risk t.assessments ≡ some stored
    → latest_approval risk t.approvals ≡ a
    → require_tenant_access reader stored.organisation_id read ≡ ok tt
    → require_approval_if_needed stored.assessment a ≡ ok tt
    → (require_clearance reader risk t).0 ≡ ok tt
unfolding require_clearance
clearance_of reader risk t stored a found on_record reads passes = ground arith

-- An approval clears every later assessment of its risk: where the last approval on record for a risk
-- says so for the current model version, each assessment of that risk that is stored afterwards,
-- whatever its band and its expected loss, is cleared with no new approval, for any caller that may
-- read it.
pub assess-require_clearance :
    (ctx reader : AuthContext) (fresh risk : ℕ) (request : RiskFactorsInput)
    (t : Option ApprovalThresholds) (s : Store) (stored : StoredAssessment)
    (a : UnderwritingApproval)
    → (assess ctx fresh risk request t s).0 ≡ ok stored
    → latest_approval risk s.approvals ≡ some a
    → a.decision ≡ approved
    → a.assessment_model_version ≡ underwriting_model_version
    → require_tenant_access reader stored.organisation_id read ≡ ok tt
    → (require_clearance reader risk (assess ctx fresh risk request t s).1).0 ≡ ok tt
assess-require_clearance ctx reader fresh risk request t s stored a h on_record says version reads =
    let done = assess-Assessed ctx fresh risk request t s stored h in
    let found =
      ap (latest_assessment risk) done.assessments
      ∙ latest_assessment-append risk s.assessments stored done.risk_id in
    let is_approval : IsApproval stored.assessment a = (version ∙ sym done.model_version, says) in
    clearance_of reader risk _ stored (some a) found
      (ap (latest_approval risk) done.approvals ∙ on_record) reads
      ((require_approval_if_needed_iff stored.assessment (some a)).1 (inr (a, refl, is_approval)))

-- What a listing that was made has tested: the submission was ready, and its last assessment either
-- needed no human, or its risk has an approval as the last one on record, for the same model version.
pub list_submission-cleared :
    (ctx : AuthContext) (fresh id : ℕ) (input : ListingInput) (s : Store) (listing : StoredListing)
    → (list_submission ctx fresh id input s).0 ≡ ok listing
    → (submission : RiskSubmission) × (last : StoredAssessment) × (get id s.submissions
        ≡ some submission)
      × (submission.status ≡ ready_for_underwriting)
      × (latest_assessment submission.risk_id s.assessments ≡ some last)
      × ((last.assessment.requires_human_approval ≡ false)
          ⊎ ((a : UnderwritingApproval) × (latest_approval submission.risk_id s.approvals ≡ some a)
              × IsApproval last.assessment a))
unfolding list_submission require_clearance
list_submission-cleared ctx fresh id input s listing h =
    elim (Option-cases (get id s.submissions)) [
      | inl missing ↦ absurd (ground arith)
      | inr (submission, found) ↦
          elim (Option-cases (latest_assessment submission.risk_id s.assessments)) [
            | inl missing ↦ absurd (ground arith)
            | inr (last, rated) ↦
                let approval = latest_approval submission.risk_id s.approvals in
                let gate : require_approval_if_needed last.assessment approval ≡ ok tt =
                  ground arith in
                (
                  submission,
                  last,
                  found,
                  ground arith,
                  rated,
                  (require_approval_if_needed_iff last.assessment approval).0 gate,
                )
          ]
    ]
