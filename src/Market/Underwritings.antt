-- ===== src/Market/Underwritings.antt =====
-- `SubmissionService` and `UnderwritingService` of apps/api/src/submission/submission.service.ts and
-- apps/api/src/underwriting/underwriting.service.ts, with `InMemorySubmissionRepository` and
-- `InMemoryUnderwritingRepository`. Fresh identifiers are arguments.
use neo_lloyds.Prelude.{ℕ, Option, none, some, List, [], ◌∷◌, ◌++◌, ◌==◌, if◌then◌else◌}
use neo_lloyds.Prelude.Dict.{get, set}
use neo_lloyds.Errors.{not_found, not_assessed}
use neo_lloyds.Identity.{
  AuthContext, underwriter, read, write, require_any_role, require_tenant_access,
}
use neo_lloyds.Submission.{SubmissionStatus, draft, require_transition}
use neo_lloyds.Scoring.{RiskFactorsInput, score_risk}
use neo_lloyds.Underwriting.{
  ApprovalThresholds, UnderwritingApproval, UnderwritingDecision, assess_underwriting,
  require_approval_if_needed, default_approval_thresholds,
}
use neo_lloyds.Service.{Action, ◌>>=◌, ◌>>◌, pure, call, gets, or_throw, modify}
use neo_lloyds.Market.Store.{
  Store, RiskSubmission, StoredAssessment, StoredApproval, submission_create, submission_transition,
  underwriting_assess, underwriting_approve,
}
use neo_lloyds.Market.Syndications.{audit}

abbrev pub new_submission : ℕ → ℕ → AuthContext → RiskSubmission
new_submission fresh_id risk_id ctx = record {
  id = fresh_id;
  organisation_id = ctx.organisation_id;
  risk_id = risk_id;
  status = draft;
  submitted_by = ctx.subject_id;
}

unfoldable pub create_submission : AuthContext → ℕ → ℕ → Action Store RiskSubmission
create_submission ctx fresh_id risk_id = do
  node ← or_throw (← gets (λ s. get risk_id s.nodes)) not_found
  call (require_tenant_access ctx node.organisation_id write)
  let submission = new_submission fresh_id risk_id ctx
  modify (λ s. record s { submissions = set fresh_id submission s.submissions })
  audit ctx submission_create fresh_id
  pure submission

abbrev pub moved_to : SubmissionStatus → RiskSubmission → RiskSubmission
moved_to to submission = record submission { status = to }

unfoldable pub advance_submission : AuthContext → ℕ → SubmissionStatus → Action Store RiskSubmission
advance_submission ctx id to = do
  before ← or_throw (← gets (λ s. get id s.submissions)) not_found
  call (require_tenant_access ctx before.organisation_id write)
  call (require_transition before.status to)
  existing ← or_throw (← gets (λ s. get id s.submissions)) not_found
  modify (λ s. record s { submissions = set id (moved_to to existing) s.submissions })
  audit ctx submission_transition id
  pure (moved_to to existing)

-- `matches.at(-1)`, the last one recorded for the risk.
unfoldable pub latest_assessment : ℕ → List StoredAssessment → Option StoredAssessment
latest_assessment risk_id [] = none
latest_assessment risk_id (a ∷ rest) = elim (latest_assessment risk_id rest) [
  | some later ↦ some later
  | none ↦ if a.assessment.risk_id == risk_id then some a else none
]

unfoldable pub latest_approval : ℕ → List StoredApproval → Option UnderwritingApproval
latest_approval risk_id [] = none
latest_approval risk_id (a ∷ rest) = elim (latest_approval risk_id rest) [
  | some later ↦ some later
  | none ↦ if a.approval.risk_id == risk_id then some a.approval else none
]

abbrev pub thresholds_or_default : Option ApprovalThresholds → ApprovalThresholds
thresholds_or_default none = default_approval_thresholds
thresholds_or_default (some t) = t

-- The request holds what the score takes, under the identifier of the risk.
unfoldable pub assess :
    AuthContext
    → ℕ
    → ℕ
    → RiskFactorsInput
    → Option ApprovalThresholds
    → Action Store StoredAssessment
assess ctx fresh_id risk_id request thresholds = do
  node ← or_throw (← gets (λ s. get risk_id s.nodes)) not_found
  call (require_tenant_access ctx node.organisation_id read)
  score ← call (score_risk (record request { risk_id = risk_id }))
  assessment ← call (assess_underwriting score (thresholds_or_default thresholds))
  let stored : StoredAssessment = record {
    id = fresh_id;
    organisation_id = node.organisation_id;
    assessment = assessment;
  }
  modify (λ s. record s { assessments = s.assessments ++ stored ∷ [] })
  audit ctx underwriting_assess risk_id
  pure stored

unfoldable pub approve : AuthContext → ℕ → UnderwritingDecision → Action Store UnderwritingApproval
unfolding latest_assessment
approve ctx risk_id decision = do
  call (require_any_role ctx (underwriter ∷ []))
  assessment ← or_throw (← gets (λ s. latest_assessment risk_id s.assessments)) not_found
  let approval : UnderwritingApproval = record {
    risk_id = risk_id;
    assessment_model_version = assessment.assessment.model_version;
    decision = decision;
  }
  let stored : StoredApproval = record {
    assessment_id = assessment.id;
    approver_subject_id = ctx.subject_id;
    approval = approval;
  }
  modify (λ s. record s { approvals = s.approvals ++ stored ∷ [] })
  audit ctx underwriting_approve risk_id
  pure approval

unfoldable pub require_clearance : AuthContext → ℕ → Action Store (Unit {0})
unfolding latest_assessment latest_approval
require_clearance ctx risk_id = do
  assessment ← or_throw (← gets (λ s. latest_assessment risk_id s.assessments)) not_assessed
  call (require_tenant_access ctx assessment.organisation_id read)
  approval ← gets (λ s. latest_approval risk_id s.approvals)
  call (require_approval_if_needed assessment.assessment approval)
