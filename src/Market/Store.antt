-- ===== src/Market/Store.antt =====
-- What the services of the market keep: the repositories of apps/api/src/persistence/ports.ts as
-- maps and lists in the order of insertion. Titles, notes, reasons, the identifiers of allocations
-- and events, and the times that nobody reads are left out.
use neo_lloyds.Prelude.{ℕ, Bool, true, false, Option, List}
use neo_lloyds.Prelude.Int.{ℤ}
use neo_lloyds.Prelude.Dict.{Dict}
use neo_lloyds.Double.Signed.{Double}
use neo_lloyds.Money.{Money}
use neo_lloyds.Submission.{SubmissionStatus}
use neo_lloyds.Underwriting.{UnderwritingAssessment, UnderwritingApproval}
use neo_lloyds.Marketplace.{Listing, CapitalAppetite}
use neo_lloyds.Syndication.{Allocation}
use neo_lloyds.Capital.{CapitalCommitment}
use neo_lloyds.Capital

-- What the services read of a node of the risk graph.
pub record StoredNode : Type 0 where
  pub organisation_id : ℕ
  pub jurisdiction : Option ℕ

pub record RiskSubmission : Type 0 where
  pub id : ℕ
  pub organisation_id : ℕ
  pub risk_id : ℕ
  pub status : SubmissionStatus
  pub submitted_by : ℕ

pub record StoredAssessment : Type 0 where
  pub id : ℕ
  pub organisation_id : ℕ
  pub assessment : UnderwritingAssessment

pub record StoredApproval : Type 0 where
  pub assessment_id : ℕ
  pub approver_subject_id : ℕ
  pub approval : UnderwritingApproval

pub data ListingStatus : Type 0 where
  open_listing matched withdrawn expired : ListingStatus

pub record StoredListing : Type 0 where
  pub id : ℕ
  pub organisation_id : ℕ
  pub submission_id : ℕ
  pub risk_id : ℕ
  pub risk_class : ℕ
  pub jurisdiction : ℕ
  pub capacity : Money
  pub status : ListingStatus
  pub duration_days : Double
  pub custody_model : ℕ
  pub closed_at : Option ℕ

pub record StoredInterest : Type 0 where
  pub listing_id : ℕ
  pub organisation_id : ℕ
  pub indicative_amount : Money
  pub withdrawn_at : Option ℕ

pub record StoredSyndication : Type 0 where
  pub id : ℕ
  pub listing_id : ℕ
  pub organisation_id : ℕ
  pub capacity : Money
  pub status : Capital.SyndicationStatus
  pub bound_at : Option ℕ

pub data EventAction : Type 0 where
  proposed removed bound : EventAction

pub record AllocationEvent : Type 0 where
  pub syndication_id : ℕ
  pub organisation_id : ℕ
  pub action : EventAction
  pub share_bps : ℤ
  pub amount : Money
  pub actor_subject_id : ℕ

-- The action and the subject of an audit record.
pub data AuditAction : Type 0 where
  submission_create submission_transition underwriting_assess underwriting_approve : AuditAction
  listing_create listing_withdraw appetite_set interest_outside_appetite : AuditAction
  interest_express interest_withdraw commitment_set : AuditAction
  syndication_open allocation_propose allocation_withdraw syndication_bind : AuditAction

pub record AuditEntry : Type 0 where
  pub actor : ℕ
  pub action : AuditAction
  pub subject : ℕ

pub record Store : Type 0 where
  pub nodes : Dict StoredNode
  pub submissions : Dict RiskSubmission
  pub assessments : List StoredAssessment
  pub approvals : List StoredApproval
  pub listings : Dict StoredListing
  pub appetites : Dict CapitalAppetite
  pub interests : Dict (List StoredInterest)
  pub syndications : Dict StoredSyndication
  pub allocations : Dict (List Allocation)
  pub events : Dict (List AllocationEvent)
  pub commitments : Dict CapitalCommitment
  pub audit_log : List AuditEntry

abbrev pub is_open : Capital.SyndicationStatus → Bool
is_open Capital.open_status = true
is_open _ = false

abbrev pub is_listed : ListingStatus → Bool
is_listed open_listing = true
is_listed _ = false

-- The fields that the matching of the domain package takes.
abbrev pub terms_of : StoredListing → Listing
terms_of l = record {
  id = l.id;
  risk_class = l.risk_class;
  jurisdiction = l.jurisdiction;
  capacity = l.capacity;
  duration_days = l.duration_days;
  custody_model = l.custody_model;
}
