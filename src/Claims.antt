-- ===== src/Claims.antt =====
-- packages/domain/src/claims.ts: the claim's life cycle, the coverage test, the review decision and
-- the payouts.
pub mod Store
pub mod Service
pub mod Cycle
pub mod Coverage
pub mod Payouts
pub mod Overcommit
pub mod Guards
use neo_lloyds.Prelude.{ℕ, Bool, true, false, not, Option, none, some, List, [], ◌∷◌, map}
use neo_lloyds.Errors.{
  Result, ok, err, throw_if, ◌>>=◌, ◌>>◌, invalid_claim_transition, syndication_not_bound,
  loss_exceeds_remaining_capacity, currency_mismatch, claim_approval_required, claim_not_approved,
  no_bound_allocations,
}
use neo_lloyds.Double.Signed.{of_int}
use neo_lloyds.Money.{Money, same_currency, compare_money, subtract_money, is_more}
use neo_lloyds.Money.Allocate.{allocate_money, is_empty}
use neo_lloyds.Syndication.{Allocation}
use neo_lloyds.Capital.{SyndicationStatus, bound}
use neo_lloyds.Identity.{includes}

pub data ClaimStatus : Type 0 where
  reported evidence_collected verified coverage_confirmed loss_calculated : ClaimStatus
  awaiting_approval approved rejected settled : ClaimStatus

abbrev pub claim_index : ClaimStatus → ℕ
claim_index reported = 0
claim_index evidence_collected = 1
claim_index verified = 2
claim_index coverage_confirmed = 3
claim_index loss_calculated = 4
claim_index awaiting_approval = 5
claim_index approved = 6
claim_index rejected = 7
claim_index settled = 8

unfoldable pub claim_transitions : ClaimStatus → List ClaimStatus
claim_transitions reported = evidence_collected ∷ []
claim_transitions evidence_collected = verified ∷ []
claim_transitions verified = coverage_confirmed ∷ []
claim_transitions coverage_confirmed = loss_calculated ∷ []
claim_transitions loss_calculated = awaiting_approval ∷ approved ∷ []
claim_transitions awaiting_approval = approved ∷ rejected ∷ []
claim_transitions approved = settled ∷ []
claim_transitions rejected = []
claim_transitions settled = []

unfoldable pub can_transition_claim : ClaimStatus → ClaimStatus → Bool
unfolding claim_transitions includes
can_transition_claim from to = includes (map claim_index (claim_transitions from)) (claim_index to)

unfoldable pub require_claim_transition : ClaimStatus → ClaimStatus → Result (Unit {0})
require_claim_transition from to =
    throw_if (not (can_transition_claim from to)) invalid_claim_transition

abbrev pub is_bound : SyndicationStatus → Bool
is_bound bound = true
is_bound _ = false

unfoldable pub require_coverage : SyndicationStatus → Money → Money → Money → Result (Unit {0})
require_coverage status capacity prior_approved_loss claimed_loss = do
  throw_if (not (is_bound status)) syndication_not_bound
  remaining ← subtract_money capacity prior_approved_loss
  comparison ← compare_money claimed_loss remaining
  throw_if (is_more comparison) loss_exceeds_remaining_capacity

pub data ReviewDecision : Type 0 where
  auto human_review : ReviewDecision

abbrev pub review_of : Bool → ReviewDecision
review_of true = human_review
review_of false = auto

unfoldable pub classify_review : Money → Money → Result ReviewDecision
classify_review claimed_loss auto_approval_ceiling = do
  throw_if (not (same_currency claimed_loss auto_approval_ceiling)) currency_mismatch
  comparison ← compare_money claimed_loss auto_approval_ceiling
  ok (review_of (is_more comparison))

pub data ClaimDecision : Type 0 where
  approve reject : ClaimDecision

-- A recorded decision; the approver, the reason and the time are not read by the domain.
unfoldable pub require_claim_approval_if_needed :
    ReviewDecision → Option ClaimDecision → Result (Unit {0})
require_claim_approval_if_needed auto approval = ok tt
require_claim_approval_if_needed human_review none = err claim_approval_required
require_claim_approval_if_needed human_review (some reject) = err claim_not_approved
require_claim_approval_if_needed human_review (some approve) = ok tt

pub record ClaimPayout : Type 0 where
  pub organisation_id : ℕ
  pub amount : Money

-- The amounts stand in the order of the allocations, one for each.
unfoldable pub payouts_of : List Allocation → List Money → List ClaimPayout
payouts_of (a ∷ rest) (m ∷ ms) =
    record { organisation_id = a.organisation_id; amount = m } ∷ payouts_of rest ms
payouts_of _ _ = []

unfoldable pub compute_claim_payouts : Money → List Allocation → Result (List ClaimPayout)
compute_claim_payouts loss bound_allocations = do
  throw_if (is_empty bound_allocations) no_bound_allocations
  amounts ← allocate_money loss (map (λ a. of_int a.share_bps) bound_allocations)
  ok (payouts_of bound_allocations amounts)
