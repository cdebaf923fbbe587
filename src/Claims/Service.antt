-- ===== src/Claims/Service.antt =====
-- `ClaimsService` of apps/api/src/claims/claims.service.ts, method by method. A fresh identifier is
-- an argument of `report`, since the source draws it at random.
use neo_lloyds.Prelude.{ℕ, Bool, true, false, Option, none, some, List, [], ◌∷◌, ◌++◌}
use neo_lloyds.Errors.{
  err, throw_if, not_found, syndication_not_bound, claim_not_awaiting_approval, invariant_violated,
}
use neo_lloyds.Prelude.{not}
use neo_lloyds.Money.{Money}
use neo_lloyds.Syndication.{Allocation}
use neo_lloyds.Identity.{
  AuthContext, risk_originator, broker, claims_administrator, settlement_provider, read, write,
  require_any_role, require_tenant_access,
}
use neo_lloyds.Claims.{
  ClaimStatus, reported, coverage_confirmed, loss_calculated, awaiting_approval, approved, rejected,
  settled, require_claim_transition, is_bound, require_coverage, ReviewDecision, auto, human_review,
  classify_review, ClaimDecision, approve, reject, require_claim_approval_if_needed,
  compute_claim_payouts,
}
use neo_lloyds.Claims.Store.{
  StoredClaim, StoredSyndication, Action, ◌>>=◌, ◌>>◌, pure, call, gets, or_throw, modify,
  find_claim, find_syndication, set_payouts, total_approved_loss, write_claim, record_audit,
  AuditAction, claim_reported, evidence_added, claim_transition, loss_calculation, payouts_computed,
  claim_decided, claim_settled,
}

unfoldable pub must_find : ℕ → Action StoredClaim
must_find claim_id = do or_throw (← gets (λ s. find_claim claim_id s.claims)) not_found

unfoldable pub must_find_syndication : ℕ → Action StoredSyndication
must_find_syndication i = do or_throw (← gets (λ s. find_syndication i s.syndications)) not_found

abbrev pub audit : AuthContext → AuditAction → ℕ → Action (Unit {0})
audit ctx action subject =
    record_audit (record { actor = ctx.subject_id; action = action; subject = subject })

-- A new claim, with everything that is not known yet empty.
abbrev pub new_claim : ℕ → ℕ → AuthContext → StoredClaim
new_claim fresh_id syndication_id ctx = record {
  id = fresh_id;
  syndication_id = syndication_id;
  organisation_id = ctx.organisation_id;
  status = reported;
  evidence_refs = [];
  reported_by = ctx.subject_id;
  claimed_loss = none;
  review_decision = none;
  approver_subject_id = none;
  approval_decision = none;
}

unfoldable pub report : AuthContext → ℕ → ℕ → Action StoredClaim
unfolding must_find_syndication
report ctx fresh_id syndication_id = do
  call (require_any_role ctx (risk_originator ∷ broker ∷ []))
  syndication ← must_find_syndication syndication_id
  call (require_tenant_access ctx syndication.organisation_id write)
  let claim = new_claim fresh_id syndication_id ctx
  modify (λ s. record s { claims = s.claims ++ claim ∷ [] })
  audit ctx claim_reported fresh_id
  pure claim

unfoldable pub add_evidence : AuthContext → ℕ → ℕ → Action StoredClaim
unfolding must_find
add_evidence ctx claim_id evidence_ref = do
  call (require_any_role ctx (risk_originator ∷ broker ∷ claims_administrator ∷ []))
  claim ← must_find claim_id
  call (require_tenant_access ctx claim.organisation_id write)
  updated ← write_claim (record claim { evidence_refs = claim.evidence_refs ++ evidence_ref ∷ [] })
  audit ctx evidence_added claim_id
  pure updated

-- Coverage is confirmed against a bound syndication only.
unfoldable pub check_bound : ClaimStatus → ℕ → Action (Unit {0})
unfolding must_find_syndication
check_bound coverage_confirmed syndication_id = do
  syndication ← must_find_syndication syndication_id
  call (throw_if (not (is_bound syndication.status)) syndication_not_bound)
check_bound _ syndication_id = pure tt

unfoldable pub advance : AuthContext → ℕ → ClaimStatus → Action StoredClaim
unfolding must_find check_bound
advance ctx claim_id to = do
  call (require_any_role ctx (claims_administrator ∷ []))
  claim ← must_find claim_id
  call (require_tenant_access ctx claim.organisation_id read)
  call (require_claim_transition claim.status to)
  check_bound to claim.syndication_id
  updated ← write_claim (record claim { status = to })
  audit ctx claim_transition claim_id
  pure updated

-- `listAllocations`, which is empty for a syndication that is not there.
abbrev pub allocations_of : Option StoredSyndication → List Allocation
allocations_of none = []
allocations_of (some y) = y.allocations

unfoldable pub record_payouts : AuthContext → ℕ → StoredClaim → Option Money → Action (Unit {0})
unfolding must_find_syndication
record_payouts ctx syndication_id claim none = call (err invariant_violated)
record_payouts ctx syndication_id claim (some loss) = do
  allocations ← gets (λ s. allocations_of (find_syndication syndication_id s.syndications))
  payouts ← call (compute_claim_payouts loss allocations)
  modify (λ s. record s { payouts = set_payouts claim.id payouts s.payouts })
  audit ctx payouts_computed claim.id

abbrev pub status_after_review : ReviewDecision → ClaimStatus
status_after_review auto = approved
status_after_review human_review = awaiting_approval

-- Payouts follow at once where nobody has to look.
unfoldable pub pay_if_auto : AuthContext → ReviewDecision → ℕ → StoredClaim → Action (Unit {0})
unfolding record_payouts
pay_if_auto ctx auto syndication_id claim =
    record_payouts ctx syndication_id claim claim.claimed_loss
pay_if_auto ctx human_review syndication_id claim = pure tt

unfoldable pub calculate_loss : AuthContext → ℕ → Money → Money → Action StoredClaim
unfolding must_find must_find_syndication pay_if_auto
calculate_loss ctx claim_id claimed_loss auto_approval_ceiling = do
  call (require_any_role ctx (claims_administrator ∷ []))
  claim ← must_find claim_id
  call (require_tenant_access ctx claim.organisation_id read)
  call (require_claim_transition claim.status loss_calculated)
  syndication ← must_find_syndication claim.syndication_id
  prior ← gets (total_approved_loss claim.syndication_id claimed_loss.currency)
  call (require_coverage syndication.status syndication.capacity prior claimed_loss)
  review ← call (classify_review claimed_loss auto_approval_ceiling)
  call (require_claim_transition loss_calculated (status_after_review review))
  updated ← write_claim (record claim {
    claimed_loss = some claimed_loss;
    review_decision = some review;
    status = status_after_review review;
  })
  pay_if_auto ctx review claim.syndication_id updated
  audit ctx loss_calculation claim_id
  pure updated

abbrev pub status_after_decision : ClaimDecision → ClaimStatus
status_after_decision approve = approved
status_after_decision reject = rejected

-- An approval is checked against the domain's gate, and then paid.
unfoldable pub pay_if_approved : AuthContext → ClaimDecision → ℕ → StoredClaim → Action (Unit {0})
unfolding record_payouts
pay_if_approved ctx reject syndication_id claim = pure tt
pay_if_approved ctx approve syndication_id claim = do
  call (require_claim_approval_if_needed human_review (some approve))
  record_payouts ctx syndication_id claim claim.claimed_loss

abbrev pub is_awaiting : ClaimStatus → Bool
is_awaiting awaiting_approval = true
is_awaiting _ = false

unfoldable pub decide : AuthContext → ℕ → ClaimDecision → Action StoredClaim
unfolding must_find pay_if_approved
decide ctx claim_id decision = do
  call (require_any_role ctx (claims_administrator ∷ []))
  claim ← must_find claim_id
  call (require_tenant_access ctx claim.organisation_id read)
  call (throw_if (not (is_awaiting claim.status)) claim_not_awaiting_approval)
  call (require_claim_transition awaiting_approval (status_after_decision decision))
  updated ← write_claim (record claim {
    approver_subject_id = some ctx.subject_id;
    approval_decision = some decision;
    status = status_after_decision decision;
  })
  pay_if_approved ctx decision claim.syndication_id updated
  audit ctx claim_decided claim_id
  pure updated

unfoldable pub settle : AuthContext → ℕ → Action StoredClaim
unfolding must_find
settle ctx claim_id = do
  call (require_any_role ctx (claims_administrator ∷ settlement_provider ∷ []))
  claim ← must_find claim_id
  call (require_tenant_access ctx claim.organisation_id read)
  call (require_claim_transition claim.status settled)
  updated ← write_claim (record claim { status = settled })
  audit ctx claim_settled claim_id
  pure updated
