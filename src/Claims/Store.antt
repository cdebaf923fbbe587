-- ===== src/Claims/Store.antt =====
-- What the claims service reads and writes: the repositories of claims and syndications
-- (`InMemoryClaimsRepository` and `InMemorySyndicationRepository` of
-- apps/api/src/persistence/in-memory.ts) and the audit log. A map is a list of its entries in the
-- order of insertion. Descriptions, reasons and times are text that no operation reads.
use neo_lloyds.Prelude.{
  ℕ, Bool, true, false, ◌&&◌, Option, none, some, List, [], ◌∷◌, ◌++◌, ◌==◌, if◌then◌else◌,
}
use Prim.Native.String.{String}
use neo_lloyds.Prelude.Int.{ℤ, pos, ◌+ℤ◌}
use neo_lloyds.Errors.{ok}
use neo_lloyds.Service
pub use neo_lloyds.Service.{◌>>=◌, ◌>>◌, pure, call, gets, or_throw, modify}
use neo_lloyds.Money.{Money}
use neo_lloyds.Syndication.{Allocation}
use neo_lloyds.Capital.{SyndicationStatus}
use neo_lloyds.Claims.{ClaimStatus, approved, settled, ReviewDecision, ClaimDecision, ClaimPayout}

pub record StoredClaim : Type 0 where
  pub id : ℕ
  pub syndication_id : ℕ
  pub organisation_id : ℕ
  pub status : ClaimStatus
  pub evidence_refs : List ℕ
  pub reported_by : ℕ
  pub claimed_loss : Option Money
  pub review_decision : Option ReviewDecision
  pub approver_subject_id : Option ℕ
  pub approval_decision : Option ClaimDecision

pub record StoredSyndication : Type 0 where
  pub id : ℕ
  pub organisation_id : ℕ
  pub capacity : Money
  pub status : SyndicationStatus
  pub allocations : List Allocation

-- The action and the subject of an audit record.
pub data AuditAction : Type 0 where
  claim_reported evidence_added claim_transition loss_calculation payouts_computed : AuditAction
  claim_decided claim_settled : AuditAction

pub record AuditEntry : Type 0 where
  pub actor : ℕ
  pub action : AuditAction
  pub subject : ℕ

pub record Store : Type 0 where
  pub claims : List StoredClaim
  pub payouts : List (ℕ × List ClaimPayout)
  pub syndications : List StoredSyndication
  pub audit_log : List AuditEntry

-- A method of the service.
abbrev pub Action : Type 0 → Type 0
Action A = Service.Action Store A

unfoldable pub find_claim : ℕ → List StoredClaim → Option StoredClaim
find_claim i [] = none
find_claim i (c ∷ cs) = if c.id == i then some c else find_claim i cs

-- `this.claims.set(id, updated)`, for a claim that is there.
unfoldable pub set_claim : StoredClaim → List StoredClaim → List StoredClaim
set_claim c [] = []
set_claim c (d ∷ ds) = if d.id == c.id then c ∷ ds else d ∷ set_claim c ds

unfoldable pub find_syndication : ℕ → List StoredSyndication → Option StoredSyndication
find_syndication i [] = none
find_syndication i (y ∷ ys) = if y.id == i then some y else find_syndication i ys

abbrev pub counts_as_approved : ClaimStatus → Bool
counts_as_approved approved = true
counts_as_approved settled = true
counts_as_approved _ = false

abbrev pub loss_amount : Option Money → ℤ
loss_amount none = pos 0
loss_amount (some m) = m.amount_minor

-- The amount that a claim adds to the running total of a syndication.
unfoldable pub approved_loss : ℕ → StoredClaim → ℤ
approved_loss i c =
    if (c.syndication_id == i) && counts_as_approved c.status
    then loss_amount c.claimed_loss
    else pos 0

unfoldable pub approved_total : ℕ → List StoredClaim → ℤ
unfolding approved_loss
approved_total i [] = pos 0
approved_total i (c ∷ cs) = approved_loss i c +ℤ approved_total i cs

-- The total takes the currency of the new claim, whatever the earlier ones had.
unfoldable pub total_approved_loss : ℕ → String → Store → Money
unfolding approved_total
total_approved_loss i currency s = record {
  amount_minor = approved_total i s.claims;
  currency = currency;
}

-- `this.payouts.set(claimId, payouts)`
unfoldable pub set_payouts :
    ℕ → List ClaimPayout → List (ℕ × List ClaimPayout) → List (ℕ × List ClaimPayout)
set_payouts i ps [] = (i, ps) ∷ []
set_payouts i ps ((j, qs) ∷ rest) =
    if j == i then (i, ps) ∷ rest else (j, qs) ∷ set_payouts i ps rest

abbrev pub write_claim : StoredClaim → Action StoredClaim
write_claim c s = (ok c, record s { claims = set_claim c s.claims })

abbrev pub record_audit : AuditEntry → Action (Unit {0})
record_audit e = modify (λ s. record s { audit_log = s.audit_log ++ e ∷ [] })
