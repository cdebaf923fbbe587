-- ===== src/Settlement/Service.antt =====
-- `SettlementService` of apps/api/src/settlement/settlement.service.ts, on
-- `InMemorySettlementRepository` of apps/api/src/persistence/in-memory.ts. The fresh identifier and
-- the time of a new transaction are arguments of `initiate`, and so is the provider.
use neo_lloyds.Prelude.{ℕ, Bool, true, false, ltb, ◌==◌, Option, none, some, List, [], ◌∷◌, ◌++◌}
use neo_lloyds.Prelude.Int.{pos}
use neo_lloyds.Prelude.Dict.{Dict, get, set, values}
use neo_lloyds.Prelude.Sorting.{sort}
use neo_lloyds.Errors.{not_found, invariant_violated}
use neo_lloyds.Service
use neo_lloyds.Service.{◌>>=◌, ◌>>◌, pure, call, gets, or_throw, modify}
use neo_lloyds.Money.{Money}
use neo_lloyds.Identity.{
  AuthContext, claims_administrator, settlement_provider, read, require_any_role,
  require_tenant_access,
}
use neo_lloyds.Settlement.{
  SettlementStatus, pending, submitted, confirmed, failed, SettlementFeeConfig,
  SettlementCalculation, calculate_settlement, require_settlement_transition,
}
use neo_lloyds.Settlement.Providers.{
  SettlementMethod, ProviderRef, FailureReason, SubmissionResult, Submission, SettlementProvider,
}

pub record StoredTransaction : Type 0 where
  pub id : ℕ
  pub organisation_id : ℕ
  pub claim_payout_organisation_id : Option ℕ
  pub claim_payout_claim_id : Option ℕ
  pub method : SettlementMethod
  pub status : SettlementStatus
  pub gross_amount : Money
  pub fee : Money
  pub net_amount : Money
  pub provider_ref : Option ProviderRef
  pub destination_account_id : Option ℕ
  pub failure_reason : Option FailureReason
  pub created_at : ℕ

-- The audit record of a settlement: the decision is whether the provider has succeeded.
pub record AuditEntry : Type 0 where
  pub actor : ℕ
  pub subject : ℕ
  pub allowed : Bool

pub record Store : Type 0 where
  pub transactions : Dict StoredTransaction
  pub audit_log : List AuditEntry

abbrev pub Action : Type 0 → Type 0
Action A = Service.Action Store A

pub record SettlementInput : Type 0 where
  pub claim_payout_organisation_id : Option ℕ
  pub claim_payout_claim_id : Option ℕ
  pub method : SettlementMethod
  pub gross_amount : Money
  pub fee_config : Option SettlementFeeConfig
  pub destination_account_id : Option ℕ

unfoldable pub default_fee_config : SettlementFeeConfig
default_fee_config = record { flat_minor = pos 50; bps = pos 25 }

-- `a ?? b`
abbrev pub or_else : {A : Type 0} → Option A → A → A
or_else none b = b
or_else (some a) b = a

abbrev pub or_kept : {A : Type 0} → Option A → Option A → Option A
or_kept none b = b
or_kept (some a) b = some a

abbrev pub write_transaction : StoredTransaction → Action StoredTransaction
write_transaction t = do modify (λ s. record s { transactions = set t.id t s.transactions }); pure t

-- A new transaction, with nothing known of the provider yet.
abbrev pub new_transaction : ℕ → ℕ → ℕ → SettlementInput → SettlementCalculation → StoredTransaction
new_transaction id now organisation_id input calc = record {
  id = id;
  organisation_id = organisation_id;
  claim_payout_organisation_id = input.claim_payout_organisation_id;
  claim_payout_claim_id = input.claim_payout_claim_id;
  method = input.method;
  status = pending;
  gross_amount = calc.gross_amount;
  fee = calc.fee;
  net_amount = calc.net_amount;
  provider_ref = none;
  destination_account_id = input.destination_account_id;
  failure_reason = none;
  created_at = now;
}

abbrev pub with_status :
    SettlementStatus
    → Option ProviderRef
    → Option FailureReason
    → StoredTransaction
    → StoredTransaction
with_status status provider_ref failure_reason t = record t {
  status = status;
  provider_ref = or_kept provider_ref t.provider_ref;
  failure_reason = or_kept failure_reason t.failure_reason;
}

unfoldable pub set_status :
    ℕ → SettlementStatus → Option ProviderRef → Option FailureReason → Action StoredTransaction
set_status id status provider_ref failure_reason = do
  existing ← or_throw (← gets (λ s. get id s.transactions)) invariant_violated
  write_transaction (with_status status provider_ref failure_reason existing)

abbrev pub submission_of : StoredTransaction → Submission
submission_of t = record {
  transaction_id = t.id;
  method = t.method;
  amount_minor = t.net_amount.amount_minor;
  currency = t.net_amount.currency;
  destination_account_id = t.destination_account_id;
}

abbrev pub final_status : Bool → SettlementStatus
final_status true = confirmed
final_status false = failed

abbrev pub audit : AuthContext → ℕ → Bool → Action (Unit {0})
audit ctx subject allowed = modify (λ s. record s {
  audit_log =
      s.audit_log ++ record { actor = ctx.subject_id; subject = subject; allowed = allowed } ∷ [];
})

-- From the answer of the provider on.
unfoldable pub finish : AuthContext → ℕ → SubmissionResult → Action StoredTransaction
unfolding set_status
finish ctx id result = do
  call (require_settlement_transition submitted (final_status result.succeeded))
  transaction ←
      set_status id (final_status result.succeeded) (some result.provider_ref) result.failure_reason
  audit ctx transaction.id result.succeeded
  pure transaction

unfoldable pub initiate :
    SettlementProvider → AuthContext → ℕ → ℕ → SettlementInput → Action StoredTransaction
unfolding set_status finish default_fee_config
initiate provider ctx fresh_id now input = do
  call (require_any_role ctx (claims_administrator ∷ settlement_provider ∷ []))
  calc ←
      call (calculate_settlement input.gross_amount (or_else input.fee_config default_fee_config))
  created ← write_transaction (new_transaction fresh_id now ctx.organisation_id input calc)
  call (require_settlement_transition created.status submitted)
  transaction ← set_status created.id submitted none none
  result ← call (provider (submission_of transaction))
  finish ctx transaction.id result

unfoldable pub get_transaction : AuthContext → ℕ → Action StoredTransaction
get_transaction ctx id = do
  transaction ← or_throw (← gets (λ s. get id s.transactions)) not_found
  call (require_tenant_access ctx transaction.organisation_id read)
  pure transaction

unfoldable pub of_organisation : ℕ → List StoredTransaction → List StoredTransaction
of_organisation i [] = []
of_organisation i (t ∷ ts) =
    let rest = of_organisation i ts in
    elim (t.organisation_id == i) [ true ↦ t ∷ rest | false ↦ rest ]

abbrev pub newest_first : StoredTransaction → StoredTransaction → Bool
newest_first a b = ltb b.created_at a.created_at

unfoldable pub list_transactions : AuthContext → Action (List StoredTransaction)
unfolding of_organisation
list_transactions ctx =
    gets (λ s. sort newest_first (of_organisation ctx.organisation_id (values s.transactions)))
