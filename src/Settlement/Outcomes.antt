-- ===== src/Settlement/Outcomes.antt =====
-- What a call of `initiate` can come to, and how it gets there.
use neo_lloyds.Prelude.{
  ℕ, Bool, true, false, ◌==◌, ◌≡◌, refl, ◌∙◌, ◌⊎◌, inl, inr, none, some, [], ◌∷◌, ◌++◌,
  if◌then◌else◌, Bool-cases, arith,
}
use neo_lloyds.Prelude.Dict.{Dict, get, set, get-set, get-set-same}
use neo_lloyds.Errors.{Result, ok, err, DomainError}
use neo_lloyds.Identity.{AuthContext, claims_administrator, settlement_provider, require_any_role}
use neo_lloyds.Settlement.{
  submitted, confirmed, failed, SettlementCalculation, calculate_settlement,
  require_settlement_transition, can_transition_settlement, settlement_transitions,
}
use neo_lloyds.Identity.{includes}
use neo_lloyds.Settlement.Providers.{SubmissionResult, Submission, SettlementProvider}
use neo_lloyds.Settlement.Service.{
  StoredTransaction, AuditEntry, Store, SettlementInput, default_fee_config, or_else,
  new_transaction, with_status, set_status, submission_of, final_status, finish, initiate,
}

abbrev pub MayInitiate : AuthContext → Type 0
MayInitiate ctx = require_any_role ctx (claims_administrator ∷ settlement_provider ∷ []) ≡ ok tt

abbrev pub calculation_of : SettlementInput → Result SettlementCalculation
calculation_of input =
    calculate_settlement input.gross_amount (or_else input.fee_config default_fee_config)

-- The transaction before the provider is called, and after its answer.
abbrev pub submitted_transaction :
    AuthContext → ℕ → ℕ → SettlementInput → SettlementCalculation → StoredTransaction
submitted_transaction ctx id now input calc =
    with_status submitted none none (new_transaction id now ctx.organisation_id input calc)

abbrev pub final_transaction : SubmissionResult → StoredTransaction → StoredTransaction
final_transaction result t =
    with_status (final_status result.succeeded) (some result.provider_ref) result.failure_reason t

-- The transactions are those of before and one more.
abbrev pub IsAdded : StoredTransaction → Store → Store → Type 0
IsAdded t s s' =
    (j : ℕ) → get j s'.transactions ≡ (if t.id == j then some t else get j s.transactions)

abbrev pub audited : AuthContext → StoredTransaction → Bool → AuditEntry
audited ctx t allowed = record { actor = ctx.subject_id; subject = t.id; allowed = allowed }

pub transition_ok : (b : Bool) → require_settlement_transition submitted (final_status b) ≡ ok tt
unfolding require_settlement_transition can_transition_settlement settlement_transitions includes
transition_ok true = refl
transition_ok false = refl

pub finish_lem :
    (ctx : AuthContext) (id : ℕ) (result : SubmissionResult) (s : Store) (t : StoredTransaction)
    → get id s.transactions ≡ some t
    → t.id ≡ id
    → finish ctx id result s ≡ (
      ok (final_transaction result t),
      record {
        transactions = set id (final_transaction result t) s.transactions;
        audit_log = s.audit_log ++ audited ctx t result.succeeded ∷ [];
      },
    )
unfolding finish set_status
finish_lem ctx id result s t found is = let moved = transition_ok result.succeeded in ground arith

-- A call up to the provider's answer.
pub initiate_lem :
    (p : SettlementProvider) (ctx : AuthContext) (id now : ℕ) (input : SettlementInput) (s : Store)
    (calc : SettlementCalculation)
    → MayInitiate ctx
    → calculation_of input ≡ ok calc
    → let t = submitted_transaction ctx id now input calc in
      let d =
        set id t (set id (new_transaction id now ctx.organisation_id input calc) s.transactions) in
      let s' : Store = record s { transactions = d } in
      initiate p ctx id now input s
      ≡ elim (p (submission_of t)) [ ok result ↦ finish ctx id result s' | err e ↦ (err e, s') ]
unfolding initiate set_status require_settlement_transition can_transition_settlement
    settlement_transitions includes
initiate_lem p ctx id now input s calc may is =
    let created = new_transaction id now ctx.organisation_id input calc in
    let found = get-set-same id created s.transactions in ground arith

-- A key that is set again keeps only the last value.
pub set_again :
    (id j : ℕ) (t u : StoredTransaction) (d : Dict StoredTransaction)
    → (if id == j then some t else get j (set id u d)) ≡ (if id == j then some t else get j d)
set_again id j t u d = elim (Bool-cases (id == j)) [
  | inl hit ↦ rw hit refl
  | inr miss ↦ rw miss (get-set id j u d ∙ rw miss refl)
]

-- The net amount goes to the provider.
abbrev pub net_submission : ℕ → SettlementInput → SettlementCalculation → Submission
net_submission id input calc = record {
  transaction_id = id;
  method = input.method;
  amount_minor = calc.net_amount.amount_minor;
  currency = calc.net_amount.currency;
  destination_account_id = input.destination_account_id;
}

pub status_cases :
    (b : Bool)
    → ((b ≡ true) × (final_status b ≡ confirmed)) ⊎ ((b ≡ false) × (final_status b ≡ failed))
status_cases true = inl (refl, refl)
status_cases false = inr (refl, refl)

-- What a call has done that has returned the transaction t.
pub record IsSettled (p : SettlementProvider) (ctx : AuthContext) (id now : ℕ)
    (input : SettlementInput) (s : Store) (t : StoredTransaction) (s' : Store) : Type 0 where
  pub calc : SettlementCalculation
  pub result : SubmissionResult
  pub allowed : MayInitiate ctx
  pub computed : calculation_of input ≡ ok calc
  pub answered : p (net_submission id input calc) ≡ ok result
  pub status_is :
      ((result.succeeded ≡ true) × (t.status ≡ confirmed))
      ⊎ ((result.succeeded ≡ false) × (t.status ≡ failed))
  pub referenced : t.provider_ref ≡ some result.provider_ref
  pub split : (t.fee ≡ calc.fee) × (t.net_amount ≡ calc.net_amount)
  pub returned : t ≡ final_transaction result (submitted_transaction ctx id now input calc)
  pub added : IsAdded t s s'
  pub logged : s'.audit_log ≡ s.audit_log ++ audited ctx t result.succeeded ∷ []

-- What a call has left that has thrown because the provider has.
pub record IsStuck (p : SettlementProvider) (ctx : AuthContext) (id now : ℕ)
    (input : SettlementInput) (s : Store) (e : DomainError) (s' : Store) : Type 0 where
  pub calc : SettlementCalculation
  pub computed : calculation_of input ≡ ok calc
  pub thrown : p (net_submission id input calc) ≡ err e
  pub kept : (submitted_transaction ctx id now input calc).status ≡ submitted
  pub added : IsAdded (submitted_transaction ctx id now input calc) s s'
  pub logged : s'.audit_log ≡ s.audit_log

-- What a call can come to.
pub data Outcome (p : SettlementProvider) (ctx : AuthContext) (id now : ℕ) (input : SettlementInput)
    (s : Store) (r : Result StoredTransaction × Store) : Type 0 where
  refused_call : (e : DomainError) → r ≡ (err e, s) → Outcome p ctx id now input s r
  stuck :
      (e : DomainError)
      → r.0 ≡ err e
      → IsStuck p ctx id now input s e r.1
      → Outcome p ctx id now input s r
  settled_call :
      (t : StoredTransaction)
      → r.0 ≡ ok t
      → IsSettled p ctx id now input s t r.1
      → Outcome p ctx id now input s r
