-- ===== src/Settlement/Initiate.antt =====
-- What `SettlementService.initiate` does, on every branch.
use neo_lloyds.Prelude.{ℕ, ◌≡◌, refl, ap, sym, subst, ◌∙◌, ◌⊎◌, inl, inr, [], ◌∷◌, ◌++◌, arith}
use neo_lloyds.Prelude.Dict.{set, get-set, get-set-same}
use neo_lloyds.Errors.{Result, ok, err, DomainError, Result-cases, ok_injective, err_injective}
use neo_lloyds.Identity.{AuthContext, claims_administrator, settlement_provider, require_any_role}
use neo_lloyds.Settlement.{SettlementCalculation}
use neo_lloyds.Settlement.Providers.{SubmissionResult, SettlementProvider}
use neo_lloyds.Settlement.Service.{
  StoredTransaction, Store, SettlementInput, new_transaction, submission_of, initiate,
}
use neo_lloyds.Settlement.Outcomes.{
  MayInitiate, calculation_of, submitted_transaction, final_transaction, audited, finish_lem,
  initiate_lem, set_again, status_cases, IsSettled, IsStuck, Outcome, refused_call, stuck,
  settled_call,
}

module _ (p : SettlementProvider) (ctx : AuthContext) (id now : ℕ) (input : SettlementInput)
    (s : Store) where
  not_allowed :
      (e : DomainError)
      → require_any_role ctx (claims_administrator ∷ settlement_provider ∷ []) ≡ err e
      → initiate p ctx id now input s ≡ (err e, s)
  unfolding initiate
  not_allowed e h = ground arith

  not_computed :
      (e : DomainError)
      → MayInitiate ctx
      → calculation_of input ≡ err e
      → initiate p ctx id now input s ≡ (err e, s)
  unfolding initiate
  not_computed e may h = ground arith

  module _ (calc : SettlementCalculation) (may : MayInitiate ctx)
      (computed : calculation_of input ≡ ok calc) where
    abbrev created : StoredTransaction
    created = new_transaction id now ctx.organisation_id input calc

    abbrev sent : StoredTransaction
    sent = submitted_transaction ctx id now input calc

    abbrev stored : Store
    stored = record s { transactions = set id sent (set id created s.transactions) }

    abbrev settled_store : SubmissionResult → Store
    settled_store result = record {
      transactions = set id (final_transaction result sent) stored.transactions;
      audit_log = s.audit_log ++ audited ctx (final_transaction result sent) result.succeeded ∷ [];
    }

    pub initiate-answered :
        (result : SubmissionResult)
        → p (submission_of sent) ≡ ok result
        → initiate p ctx id now input s ≡ (ok (final_transaction result sent), settled_store result)
    initiate-answered result answered =
        let found = get-set-same id sent (set id created s.transactions) in
        initiate_lem p ctx id now input s calc may computed
        ∙ rw answered (finish_lem ctx id result stored sent found refl)

    answered-Outcome :
        (result : SubmissionResult)
        → p (submission_of sent) ≡ ok result
        → Outcome p ctx id now input s (initiate p ctx id now input s)
    answered-Outcome result answered =
        let t = final_transaction result sent in
        rw (initiate-answered result answered) (
          settled_call t refl (record {
            calc = calc;
            result = result;
            allowed = may;
            computed = computed;
            answered = answered;
            status_is = status_cases result.succeeded;
            referenced = refl;
            split = (refl, refl);
            returned = refl;
            added = λ j.
                get-set id j t stored.transactions
                ∙ set_again id j t sent (set id created s.transactions)
                ∙ set_again id j t created s.transactions;
            logged = refl;
          }))

    pub initiate-thrown :
        (e : DomainError)
        → p (submission_of sent) ≡ err e
        → initiate p ctx id now input s ≡ (err e, stored)
    initiate-thrown e thrown = initiate_lem p ctx id now input s calc may computed ∙ rw thrown refl

    thrown-Outcome :
        (e : DomainError)
        → p (submission_of sent) ≡ err e
        → Outcome p ctx id now input s (initiate p ctx id now input s)
    thrown-Outcome e thrown = rw (initiate-thrown e thrown) (
        stuck e refl (record {
          calc = calc;
          computed = computed;
          thrown = thrown;
          kept = refl;
          added = λ j.
              get-set id j sent (set id created s.transactions)
              ∙ set_again id j sent created s.transactions;
          logged = refl;
        }))

  -- Every call is refused and leaves the store as it was, or is stuck at the provider, or settles.
  pub initiate-Outcome : Outcome p ctx id now input s (initiate p ctx id now input s)
  initiate-Outcome =
      elim (Result-cases (require_any_role ctx (claims_administrator ∷ settlement_provider ∷ []))) [
        | inl (e, refusal) ↦ refused_call e (not_allowed e refusal)
        | inr (u, may) ↦ elim (Result-cases (calculation_of input)) [
          | inl (e, refusal) ↦ refused_call e (not_computed e may refusal)
          | inr (calc, computed) ↦
              elim (Result-cases (p (submission_of (sent calc may computed)))) [
                | inl (e, thrown) ↦ thrown-Outcome calc may computed e thrown
                | inr (result, answered) ↦ answered-Outcome calc may computed result answered
              ]
        ]
      ]

-- Where a call of `initiate` returns a transaction, the provider has answered to a submission of its net
-- amount: the transaction is CONFIRMED if the provider has succeeded and FAILED if not, it carries
-- the provider's reference and the calculated fee and net amount, it is stored under its identifier
-- with every other transaction as it was, and the audit log has one more record with that decision.
pub initiate-settles :
    (p : SettlementProvider) (ctx : AuthContext) (id now : ℕ) (input : SettlementInput) (s : Store)
    {t : StoredTransaction}
    → (initiate p ctx id now input s).0 ≡ ok t
    → IsSettled p ctx id now input s t (initiate p ctx id now input s).1
initiate-settles p ctx id now input s {t} h = elim (initiate-Outcome p ctx id now input s) [
  | refused_call e is ↦ ground arith
  | stuck e is _ ↦ cc
  | settled_call u is done ↦
      subst
        (λ (x : StoredTransaction).
          IsSettled p ctx id now input s x (initiate p ctx id now input s).1)
        (ok_injective (sym is ∙ h)) done
]

-- Where a call of `initiate` throws, it has left the store as it was, or it was the provider that threw:
-- then the new transaction stays in the store as SUBMITTED, every other one is as it was, and
-- nothing is recorded in the audit log.
pub initiate-throws :
    (p : SettlementProvider) (ctx : AuthContext) (id now : ℕ) (input : SettlementInput) (s : Store)
    {e : DomainError}
    → (initiate p ctx id now input s).0 ≡ err e
    → ((initiate p ctx id now input s).1 ≡ s)
      ⊎ IsStuck p ctx id now input s e (initiate p ctx id now input s).1
initiate-throws p ctx id now input s {e} h = elim (initiate-Outcome p ctx id now input s) [
  | refused_call _ is ↦ inl (ap (λ (r : Result StoredTransaction × Store). r.1) is)
  | stuck f is left ↦ inr (
      subst (λ (x : DomainError). IsStuck p ctx id now input s x (initiate p ctx id now input s).1)
        (err_injective (sym is ∙ h)) left)
  | settled_call u is done ↦ cc
]
