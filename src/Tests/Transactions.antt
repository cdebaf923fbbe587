-- ===== src/Tests/Transactions.antt =====
-- Tests of the settlement service: a settlement that nobody moves for real, one that its provider
-- refuses, and one whose provider throws.
use neo_lloyds.Prelude.{ℕ, ◌≡◌, ap, refl, ◌⊎◌, false, Option, none, some, List, [], ◌∷◌, arith}
use neo_lloyds.Prelude.Int.{pos}
use neo_lloyds.Errors.{Result, ok, err, invariant_violated}
use neo_lloyds.Identity.{require_any_role, has_any_role, includes_role}
use neo_lloyds.Money.Sums.{IsMoney}
use neo_lloyds.Settlement.{
  SettlementFeeConfig, SettlementCalculation, calculate_settlement, confirmed,
}
use neo_lloyds.Settlement.Split.{calculate_settlement-total}
use neo_lloyds.Settlement.Providers.{
  bank_transfer, stablecoin, other_ref, simulated, SubmissionResult, Submission, SettlementProvider,
  Transfer, StripeAnswer, transferred, refused, stripe_provider, create_settlement_provider,
}
use neo_lloyds.Settlement.Service.{
  StoredTransaction, Store, SettlementInput, new_transaction, with_status, initiate,
}
use neo_lloyds.Settlement.Initiate.{
  initiate-answered, initiate-thrown, initiate-settles, initiate-throws,
}
use neo_lloyds.Settlement.Outcomes.{
  MayInitiate, IsSettled, IsStuck, submitted_transaction, final_transaction,
}
use neo_lloyds.Settlement.Ledger.{Initiation, perform_all, IsLedger, perform_all-IsLedger}
use neo_lloyds.Settlement.Rails.{charged, create_settlement_provider-apart, initiate-confirms}
use neo_lloyds.Tests.{dollars, dollars_coded, administrator}

abbrev fees : SettlementFeeConfig
fees = record { flat_minor = pos 25; bps = pos 290 }

gross-IsMoney : IsMoney (dollars 1000)
gross-IsMoney = record { safe = refl; coded = dollars_coded }

abbrev with_fees : Option SettlementFeeConfig → SettlementInput
with_fees config = record {
  claim_payout_organisation_id = some 3;
  claim_payout_claim_id = some 9;
  method = bank_transfer;
  gross_amount = dollars 1000;
  fee_config = config;
  destination_account_id = none;
}

abbrev payout : SettlementInput
payout = with_fees (some fees)

abbrev calculation : SettlementCalculation
calculation = record { gross_amount = dollars 1000; fee = dollars 54; net_amount = dollars 946 }

calculated : calculate_settlement (dollars 1000) fees ≡ ok calculation
calculated = calculate_settlement-total 1000 25 290 "USD" gross-IsMoney (omega arith) (omega arith)

may : MayInitiate administrator
unfolding require_any_role has_any_role includes_role
may = refl

abbrev empty : Store
empty = record { transactions = []; audit_log = [] }

abbrev refusal : SubmissionResult
refusal = record { provider_ref = other_ref 4; succeeded = false; failure_reason = none }

abbrev refusing : SettlementProvider
refusing input = ok refusal

abbrev throwing : SettlementProvider
throwing input = err invariant_violated

abbrev failed_transaction : StoredTransaction
failed_transaction =
    final_transaction refusal (submitted_transaction administrator 5 0 payout calculation)

answered : (initiate refusing administrator 5 0 payout empty).0 ≡ ok failed_transaction
answered =
    ap (λ (r : Result StoredTransaction × Store). r.0)
      (initiate-answered refusing administrator 5 0 payout empty calculation may calculated refusal
        refl)

initiate-settles_example :
    IsSettled refusing administrator 5 0 payout empty failed_transaction
      (initiate refusing administrator 5 0 payout empty).1
initiate-settles_example = initiate-settles refusing administrator 5 0 payout empty answered

thrown : (initiate throwing administrator 5 0 payout empty).0 ≡ err invariant_violated
thrown =
    ap (λ (r : Result StoredTransaction × Store). r.0)
      (initiate-thrown throwing administrator 5 0 payout empty calculation may calculated
        invariant_violated refl)

initiate-throws_example :
    ((initiate throwing administrator 5 0 payout empty).1 ≡ empty)
    ⊎ IsStuck throwing administrator 5 0 payout empty invariant_violated
        (initiate throwing administrator 5 0 payout empty).1
initiate-throws_example = initiate-throws throwing administrator 5 0 payout empty thrown

abbrev by : SettlementProvider → ℕ → Initiation
by provider id = record {
  provider = provider;
  ctx = administrator;
  fresh_id = id;
  now = 0;
  input = payout;
}

abbrev calls : List Initiation
calls = by throwing 5 ∷ by refusing 6 ∷ []

perform_all-IsLedger_example : IsLedger calls empty (perform_all calls empty)
perform_all-IsLedger_example = perform_all-IsLedger calls empty (gross-IsMoney, (gross-IsMoney, tt))

abbrev accepts : Transfer → Result StripeAnswer
accepts t = ok (transferred 1)

abbrev refuses : Transfer → Result StripeAnswer
refuses t = ok (refused 2)

abbrev coins : Submission
coins = record {
  transaction_id = 5;
  method = stablecoin;
  amount_minor = pos 946;
  currency = "USD";
  destination_account_id = some 8;
}

create_settlement_provider-apart_example :
    create_settlement_provider (some (stripe_provider accepts)) none coins
    ≡ create_settlement_provider (some (stripe_provider refuses)) none coins
create_settlement_provider-apart_example =
    create_settlement_provider-apart accepts refuses none coins refl

initiate-confirms_example :
    (initiate (create_settlement_provider none none) administrator 5 0 (with_fees none) empty).0
    ≡ ok (
        with_status confirmed
          (some (simulated bank_transfer 5))
          none
          (new_transaction 5 0 1 (with_fees none) (charged 1000 "USD")))
initiate-confirms_example =
    initiate-confirms administrator 5 0 1000 "USD" (with_fees none) empty may refl refl
      gross-IsMoney (omega arith)
