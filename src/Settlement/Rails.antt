-- ===== src/Settlement/Rails.antt =====
-- Which rail moves which settlement, and what becomes of the settlement.
use neo_lloyds.Prelude.{
  ℕ, ◌+◌, ◌-◌, ◌*◌, ◌^◌, ◌<◌, ◌≡◌, refl, ap, sym, ◌∙◌, true, false, Option, none, some, min, arith,
}
use neo_lloyds.Prelude.Int.{pos}
use Prim.Native.String.{String}
use neo_lloyds.Errors.{Result, ok}
use neo_lloyds.Identity.{AuthContext, includes}
use neo_lloyds.Money.Sums.{IsMoney, of_amount}
use neo_lloyds.Money.Proportion.{rounded_share}
use neo_lloyds.Settlement.{confirmed, SettlementCalculation}
use neo_lloyds.Settlement.Split.{calculate_settlement-total}
use neo_lloyds.Settlement.Providers.{
  SettlementMethod, not_moved, stripe_unsupported, SubmissionResult, Submission, SettlementProvider,
  Transfer, StripeAnswer, null_provider, stripe_provider, composite_provider,
  create_settlement_provider, unsupported_by_stripe, is_stablecoin, simulated, fallback_of,
}
use neo_lloyds.Settlement.Service.{
  StoredTransaction, Store, SettlementInput, new_transaction, with_status, default_fee_config,
  initiate,
}
use neo_lloyds.Settlement.Initiate.{initiate-answered}
use neo_lloyds.Settlement.Outcomes.{MayInitiate, calculation_of}

stripe-stablecoin :
    (post : Transfer → Result StripeAnswer) (input : Submission)
    → is_stablecoin input.method ≡ true
    → stripe_provider post input
      ≡ ok (record {
        provider_ref = stripe_unsupported input.transaction_id;
        succeeded = false;
        failure_reason = some (not_moved input.method);
      })
unfolding stripe_provider unsupported_by_stripe includes
stripe-stablecoin post input h = ground arith

-- Where Stripe is configured, nothing that it would answer has any effect on a stablecoin settlement, which
-- is never sent to it.
pub create_settlement_provider-apart :
    (post post' : Transfer → Result StripeAnswer) (open_fireblocks : Option SettlementProvider)
    (input : Submission)
    → is_stablecoin input.method ≡ true
    → create_settlement_provider (some (stripe_provider post)) open_fireblocks input
      ≡ create_settlement_provider (some (stripe_provider post')) open_fireblocks input
unfolding create_settlement_provider composite_provider fallback_of
create_settlement_provider-apart post post' none input h =
    stripe-stablecoin post input h ∙ sym (stripe-stablecoin post' input h)
create_settlement_provider-apart post post' (some rail) input h = rw h refl

abbrev pub charged : ℕ → String → SettlementCalculation
charged n c =
    let fee = min (50 + rounded_share n 25) n in
    record {
      gross_amount = of_amount (pos n) c;
      fee = of_amount (pos fee) c;
      net_amount = of_amount (pos (n - fee)) c;
    }

abbrev answer : ℕ → SettlementMethod → SubmissionResult
answer id method = record {
  provider_ref = simulated method id;
  succeeded = true;
  failure_reason = none;
}

-- With no real rail configured, a call of `initiate` by a claims administrator or a settlement provider, at the
-- default fee, returns: the transaction is CONFIRMED, its fee is 50 and 0.25 % of the gross amount
-- rounded half up, or the whole gross amount if that is less, its net amount is the rest, and its
-- reference is marked as simulated. 10000 times the gross amount is below 2 ^ 52.
pub initiate-confirms :
    (ctx : AuthContext) (id now n : ℕ) (c : String) (input : SettlementInput) (s : Store)
    → MayInitiate ctx
    → input.gross_amount ≡ of_amount (pos n) c
    → input.fee_config ≡ none
    → IsMoney (of_amount (pos n) c)
    → n * 10000 < 2 ^ 52
    → (initiate (create_settlement_provider none none) ctx id now input s).0
      ≡ ok (
          with_status confirmed
            (some (simulated input.method id))
            none
            (new_transaction id now ctx.organisation_id input (charged n c)))
unfolding create_settlement_provider fallback_of null_provider default_fee_config
initiate-confirms ctx id now n c input s may gross config valid small =
    let computed : calculation_of input ≡ ok (charged n c) =
      rw (gross, config) (calculate_settlement-total n 50 25 c valid (omega arith) small) in
    ap (λ (r : Result StoredTransaction × Store). r.0)
      (initiate-answered (create_settlement_provider none none) ctx id now input s (charged n c) may
        computed (answer id input.method) refl)
