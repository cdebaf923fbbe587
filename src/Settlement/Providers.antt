-- ===== src/Settlement/Providers.antt =====
-- apps/api/src/settlement/providers.ts and stripe.ts: what moves the money of a settlement. An
-- identifier and a message are texts that are not empty, and are numbers here; a reference is the
-- text that its constructor names, with the transaction's identifier in it. What Stripe answers to
-- a transfer is a parameter.
use neo_lloyds.Prelude.{ℕ, Bool, true, false, Option, none, some, List, [], ◌∷◌, if◌then◌else◌}
use neo_lloyds.Prelude.Int.{ℤ}
use Prim.Native.String.{String}
use neo_lloyds.Errors.{Result, ok, ◌>>=◌}
use neo_lloyds.Identity.{includes}

pub data SettlementMethod : Type 0 where
  bank_transfer digital_money stablecoin : SettlementMethod

abbrev pub method_index : SettlementMethod → ℕ
method_index bank_transfer = 0
method_index digital_money = 1
method_index stablecoin = 2

pub data ProviderRef : Type 0 where
  simulated : SettlementMethod → ℕ → ProviderRef
  stripe_unsupported stripe_no_destination stripe_failed : ℕ → ProviderRef
  stripe_transfer : ℕ → ProviderRef
  other_ref : ℕ → ProviderRef

pub data FailureReason : Type 0 where
  not_moved : SettlementMethod → FailureReason
  no_destination : FailureReason
  message : ℕ → FailureReason

pub record SubmissionResult : Type 0 where
  pub provider_ref : ProviderRef
  pub succeeded : Bool
  pub failure_reason : Option FailureReason

pub record Submission : Type 0 where
  pub transaction_id : ℕ
  pub method : SettlementMethod
  pub amount_minor : ℤ
  pub currency : String
  pub destination_account_id : Option ℕ

-- A call of `submit` returns a result or throws.
abbrev pub SettlementProvider : Type 0
SettlementProvider = Submission → Result SubmissionResult

unfoldable pub null_provider : SettlementProvider
null_provider input = ok (record {
  provider_ref = simulated input.method input.transaction_id;
  succeeded = true;
  failure_reason = none;
})

abbrev pub is_stablecoin : SettlementMethod → Bool
is_stablecoin stablecoin = true
is_stablecoin _ = false

unfoldable pub composite_provider :
    Option SettlementProvider → SettlementProvider → SettlementProvider
composite_provider none fallback_provider input = fallback_provider input
composite_provider (some stablecoin_provider) fallback_provider input =
    if is_stablecoin input.method then stablecoin_provider input else fallback_provider input

-- What `fetch` has sent and what Stripe answers: a transfer, or an error with its message.
pub record Transfer : Type 0 where
  pub currency : String
  pub destination : ℕ
  pub amount : ℤ
  pub idempotency_key : ℕ

pub data StripeAnswer : Type 0 where
  transferred refused : ℕ → StripeAnswer

unfoldable pub unsupported_by_stripe : List SettlementMethod
unsupported_by_stripe = stablecoin ∷ []

unfoldable pub result_of : ℕ → StripeAnswer → SubmissionResult
result_of transaction_id (transferred transfer_id) = record {
  provider_ref = stripe_transfer transfer_id;
  succeeded = true;
  failure_reason = none;
}
result_of transaction_id (refused text) = record {
  provider_ref = stripe_failed transaction_id;
  succeeded = false;
  failure_reason = some (message text);
}

-- A transfer goes to the account of the transaction, if it has one.
unfoldable pub send_transfer :
    (Transfer → Result StripeAnswer) → Submission → Option ℕ → Result SubmissionResult
unfolding result_of
send_transfer post input none = ok (record {
  provider_ref = stripe_no_destination input.transaction_id;
  succeeded = false;
  failure_reason = some no_destination;
})
send_transfer post input (some destination) = do
  answer ← post (record {
    currency = input.currency;
    destination = destination;
    amount = input.amount_minor;
    idempotency_key = input.transaction_id;
  })
  ok (result_of input.transaction_id answer)

abbrev pub includes_method : List SettlementMethod → SettlementMethod → Bool
includes_method [] m = false
includes_method (l ∷ ls) m =
    if includes (method_index l ∷ []) (method_index m) then true else includes_method ls m

unfoldable pub stripe_provider : (Transfer → Result StripeAnswer) → SettlementProvider
unfolding send_transfer unsupported_by_stripe includes
stripe_provider post input =
    if includes_method unsupported_by_stripe input.method
    then ok (record {
      provider_ref = stripe_unsupported input.transaction_id;
      succeeded = false;
      failure_reason = some (not_moved input.method);
    })
    else send_transfer post input input.destination_account_id

-- Which of the two real providers is configured comes from the environment.
unfoldable pub fallback_of : Option SettlementProvider → SettlementProvider
unfolding null_provider
fallback_of none = null_provider
fallback_of (some stripe) = stripe

unfoldable pub create_settlement_provider :
    Option SettlementProvider → Option SettlementProvider → SettlementProvider
unfolding composite_provider fallback_of
create_settlement_provider stripe none = fallback_of stripe
create_settlement_provider stripe (some open_fireblocks) =
    composite_provider (some open_fireblocks) (fallback_of stripe)
