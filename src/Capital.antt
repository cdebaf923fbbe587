-- ===== src/Capital.antt =====
-- packages/domain/src/capital-ledger.ts: a provider's position over all its syndications.
pub mod Position
use neo_lloyds.Prelude.{
  ℕ, Bool, true, false, not, ◌||◌, List, [], ◌∷◌, map, ◌==◌, if◌then◌else◌, Option, none, some,
}
use neo_lloyds.Prelude.Int.{ℤ, pos, negsuc, ltb_ℤ}
use neo_lloyds.Prelude.Sorting.{sort}
use Prim.Native.String.{String}
use neo_lloyds.Errors.{
  Result, ok, err, throw_if, ◌>>=◌, ◌>>◌, currency_mismatch, insufficient_committed_capital,
}
use neo_lloyds.Double.Signed.{Double, of_int, divide, multiply, round}
use neo_lloyds.Money.{
  Money, Comparison, less, same, more, money, add_money, subtract_money, compare_money,
  same_currency, is_more, is_zero,
}

pub record CapitalCommitment : Type 0 where
  pub organisation_id : ℕ
  pub committed : Money

pub data SyndicationStatus : Type 0 where
  open_status bound cancelled : SyndicationStatus

pub record AllocationContribution : Type 0 where
  pub syndication_id : ℕ
  pub status : SyndicationStatus
  pub listing_id : ℕ
  pub risk_class : ℕ
  pub jurisdiction : ℕ
  pub counterparty_organisation_id : ℕ
  pub amount : Money

pub record CapitalPosition : Type 0 where
  pub organisation_id : ℕ
  pub committed : Money
  pub allocated : Money
  pub reserved : Money
  pub available : Money
  pub utilisation_bps : ℤ

unfoldable pub assert_same_currency : Money → Money → Result (Unit {0})
assert_same_currency a b = throw_if (not (same_currency a b)) currency_mismatch

-- The sums of bound and of open contributions.
pub record Totals : Type 0 where
  pub allocated : Money
  pub reserved : Money

-- The body of the loop, by the contribution's status.
unfoldable pub add_contribution : Totals → SyndicationStatus → Money → Result Totals
add_contribution t bound amount = do
  allocated ← add_money t.allocated amount
  ok (record t { allocated = allocated })
add_contribution t open_status amount = do
  reserved ← add_money t.reserved amount
  ok (record t { reserved = reserved })
add_contribution t cancelled amount = ok t

unfoldable pub add_contributions : Money → Totals → List AllocationContribution → Result Totals
unfolding assert_same_currency
add_contributions committed t [] = ok t
add_contributions committed t (c ∷ cs) = do
  assert_same_currency committed c.amount
  t' ← add_contribution t c.status c.amount
  add_contributions committed t' cs

-- `compareMoney(used, committed) >= 0 ? money(0, currency) : subtractMoney(committed, used)`
unfoldable pub available_of : Money → Money → Result Money
available_of committed used = do
  comparison ← compare_money used committed
  elim comparison [
    | less ↦ subtract_money committed used
    | same ↦ money (pos 0) committed.currency
    | more ↦ money (pos 0) committed.currency
  ]

-- `Math.round((part / whole) * 10_000)`
unfoldable pub ratio_bps : Money → Money → ℤ
ratio_bps part whole =
    if is_zero whole
    then pos 0
    else round (
        multiply (divide (of_int part.amount_minor) (of_int whole.amount_minor))
          (of_int (pos 10000)))

unfoldable pub compute_position :
    CapitalCommitment → List AllocationContribution → Result CapitalPosition
unfolding add_contributions available_of
compute_position commitment contributions = do
  nothing ← money (pos 0) commitment.committed.currency
  totals ←
      add_contributions commitment.committed (record { allocated = nothing; reserved = nothing })
        contributions
  used ← add_money totals.allocated totals.reserved
  available ← available_of commitment.committed used
  ok (record {
    organisation_id = commitment.organisation_id;
    committed = commitment.committed;
    allocated = totals.allocated;
    reserved = totals.reserved;
    available = available;
    utilisation_bps = ratio_bps used commitment.committed;
  })

unfoldable pub require_capacity_for_proposal : CapitalPosition → Money → Result (Unit {0})
unfolding assert_same_currency
require_capacity_for_proposal position proposed_amount = do
  assert_same_currency position.available proposed_amount
  comparison ← compare_money proposed_amount position.available
  throw_if (is_more comparison) insufficient_committed_capital

pub record ConcentrationBucket : Type 0 where
  pub key : ℕ
  pub amount : Money
  pub share_bps : ℤ

abbrev pub is_exposed : SyndicationStatus → Bool
is_exposed cancelled = false
is_exposed _ = true

unfoldable pub exposed_only : List AllocationContribution → List AllocationContribution
exposed_only [] = []
exposed_only (c ∷ cs) = if is_exposed c.status then c ∷ exposed_only cs else exposed_only cs

-- A `Map`: its entries stand in the order of their first insertion.
abbrev pub Buckets : Type 0
Buckets = List (ℕ × Money)

-- `totals.set(key, addMoney(totals.get(key) ?? money(0, currency), amount))`
unfoldable pub add_to_bucket : ℕ → Money → Money → Buckets → Result Buckets
add_to_bucket key nothing amount [] = do total ← add_money nothing amount; ok ((key, total) ∷ [])
add_to_bucket key nothing amount ((k, m) ∷ rest) =
    if k == key
    then (do total ← add_money m amount; ok ((k, total) ∷ rest))
    else (do rest' ← add_to_bucket key nothing amount rest; ok ((k, m) ∷ rest'))

module _ (key_of : AllocationContribution → ℕ) where
  unfoldable pub bucket_totals : Money → Buckets → List AllocationContribution → Result Buckets
  unfolding assert_same_currency add_to_bucket
  bucket_totals nothing totals [] = ok totals
  bucket_totals nothing totals (c ∷ cs) = do
    assert_same_currency nothing c.amount
    totals' ← add_to_bucket (key_of c) nothing c.amount totals
    bucket_totals nothing totals' cs

unfoldable pub add_bucket_amounts : Money → Buckets → Result Money
add_bucket_amounts acc [] = ok acc
add_bucket_amounts acc ((k, m) ∷ rest) = do acc' ← add_money acc m; add_bucket_amounts acc' rest

abbrev pub bucket_of : Money → ℕ × Money → ConcentrationBucket
bucket_of grand_total (k, m) = record { key = k; amount = m; share_bps = ratio_bps m grand_total }

abbrev pub larger_amount : ConcentrationBucket → ConcentrationBucket → Bool
larger_amount a b = ltb_ℤ b.amount.amount_minor a.amount.amount_minor

unfoldable pub concentration_by :
    List AllocationContribution
    → (AllocationContribution → ℕ)
    → String
    → Result (List ConcentrationBucket)
unfolding exposed_only bucket_totals add_bucket_amounts
concentration_by contributions key_of currency = elim (exposed_only contributions) [
  | [] ↦ ok []
  | c ∷ cs ↦ (do
    nothing ← money (pos 0) currency
    totals ← bucket_totals key_of nothing [] (c ∷ cs)
    grand_total ← add_bucket_amounts nothing totals
    ok (sort larger_amount (map (bucket_of grand_total) totals)))
]
