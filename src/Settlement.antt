-- ===== src/Settlement.antt =====
-- packages/domain/src/settlement.ts: the life cycle of a settlement transaction, the fee and the
-- split of the gross amount. A fee configuration that is no integer is refused by
-- `requireValidFeeConfig`, so the model has integers.
pub mod Split
pub mod Providers
pub mod Service
pub mod Outcomes
pub mod Initiate
pub mod Ledger
pub mod Rails
use neo_lloyds.Prelude.{ℕ, Bool, true, false, not, ◌||◌, List, [], ◌∷◌, map, if◌then◌else◌}
use neo_lloyds.Prelude.Int.{ℤ, pos, ◌+ℤ◌, ltb_ℤ, leb_ℤ, min_ℤ}
use neo_lloyds.Errors.{
  Result, ok, throw_if, ◌>>=◌, ◌>>◌, invalid_settlement_transition, invalid_fee_config,
}
use neo_lloyds.Identity.{includes}
use neo_lloyds.Money.{Money, money, add_money, subtract_money, proportion}

pub data SettlementStatus : Type 0 where
  pending submitted confirmed failed : SettlementStatus

abbrev pub settlement_index : SettlementStatus → ℕ
settlement_index pending = 0
settlement_index submitted = 1
settlement_index confirmed = 2
settlement_index failed = 3

unfoldable pub settlement_transitions : SettlementStatus → List SettlementStatus
settlement_transitions pending = submitted ∷ failed ∷ []
settlement_transitions submitted = confirmed ∷ failed ∷ []
settlement_transitions confirmed = []
settlement_transitions failed = []

unfoldable pub can_transition_settlement : SettlementStatus → SettlementStatus → Bool
unfolding settlement_transitions includes
can_transition_settlement from to =
    includes (map settlement_index (settlement_transitions from)) (settlement_index to)

unfoldable pub require_settlement_transition :
    SettlementStatus → SettlementStatus → Result (Unit {0})
require_settlement_transition from to =
    throw_if (not (can_transition_settlement from to)) invalid_settlement_transition

pub record SettlementFeeConfig : Type 0 where
  pub flat_minor : ℤ
  pub bps : ℤ

unfoldable pub require_valid_fee_config : SettlementFeeConfig → Result (Unit {0})
require_valid_fee_config config = do
  throw_if (ltb_ℤ config.flat_minor (pos 0)) invalid_fee_config
  throw_if (ltb_ℤ config.bps (pos 0) || ltb_ℤ (pos 10000) config.bps) invalid_fee_config

-- The sum of the two fees is exact wherever it is below the gross amount, which is a safe integer.
unfoldable pub compute_settlement_fee : Money → SettlementFeeConfig → Result Money
compute_settlement_fee gross_amount config = do
  require_valid_fee_config config
  let proportional = proportion gross_amount.amount_minor config.bps
  let fee = min_ℤ (config.flat_minor +ℤ proportional) gross_amount.amount_minor
  money fee gross_amount.currency

pub record SettlementCalculation : Type 0 where
  pub gross_amount : Money
  pub fee : Money
  pub net_amount : Money

unfoldable pub calculate_settlement : Money → SettlementFeeConfig → Result SettlementCalculation
calculate_settlement gross_amount config = do
  fee ← compute_settlement_fee gross_amount config
  net_amount ← subtract_money gross_amount fee
  ok (record { gross_amount = gross_amount; fee = fee; net_amount = net_amount })

abbrev amounts_equal : ℤ → ℤ → Bool
amounts_equal a b = if leb_ℤ a b then leb_ℤ b a else false

unfoldable pub settlement_split_is_exact : SettlementCalculation → Result Bool
settlement_split_is_exact calc = do
  sum ← add_money calc.fee calc.net_amount
  ok (amounts_equal sum.amount_minor calc.gross_amount.amount_minor)
