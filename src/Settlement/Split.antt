-- ===== src/Settlement/Split.antt =====
-- The split of a gross amount into the fee and the net amount, and the end of a settlement's life.
use mathlib.Core.Bool.{true≢false}
use neo_lloyds.Prelude.{
  ℕ, ◌+◌, ◌-◌, ◌*◌, ◌^◌, ◌≤◌, ◌<◌, ◌≡◌, ◌∙◌, refl, ap, subst, true, false, arith, lt→ltb, min, ◌↔◌,
  ◌⊎◌, inl, inr,
}
use neo_lloyds.Prelude.Int.{ℤ, pos, ◌+ℤ◌, ◌-ℤ◌, ◌≤ℤ◌, min_ℤ, pos-+ℤ, pos--ℤ, -ℤ+ℤ_cancel}
use Prim.Native.String.{String}
use neo_lloyds.Errors.{ok, >>=-eq-ok, ok_injective}
use neo_lloyds.Money.{Money, money, add_money, subtract_money, proportion}
use neo_lloyds.Money.Sums.{
  IsMoney, of_amount, money_ok, money-eq-ok, subtract_money-eq-ok, add_money_lem,
  subtract_money_lem,
}
use neo_lloyds.Money.Proportion.{rounded_share, proportion-pos}
use neo_lloyds.Settlement.{
  SettlementFeeConfig, SettlementCalculation, compute_settlement_fee, calculate_settlement,
  settlement_split_is_exact, require_valid_fee_config, SettlementStatus, pending, submitted,
  confirmed, failed, can_transition_settlement, settlement_transitions,
}

min_ℤ-right : (a b : ℤ) → min_ℤ a b ≤ℤ b
min_ℤ-right a b = ground arith

fee-le :
    (gross : Money) (config : SettlementFeeConfig) {fee : Money}
    → compute_settlement_fee gross config ≡ ok fee
    → (f : ℤ) × (fee ≡ of_amount f gross.currency) × (f ≤ℤ gross.amount_minor)
unfolding compute_settlement_fee
fee-le gross config h =
    let (_, _, h₁) = >>=-eq-ok (require_valid_fee_config config) _ h in
    (
      _,
      money-eq-ok _ gross.currency h₁,
      min_ℤ-right (config.flat_minor +ℤ proportion gross.amount_minor config.bps)
          gross.amount_minor,
    )

added_back :
    (gross : Money) (f : ℤ)
    → IsMoney gross
    → add_money (of_amount f gross.currency) (of_amount (gross.amount_minor -ℤ f) gross.currency)
      ≡ ok gross
added_back gross f valid =
    add_money_lem f (gross.amount_minor -ℤ f) gross.currency
    ∙ ap (λ a. money a gross.currency) (-ℤ+ℤ_cancel gross.amount_minor f)
    ∙ money_ok gross.amount_minor gross.currency valid.safe valid.coded

split_exact :
    (gross fee net : Money)
    → add_money fee net ≡ ok gross
    → settlement_split_is_exact (record { gross_amount = gross; fee = fee; net_amount = net })
      ≡ ok true
unfolding settlement_split_is_exact
split_exact gross fee net h = rw h (ground arith)

-- What is promised of a settlement of the gross amount.
pub record IsSplit (gross : Money) (calc : SettlementCalculation) : Type 0 where
  pub kept : calc.gross_amount ≡ gross
  pub bounded : calc.fee.amount_minor ≤ℤ gross.amount_minor
  pub adds_up : add_money calc.fee calc.net_amount ≡ ok gross
  pub checked : settlement_split_is_exact calc ≡ ok true

is_split :
    (gross fee net : Money) (f : ℤ)
    → IsMoney gross
    → fee ≡ of_amount f gross.currency
    → f ≤ℤ gross.amount_minor
    → net ≡ of_amount (gross.amount_minor -ℤ fee.amount_minor) gross.currency
    → IsSplit gross (record { gross_amount = gross; fee = fee; net_amount = net })
is_split gross fee net f valid is_fee le is_net =
    let fee_amount = ap (λ (m : Money). m.amount_minor) is_fee in
    let sum : add_money fee net ≡ ok gross = rw (is_net, is_fee) (added_back gross f valid) in
    record {
      kept = refl;
      bounded = rw is_fee le;
      adds_up = sum;
      checked = split_exact gross fee net sum;
    }

-- A settlement that is computed takes a fee of at most the gross amount, and the fee and the net amount add up
-- to exactly the gross amount, which is valid money.
pub calculate_settlement-exact :
    (gross : Money) (config : SettlementFeeConfig) {calc : SettlementCalculation}
    → IsMoney gross
    → calculate_settlement gross config ≡ ok calc
    → IsSplit gross calc
unfolding calculate_settlement
calculate_settlement-exact gross config valid h =
    let (fee, taken, h₁) = >>=-eq-ok (compute_settlement_fee gross config) _ h in
    let (net, left, h₂) = >>=-eq-ok (subtract_money gross fee) _ h₁ in
    let (f, is_fee, le) = fee-le gross config taken in
    subst (IsSplit gross) (ok_injective h₂)
      (is_split gross fee net f valid is_fee le (subtract_money-eq-ok gross fee left))

valid_config :
    (flat bps : ℕ)
    → bps ≤ 10000
    → require_valid_fee_config (record { flat_minor = pos flat; bps = pos bps }) ≡ ok tt
unfolding require_valid_fee_config
valid_config flat bps h = ground arith

fee_of :
    (gross flat bps : ℕ) (c : String)
    → IsMoney (of_amount (pos gross) c)
    → bps ≤ 10000
    → gross * 10000 < 2 ^ 52
    → compute_settlement_fee
        (of_amount (pos gross) c)
        (record { flat_minor = pos flat; bps = pos bps })
      ≡ ok (of_amount (pos (min (flat + rounded_share gross bps) gross)) c)
unfolding compute_settlement_fee
fee_of gross flat bps c valid le small =
    let taken = min (flat + rounded_share gross bps) gross in
    let least : min_ℤ (pos (flat + rounded_share gross bps)) (pos gross) ≡ pos taken =
      ground arith in
    rw
      (
        valid_config flat bps le,
        proportion-pos gross bps le small,
        pos-+ℤ flat (rounded_share gross bps),
        least,
      )
      (money_ok (pos taken) c (lt→ltb taken (2 ^ 53) (omega arith)) valid.coded)

-- Where the fee configuration is valid and 10000 times the gross amount is below 2 ^ 52, the settlement is
-- computed: the fee is the flat part and the exact proportion rounded half up, or the whole gross amount if that is less, and
-- the net amount is the rest.
pub calculate_settlement-total :
    (gross flat bps : ℕ) (c : String)
    → IsMoney (of_amount (pos gross) c)
    → bps ≤ 10000
    → gross * 10000 < 2 ^ 52
    → let fee = min (flat + rounded_share gross bps) gross in
      calculate_settlement
        (of_amount (pos gross) c)
        (record { flat_minor = pos flat; bps = pos bps })
      ≡ ok (record {
        gross_amount = of_amount (pos gross) c;
        fee = of_amount (pos fee) c;
        net_amount = of_amount (pos (gross - fee)) c;
      })
unfolding calculate_settlement
calculate_settlement-total gross flat bps c valid le small =
    let taken = min (flat + rounded_share gross bps) gross in
    let net_ok =
      money_ok (pos (gross - taken)) c (lt→ltb (gross - taken) (2 ^ 53) (omega arith))
        valid.coded in
    rw (fee_of gross flat bps c valid le small) (
      rw (subtract_money_lem (pos gross) (pos taken) c, pos--ℤ gross taken (omega arith), net_ok)
        refl)

-- A settlement transaction that is confirmed or has failed moves no more, and any other can still fail.
pub can_transition_settlement-ends :
    (a : SettlementStatus)
    → ((b : SettlementStatus) → can_transition_settlement a b ≡ false)
      ↔ ((a ≡ confirmed) ⊎ (a ≡ failed))
unfolding can_transition_settlement settlement_transitions
can_transition_settlement-ends pending = (λ h. absurd (true≢false (h failed)), λ e. ground arith)
can_transition_settlement-ends submitted = (λ h. absurd (true≢false (h failed)), λ e. ground arith)
can_transition_settlement-ends confirmed = (λ h. inl refl, λ e b. ground arith)
can_transition_settlement-ends failed = (λ h. inr refl, λ e b. ground arith)
