-- ===== src/Claims/Payouts.antt =====
-- A claim's payouts: one for each bound allocation, and exactly the loss together.
use neo_lloyds.Prelude.{
  ℕ, ◌*◌, ◌^◌, ◌<◌, ◌≡◌, refl, ap, sym, ◌∙◌, List, [], ◌∷◌, map, false, arith, sum, length,
  length-map,
}
use neo_lloyds.Prelude.Int.{pos_part}
use neo_lloyds.Errors.{ok}
use neo_lloyds.Double.Signed.{abs}
use neo_lloyds.Money.{Money, sum_money}
use neo_lloyds.Money.Sums.{IsMoney}
use neo_lloyds.Money.Allocate.{is_empty}
use neo_lloyds.Money.Allocate.Conserve.{sum_money-allocate_money}
use neo_lloyds.Syndication.{Allocation, total_share_bps, full_allocation_bps}
use neo_lloyds.Syndication.Proposals.{IsSyndicate}
use neo_lloyds.Syndication.Binding.{weights_of, weights-eq, total-sum}
use neo_lloyds.Claims.{ClaimPayout, payouts_of, compute_claim_payouts}

abbrev pub paid_amounts : List ClaimPayout → List Money
paid_amounts ps = map (λ (p : ClaimPayout). p.amount) ps

abbrev pub payees : List ClaimPayout → List ℕ
payees ps = map (λ (p : ClaimPayout). p.organisation_id) ps

abbrev pub holders : List Allocation → List ℕ
holders l = map (λ (a : Allocation). a.organisation_id) l

payouts_of_lem :
    (l : List Allocation) (ms : List Money)
    → length ms ≡ length l
    → (paid_amounts (payouts_of l ms) ≡ ms) × (payees (payouts_of l ms) ≡ holders l)
unfolding payouts_of
payouts_of_lem [] [] h = (refl, refl)
payouts_of_lem [] (m ∷ ms) h = absurd (omega arith)
payouts_of_lem (a ∷ l) [] h = absurd (omega arith)
payouts_of_lem (a ∷ l) (m ∷ ms) h =
    let (amounts, names) = payouts_of_lem l ms (omega arith) in
    (ap (λ rest. m ∷ rest) amounts, ap (λ rest. a.organisation_id ∷ rest) names)

not-empty : (l : List Allocation) → 0 < sum (weights_of l) → is_empty l ≡ false
not-empty [] h = absurd (omega arith)
not-empty (a ∷ l) h = refl

-- On a fully allocated syndication the payouts of a loss are computed, go to the holders of the
-- allocations in their order, and add up to exactly the loss with `sumMoney`. The loss is valid
-- money of which 10000 times the magnitude is below 2 ^ 53.
pub compute_claim_payouts-exact :
    (loss : Money) (allocations : List Allocation)
    → IsSyndicate allocations
    → total_share_bps allocations ≡ full_allocation_bps
    → IsMoney loss
    → abs loss.amount_minor * 10000 < 2 ^ 53
    → (payouts : List ClaimPayout) × (compute_claim_payouts loss allocations ≡ ok payouts)
      × (payees payouts ≡ holders allocations)
      × (sum_money (paid_amounts payouts) loss.currency ≡ ok loss)
unfolding compute_claim_payouts
compute_claim_payouts-exact loss allocations valid full money product =
    let ws = weights_of allocations in
    let total : sum ws ≡ 10000 = ap pos_part (sym (total-sum allocations valid.shares) ∙ full) in
    let (parts, split, count, exact) =
      sum_money-allocate_money loss ws money (omega arith) (omega arith) (rw total product) in
    let (amounts, names) =
      payouts_of_lem allocations parts
        (count ∙ length-map (λ (p : Allocation). pos_part p.share_bps) allocations) in
    (
      payouts_of allocations parts,
      rw (not-empty allocations (omega arith), weights-eq allocations valid.shares, split) refl,
      names,
      rw amounts exact,
    )
