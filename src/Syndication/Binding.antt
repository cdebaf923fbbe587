-- ===== src/Syndication/Binding.antt =====
-- The binding boundary: shares of exactly 100 % become exact amounts that add up to the capacity.
use neo_lloyds.Prelude.{
  ℕ, ◌*◌, ◌^◌, ◌<◌, ◌≡◌, ◌≢◌, refl, ap, ◌∙◌, sym, List, [], ◌∷◌, map, arith, All, sum, length,
  length-map,
}
use mathlib.Core.Path.{ap₂}
use neo_lloyds.Prelude.Int.{ℤ, pos, pos_part, ◌≤ℤ◌, pos-+ℤ, eq_of_parts}
use neo_lloyds.Errors.{ok, err, >>=-eq-ok, ok_injective, incomplete_allocation}
use neo_lloyds.Double.Signed.{abs, of_int}
use neo_lloyds.Money.{Money, sum_money}
use neo_lloyds.Money.Sums.{IsMoney}
use neo_lloyds.Money.Allocate.{allocate_money}
use neo_lloyds.Money.Allocate.Length.{length-allocate_money}
use neo_lloyds.Money.Allocate.Conserve.{int_weights, sum_money-allocate_money}
use neo_lloyds.Syndication.{
  AllocationProposal, Allocation, full_allocation_bps, total_share_bps, require_fully_allocated,
  with_amounts, bind_allocations,
}
use neo_lloyds.Syndication.Proposals.{IsValidShare, IsSyndicate}

-- The shares as weights.
abbrev pub weights_of : List Allocation → List ℕ
weights_of l = map (λ p. pos_part p.share_bps) l

abbrev pub amounts_of : List Allocation → List Money
amounts_of l = map (λ (p : Allocation). p.amount) l

abbrev pub proposals_of : List Allocation → List AllocationProposal
proposals_of l = map (λ (p : Allocation). p.proposal) l

share-pos : (s : ℤ) → pos 1 ≤ℤ s → s ≡ pos (pos_part s)
share-pos s h = ground arith

pub total-sum :
    (l : List Allocation) → All IsValidShare l → total_share_bps l ≡ pos (sum (weights_of l))
unfolding total_share_bps
total-sum [] h = refl
total-sum (a ∷ l) h =
    rw (total-sum l h.1) (rw (share-pos a.share_bps h.0.0) (pos-+ℤ (pos_part a.share_bps) _))

pub weights-eq :
    (l : List Allocation)
    → All IsValidShare l
    → map (λ p. of_int p.share_bps) l ≡ int_weights (weights_of l)
weights-eq [] h = refl
weights-eq (a ∷ l) h = ap₂ ◌∷◌ (ap of_int (share-pos a.share_bps h.0.0)) (weights-eq l h.1)

with_amounts_lem :
    (l : List Allocation) (ms : List Money)
    → length ms ≡ length l
    → (amounts_of (with_amounts l ms) ≡ ms) × (proposals_of (with_amounts l ms) ≡ proposals_of l)
unfolding with_amounts
with_amounts_lem [] [] h = (refl, refl)
with_amounts_lem [] (m ∷ ms) h = absurd (omega arith)
with_amounts_lem (a ∷ l) [] h = absurd (omega arith)
with_amounts_lem (a ∷ l) (m ∷ ms) h =
    let (amounts, proposals) = with_amounts_lem l ms (omega arith) in
    (ap (λ rest. m ∷ rest) amounts, ap (λ rest. a.proposal ∷ rest) proposals)

require_fully_allocated-full :
    (l : List Allocation) {u : Unit {0}}
    → require_fully_allocated l ≡ ok u
    → total_share_bps l ≡ full_allocation_bps
unfolding require_fully_allocated
require_fully_allocated-full l h = ground arith

-- A set of proposals that is not exactly 100 % cannot be bound.
pub bind_allocations-incomplete :
    (proposals : List Allocation) (capacity : Money)
    → total_share_bps proposals ≢ full_allocation_bps
    → bind_allocations proposals capacity ≡ err incomplete_allocation
unfolding bind_allocations require_fully_allocated
bind_allocations-incomplete proposals capacity h =
    ground (arith, eq_of_parts (total_share_bps proposals) full_allocation_bps)

-- Proposals of exactly 100 % are bound: binding does not throw, keeps each organisation and share in
-- order, and the bound amounts add up to the capacity with `sumMoney`. The capacity is valid money
-- of which 10000 times the magnitude is below 2 ^ 53.
pub bind_allocations-exact :
    (proposals : List Allocation) (capacity : Money)
    → IsSyndicate proposals
    → total_share_bps proposals ≡ full_allocation_bps
    → IsMoney capacity
    → abs capacity.amount_minor * 10000 < 2 ^ 53
    → (bound : List Allocation) × (bind_allocations proposals capacity ≡ ok bound)
      × (proposals_of bound ≡ proposals_of proposals)
      × (sum_money (amounts_of bound) capacity.currency ≡ ok capacity)
unfolding bind_allocations require_fully_allocated
bind_allocations-exact proposals capacity valid full money product =
    let ws = weights_of proposals in
    let total : sum ws ≡ 10000 = ap pos_part (sym (total-sum proposals valid.shares) ∙ full) in
    let (parts, split, count, exact) =
      sum_money-allocate_money capacity ws money (omega arith) (omega arith) (rw total product) in
    let (amounts, kept) =
      with_amounts_lem proposals parts
        (count ∙ length-map (λ (p : Allocation). pos_part p.share_bps) proposals) in
    (
      with_amounts proposals parts,
      rw (full, weights-eq proposals valid.shares, split) refl,
      kept,
      rw amounts exact,
    )

-- A binding that was made had shares of exactly 100 %, and keeps each organisation and share in order.
pub bind_allocations-keeps :
    (proposals : List Allocation) (capacity : Money) (bound : List Allocation)
    → bind_allocations proposals capacity ≡ ok bound
    → (total_share_bps proposals ≡ full_allocation_bps)
      × (proposals_of bound ≡ proposals_of proposals)
unfolding bind_allocations
bind_allocations-keeps proposals capacity bound h =
    let weights = map (λ (p : Allocation). of_int p.share_bps) proposals in
    let (_, whole, h₁) = >>=-eq-ok (require_fully_allocated proposals) _ h in
    let (parts, split, h₂) = >>=-eq-ok (allocate_money capacity weights) _ h₁ in
    let count =
      length-allocate_money capacity weights parts split
      ∙ length-map (λ (p : Allocation). of_int p.share_bps) proposals in
    (
      require_fully_allocated-full proposals whole,
      ap proposals_of (sym (ok_injective h₂)) ∙ (with_amounts_lem proposals parts count).1,
    )
