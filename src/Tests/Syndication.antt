-- ===== src/Tests/Syndication.antt =====
-- Tests of proposals and of binding.
use neo_lloyds.Prelude.{ℕ, ◌≡◌, ◌≢◌, refl, List, [], ◌∷◌, ◌++◌, true, some, arith}
use neo_lloyds.Prelude.Int.{pos, ◌+ℤ◌, ◌≤ℤ◌}
use neo_lloyds.Double.{units, half_units, excess, round_half_even, nearest}
use neo_lloyds.Double.Signed.{of_int, multiply, divide, round}
use neo_lloyds.Errors.{ok}
use neo_lloyds.Money.{
  money, matches_currency_pattern, scale_money, compare_money, assert_same_currency, sum_money,
  same_currency,
}
use neo_lloyds.Syndication.{
  AllocationProposal, Allocation, full_allocation_bps, total_share_bps, has_allocation,
  propose_allocation, remove_allocation, assert_valid_share, check_exposure, without,
  bind_allocations,
}
use neo_lloyds.Syndication.Proposals.{
  IsSyndicate, propose_allocation-IsSyndicate, remove_allocation-propose_allocation,
  propose_allocation-exposure,
}
use neo_lloyds.Syndication.Binding.{bind_allocations-exact, proposals_of, amounts_of}
use neo_lloyds.Tests.{dollars, dollars_coded}

abbrev pub share : ℕ → ℕ → ℕ → Allocation
share o bps n = record {
  proposal = record { organisation_id = o; share_bps = pos bps };
  amount = dollars n;
}

abbrev pub first : List Allocation
first = share 1 6000 600 ∷ []

abbrev pub both : List Allocation
both = share 1 6000 600 ∷ share 2 4000 400 ∷ []

abbrev second : AllocationProposal
second = record { organisation_id = 2; share_bps = pos 4000 }

pub first-IsSyndicate : IsSyndicate first
unfolding total_share_bps has_allocation ◌+ℤ◌
first-IsSyndicate = record {
  shares = ((omega arith, omega arith), tt);
  ceiling = omega arith;
  distinct = (refl, tt);
}

pub both-IsSyndicate : IsSyndicate both
unfolding total_share_bps has_allocation ◌+ℤ◌
both-IsSyndicate = record {
  shares = ((omega arith, omega arith), ((omega arith, omega arith), tt));
  ceiling = omega arith;
  distinct = (refl, (refl, tt));
}

pub both-full : total_share_bps both ≡ full_allocation_bps
unfolding total_share_bps ◌+ℤ◌
both-full = refl

-- 40 % of ten dollars, under a limit of four.
proposed : propose_allocation first second (dollars 1000) (some (dollars 400)) ≡ ok both
unfolding propose_allocation assert_valid_share total_share_bps has_allocation check_exposure
    compare_money assert_same_currency scale_money of_int multiply divide round units half_units
    nearest excess round_half_even money matches_currency_pattern ◌+ℤ◌
proposed = refl

propose_allocation-IsSyndicate_example :
    IsSyndicate both × (total_share_bps both ≡ total_share_bps first +ℤ pos 4000)
propose_allocation-IsSyndicate_example =
    propose_allocation-IsSyndicate first second (dollars 1000) (some (dollars 400)) both
      first-IsSyndicate proposed

remove_allocation-propose_allocation_example : remove_allocation both 2 ≡ ok first
remove_allocation-propose_allocation_example =
    remove_allocation-propose_allocation first second (dollars 1000) (some (dollars 400)) both
      proposed

propose_allocation-exposure_example :
    (a : Allocation) × (both ≡ first ++ a ∷ [])
    × (a.proposal ≡ second)
    × (same_currency a.amount (dollars 400) ≡ true)
    × (a.amount.amount_minor ≤ℤ pos 400)
propose_allocation-exposure_example =
    propose_allocation-exposure first second (dollars 1000) (dollars 400) both proposed

withdrawn : remove_allocation both 2 ≡ ok first
unfolding remove_allocation has_allocation without
withdrawn = refl

not_full : total_share_bps first ≢ full_allocation_bps
unfolding total_share_bps ◌+ℤ◌
not_full e = ground arith

bind_allocations-exact_example :
    (bound : List Allocation) × (bind_allocations both (dollars 1000) ≡ ok bound)
    × (proposals_of bound ≡ proposals_of both)
    × (sum_money (amounts_of bound) "USD" ≡ ok (dollars 1000))
bind_allocations-exact_example =
    bind_allocations-exact both (dollars 1000) both-IsSyndicate both-full
      (record { safe = refl; coded = dollars_coded }) (omega arith)
