-- ===== src/Tests/Capital.antt =====
-- Tests of a provider's position.
use neo_lloyds.Prelude.{ℕ, ◌≡◌, refl, List, [], ◌∷◌}
use neo_lloyds.Prelude.Int.{pos, ◌+ℤ◌, ◌-ℤ◌}
use neo_lloyds.Double.{units, half_units, excess, round_half_even, nearest}
use neo_lloyds.Double.Signed.{of_int, multiply, divide, round}
use neo_lloyds.Errors.{ok}
use neo_lloyds.Money.{
  money, add_money, subtract_money, compare_money, is_zero, matches_currency_pattern,
  assert_same_currency as assert_same_money,
}
use neo_lloyds.Capital.{
  CapitalCommitment, CapitalPosition, SyndicationStatus, open_status, bound, AllocationContribution,
  add_contribution, add_contributions, available_of, ratio_bps, compute_position,
  require_capacity_for_proposal, assert_same_currency,
}
use neo_lloyds.Capital.Position.{bound_sum, open_sum, remaining, compute_position-sums}
use neo_lloyds.Tests.{dollars}

abbrev commitment : CapitalCommitment
commitment = record { organisation_id = 2; committed = dollars 1000 }

abbrev held : SyndicationStatus → ℕ → AllocationContribution
held status n = record {
  syndication_id = 1;
  status = status;
  listing_id = 1;
  risk_class = 1;
  jurisdiction = 1;
  counterparty_organisation_id = 3;
  amount = dollars n;
}

abbrev contributions : List AllocationContribution
contributions = held bound 400 ∷ held open_status 100 ∷ []

abbrev position : CapitalPosition
position = record {
  organisation_id = 2;
  committed = dollars 1000;
  allocated = dollars 400;
  reserved = dollars 100;
  available = dollars 500;
  utilisation_bps = pos 5000;
}

positioned : compute_position commitment contributions ≡ ok position
unfolding compute_position add_contributions add_contribution available_of ratio_bps
    assert_same_currency add_money subtract_money compare_money assert_same_money is_zero money
    matches_currency_pattern of_int multiply divide round units half_units nearest excess
    round_half_even ◌+ℤ◌ ◌-ℤ◌
positioned = refl

compute_position-sums_example :
    (position.committed ≡ dollars 1000)
    × (position.allocated.amount_minor ≡ bound_sum contributions)
    × (position.reserved.amount_minor ≡ open_sum contributions)
    × (position.available.amount_minor
        ≡ remaining (pos 1000) (bound_sum contributions +ℤ open_sum contributions))
compute_position-sums_example = compute_position-sums commitment contributions position positioned

checked : require_capacity_for_proposal position (dollars 300) ≡ ok tt
unfolding require_capacity_for_proposal assert_same_currency compare_money assert_same_money
checked = refl
