-- ===== src/Tests/Marketplace.antt =====
-- Tests of a match and of a ranking.
use neo_lloyds.Prelude.{ℕ, ◌≡◌, ◌↔◌, refl, List, [], ◌∷◌, true, false}
use neo_lloyds.Prelude.Int.{pos}
use neo_lloyds.Prelude.Sorting.{sort, insert_sorted}
use neo_lloyds.Double.{units, half_units, excess, round_half_even, nearest}
use neo_lloyds.Double.Signed.{of_int, multiply, divide}
use neo_lloyds.Errors.{ok}
use neo_lloyds.Money.{compare_money, is_zero, assert_same_currency}
use neo_lloyds.Identity.{includes}
use neo_lloyds.Marketplace.{
  Listing, CapitalAppetite, duration_exceeds_max, MatchResult, concentration_share_bps, reasons_for,
  matches_appetite, Ranked, match_all, rank_listings,
}
use neo_lloyds.Marketplace.Ranking.{
  IsWanted, matches_appetite_iff, IsRanking, rank_listings-IsRanking,
}
use neo_lloyds.Tests.{dollars}

abbrev listed : ℕ → ℕ → ℕ → Listing
listed id n days = record {
  id = id;
  risk_class = 1;
  jurisdiction = 2;
  capacity = dollars n;
  duration_days = of_int (pos days);
  custody_model = 1;
}

abbrev appetite : CapitalAppetite
appetite = record {
  preferred_risk_classes = 1 ∷ [];
  max_exposure = dollars 1000;
  preferred_jurisdictions = [];
  max_duration_days = of_int (pos 365);
  concentration_limit_bps = of_int (pos 9000);
  accepted_custody_models = [];
}

abbrev wanted : MatchResult
wanted = record { matches = true; reasons = [] }

abbrev too_long : MatchResult
too_long = record { matches = false; reasons = duration_exceeds_max ∷ [] }

matched : matches_appetite (listed 1 500 30) appetite ≡ ok wanted
unfolding matches_appetite reasons_for includes concentration_share_bps compare_money
    assert_same_currency is_zero of_int multiply divide units half_units nearest excess
    round_half_even
matched = refl

matches_appetite_iff_example : (true ≡ true) ↔ IsWanted (listed 1 500 30) appetite
matches_appetite_iff_example = matches_appetite_iff (listed 1 500 30) appetite matched

abbrev ranking : List Ranked
ranking =
    record { listing = listed 3 600 10; result = wanted }
    ∷ record { listing = listed 1 500 30; result = wanted }
    ∷ record { listing = listed 2 900 400; result = too_long }
    ∷ []

ranked :
    rank_listings (listed 1 500 30 ∷ listed 2 900 400 ∷ listed 3 600 10 ∷ []) appetite ≡ ok ranking
unfolding rank_listings match_all sort insert_sorted matches_appetite reasons_for includes
    concentration_share_bps compare_money assert_same_currency is_zero of_int multiply divide units
    half_units nearest excess round_half_even
ranked = refl

rank_listings-IsRanking_example :
    IsRanking (listed 1 500 30 ∷ listed 2 900 400 ∷ listed 3 600 10 ∷ []) appetite ranking
rank_listings-IsRanking_example =
    rank_listings-IsRanking (listed 1 500 30 ∷ listed 2 900 400 ∷ listed 3 600 10 ∷ []) appetite
      ranked
