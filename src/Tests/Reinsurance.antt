-- ===== src/Tests/Reinsurance.antt =====
-- Tests of a program with a quota share and an aggregate layer.
use neo_lloyds.Prelude.{◌≡◌, refl, List, [], ◌∷◌, none, some}
use neo_lloyds.Prelude.Int.{pos, ◌+ℤ◌, ◌-ℤ◌}
use neo_lloyds.Prelude.Sorting.{sort, insert_sorted}
use neo_lloyds.Double.{units, half_units, excess, round_half_even, nearest}
use neo_lloyds.Double.Signed.{of_int, multiply, divide, round}
use neo_lloyds.Errors.{ok}
use neo_lloyds.Money.{
  money, add_money, subtract_money, is_zero, proportion, matches_currency_pattern,
  assert_same_currency,
}
use neo_lloyds.Money.Sums.{IsMoney}
use neo_lloyds.Reinsurance.{
  BandParams, quota_share, aggregate, LayerState, ReinsuranceLayer, ProgramCession,
  require_valid_layer_params, apply_quota_share, aggregate_cession, apply_aggregate, apply_params,
  apply_layer, apply_layers, apply_reinsurance_program,
}
use neo_lloyds.Reinsurance.Program.{IsConserved, apply_reinsurance_program-conserves}
use neo_lloyds.Tests.{dollars, dollars_coded}

abbrev band : BandParams
band = record { attachment_point = dollars 500; limit = dollars 300 }

abbrev layers : List ReinsuranceLayer
layers =
    record { id = 2; order = pos 2; params = aggregate band; state = none }
    ∷ record {
      id = 1;
      order = pos 1;
      params = quota_share (record { ceded_bps = pos 3000; per_loss_limit = none });
      state = none;
    }
    ∷ []

abbrev next : LayerState
next = record { consumed_gross = dollars 700; consumed_ceded = dollars 200 }

abbrev cession : ProgramCession
cession = record {
  gross_loss = dollars 1000;
  per_layer =
      record {
        layer_id = 1;
        loss_presented = dollars 1000;
        ceded = dollars 300;
        retained = dollars 700;
        next_state = none;
      }
      ∷ record {
        layer_id = 2;
        loss_presented = dollars 700;
        ceded = dollars 200;
        retained = dollars 500;
        next_state = some next;
      }
      ∷ [];
  total_ceded = dollars 500;
  net_retained = dollars 500;
}

applied : apply_reinsurance_program (dollars 1000) layers ≡ ok cession
unfolding apply_reinsurance_program apply_layers apply_layer apply_params require_valid_layer_params
    apply_quota_share apply_aggregate aggregate_cession proportion add_money subtract_money
    assert_same_currency is_zero money matches_currency_pattern of_int multiply divide round units
    half_units nearest excess round_half_even sort insert_sorted ◌+ℤ◌ ◌-ℤ◌
applied = refl

gross-IsMoney : IsMoney (dollars 1000)
gross-IsMoney = record { safe = refl; coded = dollars_coded }

apply_reinsurance_program-conserves_example : IsConserved (dollars 1000) layers cession
apply_reinsurance_program-conserves_example =
    apply_reinsurance_program-conserves (dollars 1000) layers gross-IsMoney applied
