-- ===== src/Tests/Programs.antt =====
-- A program with one aggregate layer is created, and two losses are ceded to it.
use neo_lloyds.Prelude.{ℕ, refl, none, List, [], ◌∷◌, arith}
use neo_lloyds.Prelude.Int.{pos}
use neo_lloyds.Prelude.Dict.{get}
use neo_lloyds.Identity.{AuthContext, user, syndicate}
use neo_lloyds.Reinsurance.{BandParams, aggregate}
use neo_lloyds.Reinsurance.Stored.{LayerInput, aggregate_kind, Store}
use neo_lloyds.Reinsurance.Consumption.{layers_of}
use neo_lloyds.Reinsurance.Service.{create_program, cede}
use neo_lloyds.Reinsurance.Creation.{HasFreshIds}
use neo_lloyds.Reinsurance.Treaty.{IsTreaty}
use neo_lloyds.Reinsurance.History.{
  empty, Reach, start, next, program_created, loss_ceded, Reach-IsTreaty,
}
use neo_lloyds.Money.Sums.{of_amount}
use neo_lloyds.Tests.{dollars}

abbrev cedant : AuthContext
cedant = record {
  organisation_id = 1;
  subject_id = 7;
  subject_kind = user;
  roles = syndicate ∷ [];
  scopes = [];
  mandate = none;
}

abbrev band : BandParams
band = record { attachment_point = dollars 500; limit = dollars 300 }

abbrev layers : List (ℕ × LayerInput)
layers = (11, record { order = pos 1; kind = aggregate_kind; params = aggregate band }) ∷ []

fresh : HasFreshIds empty 10 layers
unfolding get layers_of
fresh = record { unused = refl; distinct = (tt, tt) }

abbrev with_program : Store
with_program = (create_program cedant 10 "USD" layers empty).1

abbrev after_one : Store
after_one = (cede cedant 20 10 (of_amount (pos 700) "USD") none with_program).1

abbrev after_two : Store
after_two = (cede cedant 21 10 (of_amount (pos 400) "USD") none after_one).1

reached : Reach after_two
reached =
    next
      (next (next start (program_created cedant 10 "USD" layers fresh (refl, tt)))
        (loss_ceded cedant 20 10 700 "USD" none (omega arith)))
      (loss_ceded cedant 21 10 400 "USD" none (omega arith))

Reach-IsTreaty_example : IsTreaty after_two.programs
Reach-IsTreaty_example = Reach-IsTreaty reached
