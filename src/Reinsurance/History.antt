-- ===== src/Reinsurance/History.antt =====
-- The stored programs over any history of calls of the service that write.
use neo_lloyds.Prelude.{ℕ, ◌*◌, ◌^◌, ◌<◌, sym, subst, inl, inr, Option, List, [], All}
use Prim.Native.String.{String}
use neo_lloyds.Prelude.Int.{pos}
use neo_lloyds.Identity.{AuthContext}
use neo_lloyds.Money.Sums.{of_amount}
use neo_lloyds.Reinsurance.Stored.{Store, LayerInput}
use neo_lloyds.Reinsurance.Service.{create_program, cede}
use neo_lloyds.Reinsurance.Consumption.{layers_of}
use neo_lloyds.Reinsurance.Treaty.{IsTreaty}
use neo_lloyds.Reinsurance.Creation.{HasFreshIds, HasKind, create_program-IsTreaty}
use neo_lloyds.Reinsurance.Cessions.{cede-cases, IsCeded-IsTreaty}

-- One call, whether it returns or throws.
pub data Step (s : Store) : Store → Type 0 where
  program_created :
      (ctx : AuthContext) (id : ℕ) (currency : String) (layers : List (ℕ × LayerInput))
      → HasFreshIds s id layers
      → All HasKind layers
      → Step s (create_program ctx id currency layers s).1
  loss_ceded :
      (ctx : AuthContext) (id program_id n : ℕ) (c : String) (claim_id : Option ℕ)
      → n * 10000 < 2 ^ 52
      → Step s (cede ctx id program_id (of_amount (pos n) c) claim_id s).1

abbrev pub empty : Store
empty = record { programs = []; cessions = []; audit_log = [] }

pub data Reach : Store → Type 0 where
  start : Reach empty
  next : {s t : Store} → Reach s → Step s t → Reach t

cede-IsTreaty :
    (ctx : AuthContext) (id program_id n : ℕ) (c : String) (claim_id : Option ℕ) (s : Store)
    → n * 10000 < 2 ^ 52
    → IsTreaty s.programs
    → IsTreaty (cede ctx id program_id (of_amount (pos n) c) claim_id s).1.programs
cede-IsTreaty ctx id program_id n c claim_id s small treaty =
    elim (cede-cases ctx id program_id (of_amount (pos n) c) claim_id s) [
      | inl same ↦ subst (λ (x : Store). IsTreaty x.programs) (sym same) treaty
      | inr done ↦ IsCeded-IsTreaty program_id n c s _ small treaty done
    ]

empty-IsTreaty : IsTreaty empty.programs
unfolding layers_of
empty-IsTreaty = record { balanced = tt; distinct = tt }

-- Programs are created with fresh identifiers and with layers of the kind that their parameters are for, as the
-- controller sends them, and losses that are not negative and of which 10000 times the amount is
-- below 2 ^ 52 are ceded to them, in any order and with calls that throw in between. Then of every
-- stored aggregate layer the running total ceded is exactly the part of the running gross total that
-- lies above its attachment point, up to its limit, and so never more than the limit; and no two
-- stored layers share an identifier.
pub Reach-IsTreaty : {t : Store} → Reach t → IsTreaty t.programs
Reach-IsTreaty start = empty-IsTreaty
Reach-IsTreaty (next r (program_created ctx id currency layers fresh kinds)) =
    create_program-IsTreaty ctx id currency layers _ fresh kinds (Reach-IsTreaty r)
Reach-IsTreaty (next r (loss_ceded ctx id program_id n c claim_id small)) =
    cede-IsTreaty ctx id program_id n c claim_id _ small (Reach-IsTreaty r)
