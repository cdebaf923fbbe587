-- ===== src/Reinsurance/Stored.antt =====
-- What the reinsurance service keeps: `InMemoryReinsuranceRepository` of
-- apps/api/src/persistence/in-memory.ts, and what the service makes of stored layers. Names and
-- times are left out.
use neo_lloyds.Prelude.{
  ℕ, Bool, true, false, ◌&&◌, ◌||◌, ◌==◌, Option, none, some, List, [], ◌∷◌, ◌++◌, map,
  if◌then◌else◌,
}
use Prim.Native.String.{String}
use neo_lloyds.Prelude.Int.{ℤ, pos, leb_ℤ}
use neo_lloyds.Prelude.Dict.{Dict, get, set}
use neo_lloyds.Errors.{Result, ok, ◌>>=◌, ◌>>◌}
use neo_lloyds.Money.{money}
use neo_lloyds.Reinsurance.{
  LayerParams, LayerState, ReinsuranceLayer, LayerCession, ProgramCession,
  require_valid_layer_params,
}

pub data LayerKind : Type 0 where
  quota_share_kind excess_of_loss_kind aggregate_kind : LayerKind

pub record StoredLayer : Type 0 where
  pub id : ℕ
  pub order : ℤ
  pub kind : LayerKind
  pub params : LayerParams
  pub aggregate_consumed_gross_minor : ℤ
  pub aggregate_consumed_ceded_minor : ℤ

pub record StoredProgram : Type 0 where
  pub id : ℕ
  pub organisation_id : ℕ
  pub currency : String
  pub layers : List StoredLayer

pub record StoredCession : Type 0 where
  pub id : ℕ
  pub program_id : ℕ
  pub claim_id : Option ℕ
  pub cession : ProgramCession

pub data AuditAction : Type 0 where
  program_create cede_loss : AuditAction

pub record AuditEntry : Type 0 where
  pub actor : ℕ
  pub action : AuditAction
  pub subject : ℕ

pub record Store : Type 0 where
  pub programs : Dict StoredProgram
  pub cessions : Dict (List StoredCession)
  pub audit_log : List AuditEntry

-- What a caller asks for of one layer.
pub record LayerInput : Type 0 where
  pub order : ℤ
  pub kind : LayerKind
  pub params : LayerParams

unfoldable pub require_valid_layers : List LayerInput → Result (Unit {0})
unfolding require_valid_layer_params
require_valid_layers [] = ok tt
require_valid_layers (l ∷ ls) = do require_valid_layer_params l.params; require_valid_layers ls

abbrev pub same_order : ℤ → ℤ → Bool
same_order a b = leb_ℤ a b && leb_ℤ b a

unfoldable pub has_order : ℤ → List LayerInput → Bool
has_order k [] = false
has_order k (l ∷ ls) = same_order k l.order || has_order k ls

-- `new Set(orders).size !== orders.length`
unfoldable pub has_duplicate_order : List LayerInput → Bool
unfolding has_order
has_duplicate_order [] = false
has_duplicate_order (l ∷ ls) = has_order l.order ls || has_duplicate_order ls

abbrev pub new_layer : ℕ × LayerInput → StoredLayer
new_layer l = record {
  id = l.0;
  order = l.1.order;
  kind = l.1.kind;
  params = l.1.params;
  aggregate_consumed_gross_minor = pos 0;
  aggregate_consumed_ceded_minor = pos 0;
}

abbrev pub new_program : ℕ → ℕ → String → List (ℕ × LayerInput) → StoredProgram
new_program id organisation_id currency layers = record {
  id = id;
  organisation_id = organisation_id;
  currency = currency;
  layers = map new_layer layers;
}

abbrev pub is_aggregate : LayerKind → Bool
is_aggregate aggregate_kind = true
is_aggregate _ = false

abbrev pub carried_state : String → StoredLayer → Result (Option LayerState)
carried_state currency l = do
  consumed_gross ← money l.aggregate_consumed_gross_minor currency
  consumed_ceded ← money l.aggregate_consumed_ceded_minor currency
  ok (some (record { consumed_gross = consumed_gross; consumed_ceded = consumed_ceded }))

unfoldable pub to_layer : String → StoredLayer → Result ReinsuranceLayer
to_layer currency l = do
  state ← if is_aggregate l.kind then carried_state currency l else ok none
  ok (record { id = l.id; order = l.order; params = l.params; state = state })

unfoldable pub to_layers : String → List StoredLayer → Result (List ReinsuranceLayer)
unfolding to_layer
to_layers currency [] = ok []
to_layers currency (l ∷ ls) = do
  layer ← to_layer currency l
  layers ← to_layers currency ls
  ok (layer ∷ layers)

abbrev pub consumed : LayerState → StoredLayer → StoredLayer
consumed state l = record l {
  aggregate_consumed_gross_minor = state.consumed_gross.amount_minor;
  aggregate_consumed_ceded_minor = state.consumed_ceded.amount_minor;
}

-- The first layer with the identifier, with its new state, if the program has one.
unfoldable pub update_layers : ℕ → LayerState → List StoredLayer → Option (List StoredLayer)
update_layers id state [] = none
update_layers id state (l ∷ ls) =
    let rest = update_layers id state ls in
    if l.id == id
    then some (consumed state l ∷ ls)
    else elim rest [ none ↦ none | some updated ↦ some (l ∷ updated) ]

-- The loop over all programs ends at the first that has the layer.
unfoldable pub update_programs : ℕ → LayerState → Dict StoredProgram → Dict StoredProgram
unfolding update_layers
update_programs id state [] = []
update_programs id state ((k, p) ∷ rest) =
    let others = update_programs id state rest in
    elim (update_layers id state p.layers) [
      | none ↦ (k, p) ∷ others
      | some updated ↦ (k, record p { layers = updated }) ∷ rest
    ]

-- Only a layer with a next state is updated.
unfoldable pub update_state : ℕ → Option LayerState → Dict StoredProgram → Dict StoredProgram
unfolding update_programs
update_state layer_id none d = d
update_state layer_id (some state) d = update_programs layer_id state d

unfoldable pub update_states : List LayerCession → Dict StoredProgram → Dict StoredProgram
unfolding update_state
update_states [] d = d
update_states (x ∷ xs) d = update_states xs (update_state x.layer_id x.next_state d)

abbrev pub or_nil : Option (List StoredCession) → List StoredCession
or_nil none = []
or_nil (some xs) = xs

unfoldable pub record_cession : StoredCession → Store → Store
record_cession c s = record s {
  cessions = set c.program_id (or_nil (get c.program_id s.cessions) ++ c ∷ []) s.cessions;
}
