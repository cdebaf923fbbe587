-- ===== src/Ontology.antt =====
-- packages/domain/src/ontology.ts: which edges a risk graph may contain. `ontologyDocument` only
-- publishes the tables.
use neo_lloyds.Prelude.{ℕ, Bool, true, false, ◌&&◌, ◌||◌, List, [], ◌∷◌, ◌==◌}

pub data NodeType : Type 0 where
  entity asset dependency risk hazard exposure event loss policy coverage premium : NodeType
  claim capital syndicate reinsurance_contract settlement : NodeType

abbrev pub node_index : NodeType → ℕ
node_index entity = 0
node_index asset = 1
node_index dependency = 2
node_index risk = 3
node_index hazard = 4
node_index exposure = 5
node_index event = 6
node_index loss = 7
node_index policy = 8
node_index coverage = 9
node_index premium = 10
node_index claim = 11
node_index capital = 12
node_index syndicate = 13
node_index reinsurance_contract = 14
node_index settlement = 15

pub data EdgeType : Type 0 where
  owns depends_on exposed_to may_cause covers supports assumes protects represents pays subject_to :
      EdgeType

abbrev pub edge_index : EdgeType → ℕ
edge_index owns = 0
edge_index depends_on = 1
edge_index exposed_to = 2
edge_index may_cause = 3
edge_index covers = 4
edge_index supports = 5
edge_index assumes = 6
edge_index protects = 7
edge_index represents = 8
edge_index pays = 9
edge_index subject_to = 10

pub record EdgeRule : Type 0 where
  pub edge_type : EdgeType
  pub from : NodeType
  pub to : NodeType
  pub acyclic : Bool

abbrev pub rule : EdgeType → NodeType → NodeType → Bool → EdgeRule
rule t from to acyclic = record { edge_type = t; from = from; to = to; acyclic = acyclic }

unfoldable pub edge_rules : List EdgeRule
edge_rules =
    rule owns entity asset false
    ∷ rule depends_on asset asset true
    ∷ rule exposed_to entity risk false
    ∷ rule exposed_to asset risk false
    ∷ rule may_cause hazard risk false
    ∷ rule may_cause risk event false
    ∷ rule may_cause event loss false
    ∷ rule covers policy risk false
    ∷ rule covers coverage risk false
    ∷ rule supports capital syndicate false
    ∷ rule assumes syndicate risk false
    ∷ rule protects reinsurance_contract syndicate false
    ∷ rule protects entity syndicate false
    ∷ rule represents claim loss false
    ∷ rule pays settlement claim false
    ∷ rule pays settlement premium false
    ∷ rule subject_to policy premium false
    ∷ []

abbrev pub same_edge_type : EdgeType → EdgeType → Bool
same_edge_type a b = edge_index a == edge_index b

unfoldable pub has_rule : List EdgeRule → EdgeType → NodeType → NodeType → Bool
has_rule [] t from to = false
has_rule (r ∷ rules) t from to =
    (same_edge_type r.edge_type t
      && ((node_index r.from == node_index from) && (node_index r.to == node_index to)))
    || has_rule rules t from to

unfoldable pub is_edge_allowed : EdgeType → NodeType → NodeType → Bool
unfolding edge_rules has_rule
is_edge_allowed t from to = has_rule edge_rules t from to

unfoldable pub some_acyclic : List EdgeRule → EdgeType → Bool
some_acyclic [] t = false
some_acyclic (r ∷ rules) t = (same_edge_type r.edge_type t && r.acyclic) || some_acyclic rules t

unfoldable pub is_acyclic_edge_type : EdgeType → Bool
unfolding edge_rules some_acyclic
is_acyclic_edge_type t = some_acyclic edge_rules t
