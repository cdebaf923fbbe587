-- ===== src/Tests/Graph.antt =====
-- Tests of the graph: two assets of which one depends on the other, and the cycle that is refused.
use neo_lloyds.Prelude.{ℕ, ◌≡◌, refl, List, [], ◌∷◌, some, Bool, true, false, ◌≤◌, inl, inr, arith}
use neo_lloyds.Prelude.Dict.{Dict, get, set}
use neo_lloyds.Errors.{ok, err, dependency_cycle}
use neo_lloyds.Identity.{includes}
use neo_lloyds.Ontology.{
  asset, depends_on, edge_rules, has_rule, is_edge_allowed, some_acyclic, is_acyclic_edge_type,
}
use neo_lloyds.Graph.{
  RiskNode, RiskEdge, RiskGraph, with_entry, add_node, add_member, resolve_ids, edges_from, offer,
  visit_edges, search, reaches, add_edge, add_nodes, add_edges, from_parts,
}
use neo_lloyds.Graph.Fuel.{reaches-ends}
use neo_lloyds.Graph.Traverse.{
  TraverseOptions, traverse, start_level, levels, follow_frontier, follow_edges, edges_at,
  is_followed, reach_node,
}
use neo_lloyds.Graph.Depths.{Trail, at_start, onward, traverse_sound}
use neo_lloyds.Graph.Exact.{HasOwnIds}
use neo_lloyds.Graph.Hops.{IsHop}
use neo_lloyds.Graph.Distances.{traverse_complete}
use mathlib.Core.List.{Memᴰ}
use neo_lloyds.Graph.Indexed.{IsRiskGraph, add_edge-IsRiskGraph, from_parts-IsRiskGraph}

abbrev plant : ℕ → RiskNode
plant id = record { id = id; node_type = asset }

abbrev needs : ℕ → ℕ → ℕ → RiskEdge
needs id a b = record {
  id = id;
  edge_type = depends_on;
  from_id = a;
  to_id = b;
  ai_inferred = false;
}

abbrev chain : RiskGraph
chain = record {
  nodes = (1, plant 1) ∷ (2, plant 2) ∷ (3, plant 3) ∷ [];
  edges = (10, needs 10 1 2) ∷ [];
  outgoing = (1, 10 ∷ []) ∷ (2, []) ∷ (3, []) ∷ [];
  incoming = (1, []) ∷ (2, 10 ∷ []) ∷ (3, []) ∷ [];
}

abbrev longer : RiskGraph
longer = record {
  nodes = (1, plant 1) ∷ (2, plant 2) ∷ (3, plant 3) ∷ [];
  edges = (10, needs 10 1 2) ∷ (11, needs 11 2 3) ∷ [];
  outgoing = (1, 10 ∷ []) ∷ (2, 11 ∷ []) ∷ (3, []) ∷ [];
  incoming = (1, []) ∷ (2, 10 ∷ []) ∷ (3, 11 ∷ []) ∷ [];
}

built : from_parts (plant 1 ∷ plant 2 ∷ plant 3 ∷ []) (needs 10 1 2 ∷ []) ≡ ok chain
unfolding from_parts add_nodes add_node with_entry add_edges add_edge add_member reaches search
    visit_edges offer edges_from resolve_ids get set includes is_edge_allowed is_acyclic_edge_type
    has_rule some_acyclic edge_rules
built = refl

from_parts-IsRiskGraph_example : IsRiskGraph chain
from_parts-IsRiskGraph_example =
    from_parts-IsRiskGraph (plant 1 ∷ plant 2 ∷ plant 3 ∷ []) (needs 10 1 2 ∷ []) built

chain-IsRiskGraph : IsRiskGraph chain
chain-IsRiskGraph =
    from_parts-IsRiskGraph (plant 1 ∷ plant 2 ∷ plant 3 ∷ []) (needs 10 1 2 ∷ []) built

extended : add_edge (needs 11 2 3) chain ≡ ok longer
unfolding add_edge add_member reaches search visit_edges offer edges_from resolve_ids get set
    includes is_edge_allowed is_acyclic_edge_type has_rule some_acyclic edge_rules
extended = refl

add_edge-IsRiskGraph_example : IsRiskGraph longer
add_edge-IsRiskGraph_example =
    add_edge-IsRiskGraph (needs 11 2 3) chain longer chain-IsRiskGraph extended

closing : add_edge (needs 12 3 1) longer ≡ err dependency_cycle
unfolding add_edge add_member reaches search visit_edges offer edges_from resolve_ids get set
    includes is_edge_allowed is_acyclic_edge_type has_rule some_acyclic edge_rules
closing = refl

unreached : reaches chain 2 1 depends_on ≡ false
unfolding reaches search visit_edges offer edges_from resolve_ids get includes
unreached = refl

reaches-ends_example :
    (b : Bool) × (search 3 longer 3 depends_on (1 ∷ []) (1 ∷ []) ≡ some b)
    × (reaches longer 1 3 depends_on ≡ b)
reaches-ends_example = reaches-ends longer 1 3 depends_on

abbrev two_levels : TraverseOptions
two_levels = record {
  edge_types = some (depends_on ∷ []);
  outward = true;
  max_depth = 2;
  verified_only = true;
}

abbrev depths : Dict ℕ
depths = (1, 0) ∷ (2, 1) ∷ (3, 2) ∷ []

traversed : traverse longer (1 ∷ []) two_levels ≡ ok depths
unfolding traverse start_level levels follow_frontier follow_edges edges_at is_followed reach_node
    edges_from resolve_ids get set includes
traversed = refl

third : get 3 depths ≡ some 2
unfolding get
third = refl

abbrev plants : List RiskNode
plants = plant 1 ∷ plant 2 ∷ plant 3 ∷ []

abbrev dependencies : List RiskEdge
dependencies = needs 10 1 2 ∷ needs 11 2 3 ∷ []

built_longer : from_parts plants dependencies ≡ ok longer
unfolding from_parts add_nodes add_node with_entry add_edges add_edge add_member reaches search
    visit_edges offer edges_from resolve_ids get set includes is_edge_allowed is_acyclic_edge_type
    has_rule some_acyclic edge_rules
built_longer = refl

own_ids : HasOwnIds dependencies
own_ids = ((λ (e : 10 ≡ 11). omega arith, tt), (tt, tt))

traverse_sound_example : Trail longer two_levels (1 ∷ []) 2 3 × (2 ≤ 2)
traverse_sound_example =
    traverse_sound plants dependencies longer (1 ∷ []) two_levels 3 own_ids built_longer traversed
      third

IsHop-needs : (id a b : ℕ) → get id longer.edges ≡ some (needs id a b) → IsHop longer two_levels a b
IsHop-needs id a b stored = record {
  id = id;
  edge = needs id a b;
  stored = stored;
  wanted = record { typed = inr (depends_on ∷ [], refl, Memᴰ.head refl); verified = inr refl };
  joins = inl (refl, refl, refl);
}

two_hops : Trail longer two_levels (1 ∷ []) 2 3
unfolding get
two_hops =
    onward (onward (at_start (Memᴰ.head refl)) (IsHop-needs 10 1 2 refl)) (IsHop-needs 11 2 3 refl)

traverse_complete_example : (d : ℕ) × (get 3 depths ≡ some d) × (d ≤ 2)
traverse_complete_example =
    traverse_complete plants dependencies longer (1 ∷ []) two_levels 2 3 built_longer traversed
      two_hops (omega arith)

-- An edge that takes the identifier of another stays listed at the source of the old one.
abbrev replaced : RiskGraph
replaced = record {
  nodes = (1, plant 1) ∷ (2, plant 2) ∷ (3, plant 3) ∷ [];
  edges = (10, needs 10 2 3) ∷ [];
  outgoing = (1, 10 ∷ []) ∷ (2, 10 ∷ []) ∷ (3, []) ∷ [];
  incoming = (1, []) ∷ (2, 10 ∷ []) ∷ (3, 10 ∷ []) ∷ [];
}

replacing : add_edge (needs 10 2 3) chain ≡ ok replaced
unfolding add_edge add_member reaches search visit_edges offer edges_from resolve_ids get set
    includes is_edge_allowed is_acyclic_edge_type has_rule some_acyclic edge_rules
replacing = refl

stale : edges_from replaced 1 (some depends_on) ≡ needs 10 2 3 ∷ []
unfolding edges_from resolve_ids get
stale = refl
