-- ===== src/Graph/Traverse.antt =====
-- `RiskGraph.traverse`: breadth-first from the start nodes, level by level, with a depth bound.
use neo_lloyds.Prelude.{
  ℕ, zero, suc, Bool, true, not, ◌&&◌, Option, none, some, List, [], ◌∷◌, ◌++◌, map, if◌then◌else◌,
}
use neo_lloyds.Prelude.Dict.{Dict, get, set}
use neo_lloyds.Errors.{Result, ok, ◌>>=◌}
use neo_lloyds.Identity.{includes}
use neo_lloyds.Ontology.{EdgeType, edge_index}
use neo_lloyds.Graph.{RiskEdge, RiskGraph, edges_from, edges_to, require_found}

pub record TraverseOptions : Type 0 where
  pub edge_types : Option (List EdgeType)
  pub outward : Bool
  pub max_depth : ℕ
  pub verified_only : Bool

abbrev pub allows_type : Option (List EdgeType) → EdgeType → Bool
allows_type none t = true
allows_type (some ts) t = includes (map edge_index ts) (edge_index t)

-- An edge that neither `continue` passes over.
unfoldable pub is_followed : TraverseOptions → RiskEdge → Bool
is_followed o e = allows_type o.edge_types e.edge_type && not (o.verified_only && e.ai_inferred)

unfoldable pub edges_at : RiskGraph → TraverseOptions → ℕ → List RiskEdge
unfolding edges_from edges_to
edges_at g o node_id = if o.outward then edges_from g node_id none else edges_to g node_id none

abbrev pub neighbour : TraverseOptions → RiskEdge → ℕ
neighbour o e = if o.outward then e.to_id else e.from_id

-- The depths that are known, and the nodes of the next level.
pub record Level : Type 0 where
  pub depths : Dict ℕ
  pub next : List ℕ

-- `if (!depths.has(id)) { depths.set(id, depth); next.push(id); }`
unfoldable pub reach_node : ℕ → ℕ → Level → Level
reach_node depth id l = elim (get id l.depths) [
  | none ↦ record { depths = set id depth l.depths; next = l.next ++ id ∷ [] }
  | some d ↦ l
]

unfoldable pub follow_edges : TraverseOptions → ℕ → List RiskEdge → Level → Level
unfolding reach_node is_followed
follow_edges o depth [] l = l
follow_edges o depth (e ∷ es) l =
    follow_edges o depth es (if is_followed o e then reach_node depth (neighbour o e) l else l)

unfoldable pub follow_frontier : RiskGraph → TraverseOptions → ℕ → List ℕ → Level → Level
unfolding follow_edges edges_at
follow_frontier g o depth [] l = l
follow_frontier g o depth (n ∷ ns) l =
    follow_frontier g o depth ns (follow_edges o depth (edges_at g o n) l)

-- The loop on `depth`, by the levels that the bound still allows.
unfoldable pub levels : RiskGraph → TraverseOptions → ℕ → ℕ → Level → Dict ℕ
unfolding follow_frontier
levels g o zero depth l = l.depths
levels g o (suc left) depth l =
    levels g o left (suc depth)
      (follow_frontier g o depth l.next (record { depths = l.depths; next = [] }))

unfoldable pub start_level : RiskGraph → List ℕ → Level → Result Level
unfolding reach_node
start_level g [] l = ok l
start_level g (id ∷ ids) l = do
  node ← require_found (get id g.nodes)
  start_level g ids (reach_node 0 id l)

unfoldable pub traverse : RiskGraph → List ℕ → TraverseOptions → Result (Dict ℕ)
unfolding start_level levels
traverse g start_ids o = do
  l ← start_level g start_ids (record { depths = []; next = [] })
  ok (levels g o o.max_depth 1 l)
