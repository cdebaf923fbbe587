-- ===== src/Graph.antt =====
-- packages/domain/src/graph.ts: the risk graph with its adjacency, the check for cycles and the
-- bounded traversal. A node or an edge has the fields that these operations read.
pub mod Traverse
pub mod Search
pub mod Fuel
pub mod Walks
pub mod Adjacency
pub mod Listed
pub mod Acyclic
pub mod Indexed
pub mod Exact
pub mod Hops
pub mod Depths
pub mod Sweeps
pub mod Distances
use neo_lloyds.Prelude.{
  ℕ, zero, suc, Bool, true, false, not, ◌&&◌, Option, none, some, List, [], ◌∷◌, ◌++◌, map, ◌==◌,
  if◌then◌else◌, length,
}
use neo_lloyds.Prelude.Dict.{Dict, get, set, values}
use neo_lloyds.Errors.{
  Result, ok, err, throw_if, ◌>>=◌, ◌>>◌, unknown_node, invalid_edge, dependency_cycle,
}
use neo_lloyds.Identity.{includes}
use neo_lloyds.Ontology.{
  NodeType, EdgeType, edge_index, same_edge_type, is_edge_allowed, is_acyclic_edge_type,
}

pub record RiskNode : Type 0 where
  pub id : ℕ
  pub node_type : NodeType

pub record RiskEdge : Type 0 where
  pub id : ℕ
  pub edge_type : EdgeType
  pub from_id : ℕ
  pub to_id : ℕ
  pub ai_inferred : Bool

-- A `Set` of edge identifiers is the list of its members.
pub record RiskGraph : Type 0 where
  pub nodes : Dict RiskNode
  pub edges : Dict RiskEdge
  pub outgoing : Dict (List ℕ)
  pub incoming : Dict (List ℕ)

-- `if (!map.has(id)) map.set(id, new Set())`
unfoldable pub with_entry : ℕ → Dict (List ℕ) → Dict (List ℕ)
with_entry id adjacency = elim (get id adjacency) [
  | none ↦ set id [] adjacency
  | some ids ↦ adjacency
]

unfoldable pub add_node : RiskNode → RiskGraph → RiskGraph
unfolding with_entry
add_node node g = record {
  nodes = set node.id node g.nodes;
  edges = g.edges;
  outgoing = with_entry node.id g.outgoing;
  incoming = with_entry node.id g.incoming;
}

-- `map.get(nodeId)?.add(edgeId)`
unfoldable pub add_member : ℕ → ℕ → Dict (List ℕ) → Dict (List ℕ)
add_member node_id edge_id adjacency = elim (get node_id adjacency) [
  | none ↦ adjacency
  | some ids ↦
      (if includes ids edge_id then adjacency else set node_id (ids ++ edge_id ∷ []) adjacency)
]

abbrev pub has_type : Option EdgeType → EdgeType → Bool
has_type none t = true
has_type (some wanted) t = same_edge_type t wanted

abbrev pub keep_edge : Option RiskEdge → Option EdgeType → List RiskEdge → List RiskEdge
keep_edge none wanted rest = rest
keep_edge (some e) wanted rest = if has_type wanted e.edge_type then e ∷ rest else rest

unfoldable pub resolve_ids : Dict RiskEdge → List ℕ → Option EdgeType → List RiskEdge
resolve_ids edges [] wanted = []
resolve_ids edges (id ∷ ids) wanted = keep_edge (get id edges) wanted (resolve_ids edges ids wanted)

abbrev pub resolve : Dict RiskEdge → Option (List ℕ) → Option EdgeType → List RiskEdge
resolve edges none wanted = []
resolve edges (some ids) wanted = resolve_ids edges ids wanted

unfoldable pub edges_from : RiskGraph → ℕ → Option EdgeType → List RiskEdge
unfolding resolve_ids
edges_from g node_id wanted = resolve g.edges (get node_id g.outgoing) wanted

unfoldable pub edges_to : RiskGraph → ℕ → Option EdgeType → List RiskEdge
unfolding resolve_ids
edges_to g node_id wanted = resolve g.edges (get node_id g.incoming) wanted

-- What has been seen, and what is still to be visited.
abbrev pub Frontier : Type 0
Frontier = List ℕ × List ℕ

-- The body of the loop over the edges of the node at the head of the queue.
unfoldable pub offer : ℕ → Frontier → Frontier
offer id (seen, queue) = if includes seen id then (seen, queue) else (id ∷ seen, queue ++ id ∷ [])

unfoldable pub visit_edges : List RiskEdge → Frontier → Frontier
unfolding offer
visit_edges [] state = state
visit_edges (e ∷ es) state = visit_edges es (offer e.to_id state)

-- The `while` loop, which `none` leaves unfinished.
unfoldable pub search : ℕ → RiskGraph → ℕ → EdgeType → List ℕ → List ℕ → Option Bool
unfolding visit_edges
search fuel g to t seen [] = some false
search zero g to t seen (current ∷ queue) = none
search (suc fuel) g to t seen (current ∷ queue) =
    let next = visit_edges (edges_from g current (some t)) (seen, queue) in
    let rest = search fuel g to t next.0 next.1 in if current == to then some true else rest

abbrev pub is_true : Option Bool → Bool
is_true (some b) = b
is_true none = false

-- Every node but the first is put on the queue for an edge, so one round for each edge and one more
-- are enough.
unfoldable pub reaches : RiskGraph → ℕ → ℕ → EdgeType → Bool
unfolding search
reaches g from to t =
    is_true (search (suc (length (values g.edges))) g to t (from ∷ []) (from ∷ []))

abbrev pub require_found : Option RiskNode → Result RiskNode
require_found none = err unknown_node
require_found (some node) = ok node

unfoldable pub add_edge : RiskEdge → RiskGraph → Result RiskGraph
unfolding add_member reaches
add_edge e g = do
  from ← require_found (get e.from_id g.nodes)
  to ← require_found (get e.to_id g.nodes)
  throw_if (not (is_edge_allowed e.edge_type from.node_type to.node_type)) invalid_edge
  throw_if ((e.from_id == e.to_id) && is_acyclic_edge_type e.edge_type) dependency_cycle
  throw_if (is_acyclic_edge_type e.edge_type && reaches g e.to_id e.from_id e.edge_type)
      dependency_cycle
  ok (record g {
    edges = set e.id e g.edges;
    outgoing = add_member e.from_id e.id g.outgoing;
    incoming = add_member e.to_id e.id g.incoming;
  })

abbrev pub empty_graph : RiskGraph
empty_graph = record { nodes = []; edges = []; outgoing = []; incoming = [] }

unfoldable pub add_nodes : List RiskNode → RiskGraph → RiskGraph
unfolding add_node
add_nodes [] g = g
add_nodes (n ∷ ns) g = add_nodes ns (add_node n g)

unfoldable pub add_edges : List RiskEdge → RiskGraph → Result RiskGraph
unfolding add_edge
add_edges [] g = ok g
add_edges (e ∷ es) g = do g' ← add_edge e g; add_edges es g'

-- `RiskGraph.from`
unfoldable pub from_parts : List RiskNode → List RiskEdge → Result RiskGraph
unfolding add_nodes add_edges
from_parts nodes edges = add_edges edges (add_nodes nodes empty_graph)
