-- ===== src/Graph/Indexed.antt =====
-- The invariant of the graph while nodes and edges come in (`RiskGraph.from`, `addNode`, `addEdge`).
use neo_lloyds.Prelude.{ℕ, ◌≡◌, sym, subst, true, List, [], ◌∷◌}
use neo_lloyds.Prelude.Dict.{get}
use neo_lloyds.Errors.{ok, >>=-eq-ok, ok_injective}
use neo_lloyds.Ontology.{EdgeType, is_acyclic_edge_type}
use neo_lloyds.Graph.{
  RiskNode, RiskEdge, RiskGraph, add_node, add_edge, add_nodes, add_edges, empty_graph, from_parts,
}
use neo_lloyds.Graph.Walks.{IsListed, IsAcyclic, IsIndexed, IsMirrored, Walk, one, more}
use neo_lloyds.Graph.Listed.{with_entry-IsListed, add_member-IsListed}
use neo_lloyds.Graph.Acyclic.{IsAdded, add_edge-IsAdded, added-IsAcyclic}
use neo_lloyds.Graph.Adjacency.{nothing_there}

-- The invariant of a graph that was built: every stored edge is listed under its identifier at its
-- source and at its target, and no edges of an acyclic type form a cycle.
pub record IsRiskGraph (g : RiskGraph) : Type 0 where
  pub indexed : IsIndexed g
  pub mirrored : IsMirrored g
  pub acyclic : (t : EdgeType) → is_acyclic_edge_type t ≡ true → IsAcyclic g t

-- Both adjacencies after an edge was added.
added-IsListed :
    (e : RiskEdge) (g g' : RiskGraph)
    → IsIndexed g
    → IsMirrored g
    → IsAdded e g g'
    → IsIndexed g' × IsMirrored g'
added-IsListed e g g' indexed mirrored added =
    let (_, source) = added.known in
    let (_, target) = added.known_target in
    subst (λ (x : RiskGraph). IsIndexed x × IsMirrored x) (sym added.result)
      (
        add_member-IsListed g.nodes g.edges g.outgoing (λ x. x.from_id) e source indexed,
        add_member-IsListed g.nodes g.edges g.incoming (λ x. x.to_id) e target mirrored,
      )

-- An edge that is added keeps the invariant of the graph, even in the place of another edge: both adjacencies
-- list every stored edge, and no edges of an acyclic type form a cycle.
pub add_edge-IsRiskGraph :
    (e : RiskEdge) (g g' : RiskGraph) → IsRiskGraph g → add_edge e g ≡ ok g' → IsRiskGraph g'
add_edge-IsRiskGraph e g g' valid h =
    let added = add_edge-IsAdded e g g' h in
    let (indexed, mirrored) = added-IsListed e g g' valid.indexed valid.mirrored added in
    record {
      indexed = indexed;
      mirrored = mirrored;
      acyclic =
          λ t marked. added-IsAcyclic g g' t e valid.indexed (valid.acyclic t marked) marked added;
    }

same_edges :
    (node : RiskNode) (g : RiskGraph) (t : EdgeType) {u v : ℕ}
    → Walk (add_node node g) t u v
    → Walk g t u v
unfolding add_node
same_edges node g t (one s) = one (record {
  id = s.id;
  edge = s.edge;
  stored = s.stored;
  typed = s.typed;
  leaves = s.leaves;
  enters = s.enters;
})
same_edges node g t (more walk s) = more (same_edges node g t walk) (record {
  id = s.id;
  edge = s.edge;
  stored = s.stored;
  typed = s.typed;
  leaves = s.leaves;
  enters = s.enters;
})

add_node-IsRiskGraph :
    (node : RiskNode) (g : RiskGraph) → IsRiskGraph g → IsRiskGraph (add_node node g)
unfolding add_node
add_node-IsRiskGraph node g valid = record {
  indexed = with_entry-IsListed g.nodes g.edges g.outgoing (λ x. x.from_id) node valid.indexed;
  mirrored = with_entry-IsListed g.nodes g.edges g.incoming (λ x. x.to_id) node valid.mirrored;
  acyclic = λ t marked u walk. valid.acyclic t marked u (same_edges node g t walk);
}

add_nodes-IsRiskGraph :
    (nodes : List RiskNode) (g : RiskGraph) → IsRiskGraph g → IsRiskGraph (add_nodes nodes g)
unfolding add_nodes
add_nodes-IsRiskGraph [] g valid = valid
add_nodes-IsRiskGraph (n ∷ ns) g valid =
    add_nodes-IsRiskGraph ns (add_node n g) (add_node-IsRiskGraph n g valid)

add_edges-IsRiskGraph :
    (edges : List RiskEdge) (g : RiskGraph) {g' : RiskGraph}
    → IsRiskGraph g
    → add_edges edges g ≡ ok g'
    → IsRiskGraph g'
unfolding add_edges
add_edges-IsRiskGraph [] g valid h = subst IsRiskGraph (ok_injective h) valid
add_edges-IsRiskGraph (e ∷ es) g valid h =
    let (next, added, h₁) = >>=-eq-ok (add_edge e g) _ h in
    add_edges-IsRiskGraph es next (add_edge-IsRiskGraph e g next valid added) h₁

no-Walk : (t : EdgeType) {u v : ℕ} → Walk empty_graph t u v → ⊥
unfolding get
no-Walk t (one s) = nothing_there s.stored
no-Walk t (more walk s) = no-Walk t walk

nothing-IsListed : (end : RiskEdge → ℕ) → IsListed [] [] [] end
unfolding get
nothing-IsListed end = record {
  entry = λ n h. absurd (nothing_there h);
  listed = λ i h. absurd (nothing_there h);
}

-- A graph that `RiskGraph.from` returns lists every stored edge, under its identifier, among the outgoing
-- edges of its source and among the incoming edges of its target, and has no cycle of edges of an
-- acyclic type.
pub from_parts-IsRiskGraph :
    (nodes : List RiskNode) (edges : List RiskEdge) {g : RiskGraph}
    → from_parts nodes edges ≡ ok g
    → IsRiskGraph g
unfolding from_parts
from_parts-IsRiskGraph nodes edges h =
    add_edges-IsRiskGraph edges (add_nodes nodes empty_graph)
      (add_nodes-IsRiskGraph nodes empty_graph (record {
        indexed = nothing-IsListed (λ e. e.from_id);
        mirrored = nothing-IsListed (λ e. e.to_id);
        acyclic = λ t marked u walk. no-Walk t walk;
      }))
      h
