-- ===== src/Graph/Exact.antt =====
-- A graph that was built with an identifier of its own for each edge: whatever an adjacency lists is
-- an edge at that node.
use neo_lloyds.Prelude.{
  ℕ, ◌≡◌, ◌≢◌, refl, sym, ap, subst, ◌∙◌, none, List, [], ◌∷◌, All, All-map, All-zip,
}
use neo_lloyds.Prelude.Dict.{Dict, get, set, get-set-other}
use neo_lloyds.Errors.{ok, >>=-eq-ok, ok_injective}
use neo_lloyds.Graph.{
  RiskNode, RiskEdge, RiskGraph, add_node, add_edge, add_nodes, add_edges, empty_graph, from_parts,
}
use neo_lloyds.Graph.Acyclic.{add_edge-IsAdded}
use neo_lloyds.Graph.Adjacency.{nothing_there}
use neo_lloyds.Graph.Listed.{IsFaithful, with_entry-IsFaithful, add_member-IsFaithful}

pub record IsExact (g : RiskGraph) : Type 0 where
  pub out : IsFaithful g.edges g.outgoing (λ e. e.from_id)
  pub into : IsFaithful g.edges g.incoming (λ e. e.to_id)

abbrev pub HasOwnIds : List RiskEdge → Type 0
HasOwnIds [] = Unit
HasOwnIds (e ∷ es) = All (λ (f : RiskEdge). e.id ≢ f.id) es × HasOwnIds es

abbrev AreFresh : RiskGraph → List RiskEdge → Type 0
AreFresh g es = All (λ (e : RiskEdge). get e.id g.edges ≡ none) es

add_node-IsExact : (node : RiskNode) (g : RiskGraph) → IsExact g → IsExact (add_node node g)
unfolding add_node
add_node-IsExact node g exact = record {
  out = with_entry-IsFaithful g.nodes g.edges g.outgoing (λ e. e.from_id) node.id exact.out;
  into = with_entry-IsFaithful g.nodes g.edges g.incoming (λ e. e.to_id) node.id exact.into;
}

add_nodes-IsExact :
    (nodes : List RiskNode) (g : RiskGraph)
    → IsExact g
    → IsExact (add_nodes nodes g) × ((add_nodes nodes g).edges ≡ g.edges)
unfolding add_nodes add_node
add_nodes-IsExact [] g exact = (exact, refl)
add_nodes-IsExact (n ∷ ns) g exact =
    add_nodes-IsExact ns (add_node n g) (add_node-IsExact n g exact)

add_edge-IsExact :
    (e : RiskEdge) (g g' : RiskGraph)
    → IsExact g
    → get e.id g.edges ≡ none
    → add_edge e g ≡ ok g'
    → IsExact g' × (g'.edges ≡ set e.id e g.edges)
add_edge-IsExact e g g' exact fresh h =
    let added = add_edge-IsAdded e g g' h in
    (
      subst IsExact (sym added.result) (record {
        out = add_member-IsFaithful g.nodes g.edges g.outgoing (λ x. x.from_id) e fresh exact.out;
        into = add_member-IsFaithful g.nodes g.edges g.incoming (λ x. x.to_id) e fresh exact.into;
      }),
      ap (λ (x : RiskGraph). x.edges) added.result,
    )

still_fresh :
    (e : RiskEdge) (es : List RiskEdge) (d : Dict RiskEdge)
    → All (λ (f : RiskEdge). e.id ≢ f.id) es
    → All (λ (f : RiskEdge). get f.id d ≡ none) es
    → All (λ (f : RiskEdge). get f.id (set e.id e d) ≡ none) es
still_fresh e es d own fresh =
    All-map es (λ f h. get-set-other e.id f.id e d h.0 ∙ h.1) (All-zip _ _ es own fresh)

add_edges-IsExact :
    (es : List RiskEdge) (g : RiskGraph) {g' : RiskGraph}
    → IsExact g
    → HasOwnIds es
    → AreFresh g es
    → add_edges es g ≡ ok g'
    → IsExact g'
unfolding add_edges
add_edges-IsExact [] g exact own fresh h = subst IsExact (ok_injective h) exact
add_edges-IsExact (e ∷ es) g exact own fresh h =
    let (next, added, h₁) = >>=-eq-ok (add_edge e g) _ h in
    let (exact', edges) = add_edge-IsExact e g next exact fresh.0 added in
    let later : AreFresh next es =
      subst (λ (d : Dict RiskEdge). All (λ (f : RiskEdge). get f.id d ≡ none) es) (sym edges)
        (still_fresh e es g.edges own.0 fresh.1) in
    add_edges-IsExact es next exact' own.1 later h₁

nothing-IsFaithful : (end : RiskEdge → ℕ) → IsFaithful [] [] end
unfolding get
nothing-IsFaithful end = record { resolves = λ n i h m. absurd (nothing_there h) }

none_stored : (es : List RiskEdge) → All (λ (f : RiskEdge). get {A = RiskEdge} f.id [] ≡ none) es
unfolding get
none_stored [] = tt
none_stored (e ∷ es) = (refl, none_stored es)

pub from_parts-IsExact :
    (nodes : List RiskNode) (edges : List RiskEdge) {g : RiskGraph}
    → HasOwnIds edges
    → from_parts nodes edges ≡ ok g
    → IsExact g
unfolding from_parts
from_parts-IsExact nodes edges own h =
    let (exact, same) = add_nodes-IsExact nodes empty_graph (record {
      out = nothing-IsFaithful (λ e. e.from_id);
      into = nothing-IsFaithful (λ e. e.to_id);
    }) in
    let fresh : AreFresh (add_nodes nodes empty_graph) edges =
      subst (λ (d : Dict RiskEdge). All (λ (f : RiskEdge). get f.id d ≡ none) edges) (sym same)
        (none_stored edges) in
    add_edges-IsExact edges (add_nodes nodes empty_graph) exact own fresh h
