-- ===== src/Graph/Acyclic.antt =====
-- Edges of an acyclic type never close a cycle.
use neo_lloyds.Prelude.{
  ℕ, ◌≡◌, refl, sym, ap, subst, ◌∙◌, ◌⊎◌, inl, inr, Bool, true, false, not, ◌&&◌, Option, none,
  some, ◌==◌,
}
use neo_lloyds.Prelude.Dict.{get, set, get-set_cases}
use neo_lloyds.Errors.{ok, >>=-eq-ok, ok_injective, throw_if, dependency_cycle, invalid_edge}
use neo_lloyds.Ontology.{EdgeType, is_acyclic_edge_type, is_edge_allowed}
use neo_lloyds.Graph.{RiskNode, RiskEdge, RiskGraph, reaches, require_found, add_edge, add_member}
use neo_lloyds.Graph.Walks.{
  IsStep, Walk, one, more, IsAcyclic, IsIndexed, Reach, extend, Reach-trans, reaches_sound,
}

-- The graph with one more edge, or with one in the place of another.
module _ (g g' : RiskGraph) (t : EdgeType) (e : RiskEdge)
    (edges : g'.edges ≡ set e.id e g.edges) where
  abbrev IsNew : ℕ → ℕ → Type 0
  IsNew u v = (e.edge_type ≡ t) × (e.from_id ≡ u) × (e.to_id ≡ v)

  IsStep-old : (u v : ℕ) → IsStep g' t u v → IsStep g t u v ⊎ IsNew u v
  IsStep-old u v s =
      elim (get-set_cases e.id s.id e g.edges (ap (get s.id) (sym edges) ∙ s.stored)) [
        | inl new ↦ inr (
          ap (λ (x : RiskEdge). x.edge_type) new.1 ∙ s.typed,
          ap (λ (x : RiskEdge). x.from_id) new.1 ∙ s.leaves,
          ap (λ (x : RiskEdge). x.to_id) new.1 ∙ s.enters,
        )
        | inr old ↦ inl (record {
          id = s.id;
          edge = s.edge;
          stored = old.1;
          typed = s.typed;
          leaves = s.leaves;
          enters = s.enters;
        })
      ]

  Walk-old :
      (u : ℕ) {v : ℕ}
      → Walk g' t u v
      → Walk g t u v ⊎ ((e.edge_type ≡ t) × Reach g t u e.from_id × Reach g t e.to_id v)
  Walk-old u (one {v} s) = elim (IsStep-old u v s) [
    | inl old ↦ inl (one old)
    | inr new ↦ inr (new.0, inl (sym new.1), inl new.2)
  ]
  Walk-old u (more {v} {w} walk s) = elim (IsStep-old v w s) [
    | inl old ↦ (elim (Walk-old u walk) [
      | inl before ↦ inl (more before old)
      | inr split ↦ inr (split.0, split.1, inr (extend g t split.2 old))
    ])
    | inr new ↦ (elim (Walk-old u walk) [
      | inl before ↦ inr (new.0, inr (subst (Walk g t u) (sym new.1) before), inl new.2)
      | inr split ↦ inr (split.0, split.1, inl new.2)
    ])
  ]

-- What `addEdge` has made sure of where it returned.
pub record IsAdded (e : RiskEdge) (g g' : RiskGraph) : Type 0 where
  pub known : (node : RiskNode) × (get e.from_id g.nodes ≡ some node)
  pub known_target : (node : RiskNode) × (get e.to_id g.nodes ≡ some node)
  pub denied :
      is_acyclic_edge_type e.edge_type ≡ true → reaches g e.to_id e.from_id e.edge_type ≡ false
  pub result : g' ≡ record g {
    edges = set e.id e g.edges;
    outgoing = add_member e.from_id e.id g.outgoing;
    incoming = add_member e.to_id e.id g.incoming;
  }

found_node : (o : Option RiskNode) {node : RiskNode} → require_found o ≡ ok node → o ≡ some node
found_node none h = cc
found_node (some n) h = ap some (ok_injective h)

not_both :
    (a b : Bool) {u : Unit {0}} → throw_if (a && b) dependency_cycle ≡ ok u → a ≡ true → b ≡ false
not_both true false h e = refl
not_both true true h e = cc
not_both false b h e = cc

pub add_edge-IsAdded : (e : RiskEdge) (g g' : RiskGraph) → add_edge e g ≡ ok g' → IsAdded e g g'
unfolding add_edge
add_edge-IsAdded e g g' h =
    let (from, found, h₁) = >>=-eq-ok (require_found (get e.from_id g.nodes)) _ h in
    let (to, reached, h₂) = >>=-eq-ok (require_found (get e.to_id g.nodes)) _ h₁ in
    let (_, _, h₃) =
      >>=-eq-ok
        (throw_if (not (is_edge_allowed e.edge_type from.node_type to.node_type)) invalid_edge) _
        h₂ in
    let (_, _, h₄) =
      >>=-eq-ok
        (throw_if ((e.from_id == e.to_id) && is_acyclic_edge_type e.edge_type) dependency_cycle) _
        h₃ in
    let (_, free, h₅) =
      >>=-eq-ok
        (throw_if (is_acyclic_edge_type e.edge_type && reaches g e.to_id e.from_id e.edge_type)
          dependency_cycle)
        _ h₄ in
    record {
      known = (from, found_node (get e.from_id g.nodes) found);
      known_target = (to, found_node (get e.to_id g.nodes) reached);
      denied =
          not_both (is_acyclic_edge_type e.edge_type) (reaches g e.to_id e.from_id e.edge_type)
            free;
      result = sym (ok_injective h₅);
    }

pub added-IsAcyclic :
    (g g' : RiskGraph) (t : EdgeType) (e : RiskEdge)
    → IsIndexed g
    → IsAcyclic g t
    → is_acyclic_edge_type t ≡ true
    → IsAdded e g g'
    → IsAcyclic g' t
added-IsAcyclic g g' t e indexed acyclic marked added u walk =
    elim (Walk-old g g' t e (ap (λ (x : RiskGraph). x.edges) added.result) u walk) [
      | inl old ↦ acyclic u old
      | inr split ↦
          let denied = added.denied (ap is_acyclic_edge_type split.0 ∙ marked) in
          reaches_sound g e.to_id e.from_id e.edge_type indexed denied (
            subst (λ (k : EdgeType). Reach g k e.to_id e.from_id) (sym split.0)
              (Reach-trans g t split.2 split.1))
    ]
