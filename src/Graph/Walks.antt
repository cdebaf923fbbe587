-- ===== src/Graph/Walks.antt =====
-- Walks along stored edges, and that the search follows all of them.
use mathlib.Core.List.{Memᴰ}
use mathlib.Core.List.Memᴰ
use neo_lloyds.Prelude.{
  ℕ, ◌≡◌, refl, sym, ap, subst, ◌∙◌, ◌⊎◌, inl, inr, true, false, Option, none, some, List, [], ◌∷◌,
  ◌==◌, Bool-cases, ==_iff,
}
use neo_lloyds.Prelude.Dict.{Dict, get}
use neo_lloyds.Ontology.{EdgeType, edge_index}
use neo_lloyds.Graph.{
  RiskNode, RiskEdge, RiskGraph, resolve_ids, keep_edge, has_type, edges_from, reaches,
}
use neo_lloyds.Graph.Search.{successors, targets, IsClosed, search-IsClosed}
use neo_lloyds.Graph.Fuel.{reaches-ends}

-- One stored edge of a type, and the walks along one or more of them.
pub record IsStep (g : RiskGraph) (t : EdgeType) (u v : ℕ) : Type 0 where
  pub id : ℕ
  pub edge : RiskEdge
  pub stored : get id g.edges ≡ some edge
  pub typed : edge.edge_type ≡ t
  pub leaves : edge.from_id ≡ u
  pub enters : edge.to_id ≡ v

pub data Walk (g : RiskGraph) (t : EdgeType) (u : ℕ) : ℕ → Type 0 where
  one : {v : ℕ} → IsStep g t u v → Walk g t u v
  more : {v w : ℕ} → Walk g t u v → IsStep g t v w → Walk g t u w

abbrev pub IsAcyclic : RiskGraph → EdgeType → Type 0
IsAcyclic g t = (u : ℕ) → Walk g t u u → ⊥

-- In an adjacency every node has an entry, and every stored edge, which has its identifier as its key,
-- stands in the entry of the node at one of its ends.
pub record IsListed (nodes : Dict RiskNode) (edges : Dict RiskEdge) (adjacency : Dict (List ℕ))
    (end : RiskEdge → ℕ) : Type 0 where
  pub entry :
      (n : ℕ) {node : RiskNode}
      → get n nodes ≡ some node
      → (ids : List ℕ) × (get n adjacency ≡ some ids)
  pub listed :
      (i : ℕ) {e : RiskEdge}
      → get i edges ≡ some e
      → (e.id ≡ i) × ((ids : List ℕ) × (get (end e) adjacency ≡ some ids) × Memᴰ i ids)

-- The outgoing edges are complete, and the incoming ones.
abbrev pub IsIndexed : RiskGraph → Type 0
IsIndexed g = IsListed g.nodes g.edges g.outgoing (λ e. e.from_id)

abbrev pub IsMirrored : RiskGraph → Type 0
IsMirrored g = IsListed g.nodes g.edges g.incoming (λ e. e.to_id)

same_type : (t : EdgeType) → (edge_index t == edge_index t) ≡ true
same_type t = (==_iff (edge_index t) (edge_index t)).1 refl

keep_edge-here :
    (o : Option RiskEdge) (e : RiskEdge) (rest : List RiskEdge)
    → o ≡ some e
    → Memᴰ e.to_id (targets (keep_edge o (some e.edge_type) rest))
keep_edge-here o e rest is = rw (is, same_type e.edge_type) (Memᴰ.head refl)

keep_edge-later :
    (o : Option RiskEdge) (wanted : Option EdgeType) (rest : List RiskEdge) (x : ℕ)
    → Memᴰ x (targets rest)
    → Memᴰ x (targets (keep_edge o wanted rest))
keep_edge-later none wanted rest x m = m
keep_edge-later (some f) wanted rest x m = elim (Bool-cases (has_type wanted f.edge_type)) [
  | inl fits ↦ rw fits (Memᴰ.tail m)
  | inr other ↦ rw other m
]

resolve_ids-listed :
    (edges : Dict RiskEdge) (ids : List ℕ) (i : ℕ) (e : RiskEdge)
    → get i edges ≡ some e
    → Memᴰ i ids
    → Memᴰ e.to_id (targets (resolve_ids edges ids (some e.edge_type)))
unfolding resolve_ids
resolve_ids-listed edges [] i e is m = absurd (Memᴰ.not-nil m)
resolve_ids-listed edges (j ∷ ids) i e is m = elim (Memᴰ.cases_cons m) [
  | inl same ↦
      keep_edge-here (get j edges) e (resolve_ids edges ids (some e.edge_type))
        (ap (λ (k : ℕ). get k edges) (sym same) ∙ is)
  | inr later ↦
      keep_edge-later (get j edges) (some e.edge_type) (resolve_ids edges ids (some e.edge_type))
        e.to_id (resolve_ids-listed edges ids i e is later)
]

-- The search follows every stored edge.
IsStep-successors :
    (g : RiskGraph) (t : EdgeType) (u v : ℕ)
    → IsIndexed g
    → IsStep g t u v
    → Memᴰ v (successors g t u)
unfolding edges_from
IsStep-successors g t u v indexed s =
    let (_, (ids, held, m)) = indexed.listed s.id s.stored in
    let found = resolve_ids-listed g.edges ids s.id s.edge s.stored m in
    let at_source : get u g.outgoing ≡ some ids =
      ap (λ (k : ℕ). get k g.outgoing) (sym s.leaves) ∙ held in
    rw at_source (
      subst (λ (k : ℕ). Memᴰ k (targets (resolve_ids g.edges ids (some t)))) s.enters
        (subst (λ (k : EdgeType). Memᴰ s.edge.to_id (targets (resolve_ids g.edges ids (some k))))
          s.typed found))

Walk-closed :
    (g : RiskGraph) (t : EdgeType) (to from : ℕ) (start final : List ℕ) {v : ℕ}
    → IsIndexed g
    → IsClosed g t to start final
    → Memᴰ from final
    → Walk g t from v
    → Memᴰ v final
Walk-closed g t to from start final indexed closed m (one {v} s) =
    (closed.visited from m).followed v (IsStep-successors g t from v indexed s)
Walk-closed g t to from start final indexed closed m (more {v} {w} walk s) =
    let m' = Walk-closed g t to from start final indexed closed m walk in
    (closed.visited v m').followed w (IsStep-successors g t v w indexed s)

-- A walk, or none where the two are the same.
abbrev pub Reach : RiskGraph → EdgeType → ℕ → ℕ → Type 0
Reach g t u v = (u ≡ v) ⊎ Walk g t u v

pub extend :
    (g : RiskGraph) (t : EdgeType) {u v w : ℕ} → Reach g t u v → IsStep g t v w → Walk g t u w
extend g t {u} {v} {w} r s = elim r [
  | inl is ↦ one (subst (λ (k : ℕ). IsStep g t k w) (sym is) s)
  | inr walk ↦ more walk s
]

follow : (g : RiskGraph) (t : EdgeType) {u v w : ℕ} → Reach g t u v → Walk g t v w → Walk g t u w
follow g t r (one s) = extend g t r s
follow g t r (more walk s) = more (follow g t r walk) s

pub Reach-trans :
    (g : RiskGraph) (t : EdgeType) {u v w : ℕ} → Reach g t u v → Reach g t v w → Reach g t u w
Reach-trans g t {u} r q = elim q [
  | inl is ↦ subst (Reach g t u) is r
  | inr walk ↦ inr (follow g t r walk)
]

-- In a graph whose adjacency is complete, where the search denies it, the two nodes differ and no
-- walk leads from one to the other.
pub reaches_sound :
    (g : RiskGraph) (from to : ℕ) (t : EdgeType)
    → IsIndexed g
    → reaches g from to t ≡ false
    → ¬ Reach g t from to
reaches_sound g from to t indexed h = λ r.
    let (b, ends, answer) = reaches-ends g from to t in
    let denied = ends ∙ ap some (sym answer ∙ h) in
    let (final, closed) = search-IsClosed _ g to t (from ∷ []) (from ∷ []) (λ x m. inl m) denied in
    let here = closed.started from (Memᴰ.head refl) in
    elim r [
      | inl same ↦ (closed.visited from here).other same
      | inr walk ↦
          (closed.visited to
              (Walk-closed g t to from (from ∷ []) final indexed closed here walk)).other
            refl
    ]
