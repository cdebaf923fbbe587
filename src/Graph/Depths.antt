-- ===== src/Graph/Depths.antt =====
-- The depths that a traversal reports, as lengths of trails (`RiskGraph.traverse`).
use mathlib.Core.List.{Memᴰ}
use mathlib.Core.List.Memᴰ
use neo_lloyds.Prelude.{
  ℕ, zero, suc, ◌+◌, ◌≤◌, ◌≡◌, refl, sym, ap, subst, ◌∙◌, inl, inr, none, some, List, [], ◌∷◌, ◌++◌,
  arith, Bool-cases, Option-cases,
}
use neo_lloyds.Prelude.Dict.{Dict, get, set, get-set_cases}
use neo_lloyds.Errors.{ok, >>=-eq-ok, ok_injective}
use neo_lloyds.Graph.{RiskNode, RiskEdge, RiskGraph, require_found, from_parts}
use neo_lloyds.Graph.Search.{mem_append_cases}
use neo_lloyds.Graph.Hops.{IsHop, edges_at-IsHop}
use neo_lloyds.Graph.Exact.{IsExact, HasOwnIds, from_parts-IsExact}
use neo_lloyds.Graph.Adjacency.{nothing_there}
use neo_lloyds.Graph.Traverse.{
  TraverseOptions, is_followed, edges_at, neighbour, Level, reach_node, follow_edges,
  follow_frontier, levels, start_level, traverse,
}

-- A trail of some length from a start node along hops.
pub data Trail (g : RiskGraph) (o : TraverseOptions) (starts : List ℕ) : ℕ → ℕ → Type 0 where
  at_start : {id : ℕ} → Memᴰ id starts → Trail g o starts 0 id
  onward : {n u v : ℕ} → Trail g o starts n u → IsHop g o u v → Trail g o starts (suc n) v

pub reach_node-new :
    (depth id : ℕ) (l : Level)
    → get id l.depths ≡ none
    → reach_node depth id l ≡ record { depths = set id depth l.depths; next = l.next ++ id ∷ [] }
unfolding reach_node
reach_node-new depth id l h = ground (arith, h)

pub reach_node-known :
    (depth id : ℕ) (l : Level) {d : ℕ} → get id l.depths ≡ some d → reach_node depth id l ≡ l
unfolding reach_node
reach_node-known depth id l h = ground (arith, h)

module _ (g : RiskGraph) (o : TraverseOptions) (starts : List ℕ) (exact : IsExact g) where
  -- Every known depth is the length of a trail, and at most `top`; the next level is at depth `depth`.
  record IsSound (top depth : ℕ) (l : Level) : Type 0 where
    known : (id : ℕ) {d : ℕ} → get id l.depths ≡ some d → Trail g o starts d id × (d ≤ top)
    next : (id : ℕ) → Memᴰ id l.next → Trail g o starts depth id

  reach_node-IsSound :
      (top depth id : ℕ) (l : Level)
      → depth ≤ top
      → Trail g o starts depth id
      → IsSound top depth l
      → IsSound top depth (reach_node depth id l)
  reach_node-IsSound top depth id l le trail sound = elim (Option-cases (get id l.depths)) [
    | inr (d, found) ↦ rw (reach_node-known depth id l found) sound
    | inl fresh ↦ rw (reach_node-new depth id l fresh) (record {
      known = λ i {d} h. elim (get-set_cases id i depth l.depths h) [
        | inl new ↦ (
          subst (λ (k : ℕ). Trail g o starts k i) new.1
              (subst (Trail g o starts depth) new.0 trail),
          subst (λ (k : ℕ). k ≤ top) new.1 le,
        )
        | inr old ↦ sound.known i old.1
      ];
      next = λ i m. elim (mem_append_cases l.next (id ∷ []) m) [
        | inl old ↦ sound.next i old
        | inr last ↦ (elim (Memᴰ.cases_cons last) [
          | inl is ↦ subst (Trail g o starts depth) (sym is) trail
          | inr none_left ↦ absurd (Memᴰ.not-nil none_left)
        ])
      ];
    })
  ]

  follow_edges-IsSound :
      (top depth id : ℕ) (es : List RiskEdge) (l : Level)
      → suc depth ≤ top
      → Trail g o starts depth id
      → ((e : RiskEdge) → Memᴰ e es → Memᴰ e (edges_at g o id))
      → IsSound top (suc depth) l
      → IsSound top (suc depth) (follow_edges o (suc depth) es l)
  unfolding follow_edges
  follow_edges-IsSound top depth id [] l le trail edges sound = sound
  follow_edges-IsSound top depth id (e ∷ es) l le trail edges sound =
      let later = λ (l' : Level) (s : IsSound top (suc depth) l').
        follow_edges-IsSound top depth id es l' le trail (λ f m. edges f (Memᴰ.tail m)) s in
      elim (Bool-cases (is_followed o e)) [
        | inl followed ↦ rw followed (
            later (reach_node (suc depth) (neighbour o e) l) (
              reach_node-IsSound top (suc depth) (neighbour o e) l le
                (onward trail (edges_at-IsHop g o id e exact (edges e (Memᴰ.head refl)) followed))
                sound))
        | inr passed ↦ rw passed (later l sound)
      ]

  follow_frontier-IsSound :
      (top depth : ℕ) (ns : List ℕ) (l : Level)
      → suc depth ≤ top
      → ((n : ℕ) → Memᴰ n ns → Trail g o starts depth n)
      → IsSound top (suc depth) l
      → IsSound top (suc depth) (follow_frontier g o (suc depth) ns l)
  unfolding follow_frontier
  follow_frontier-IsSound top depth [] l le trails sound = sound
  follow_frontier-IsSound top depth (n ∷ ns) l le trails sound =
      follow_frontier-IsSound top depth ns (follow_edges o (suc depth) (edges_at g o n) l) le
        (λ m mem. trails m (Memᴰ.tail mem))
        (follow_edges-IsSound top depth n (edges_at g o n) l le (trails n (Memᴰ.head refl))
          (λ e m. m) sound)

  levels_sound :
      (top left depth : ℕ) (l : Level)
      → depth + left ≤ top
      → IsSound top depth l
      → (id : ℕ) {d : ℕ} → get id (levels g o left (suc depth) l) ≡ some d
      → Trail g o starts d id × (d ≤ top)
  unfolding levels
  levels_sound top zero depth l le sound id h = sound.known id h
  levels_sound top (suc left) depth l le sound id h =
      levels_sound top left (suc depth)
        (follow_frontier g o (suc depth) l.next (record { depths = l.depths; next = [] }))
        (omega arith)
        (follow_frontier-IsSound top depth l.next (record { depths = l.depths; next = [] })
          (omega arith) sound.next
          (record { known = sound.known; next = λ i m. absurd (Memᴰ.not-nil m) }))
        id h

  start_level-IsSound :
      (top : ℕ) (ids : List ℕ) (l : Level) {l' : Level}
      → ((id : ℕ) → Memᴰ id ids → Memᴰ id starts)
      → IsSound top 0 l
      → start_level g ids l ≡ ok l'
      → IsSound top 0 l'
  unfolding start_level
  start_level-IsSound top [] l sub sound h = subst (IsSound top 0) (ok_injective h) sound
  start_level-IsSound top (id ∷ ids) l sub sound h =
      let (_, _, h₁) = >>=-eq-ok (require_found (get id g.nodes)) _ h in
      start_level-IsSound top ids (reach_node 0 id l) (λ i m. sub i (Memᴰ.tail m))
        (reach_node-IsSound top 0 id l (omega arith) (at_start (sub id (Memᴰ.head refl))) sound) h₁

nothing_known :
    (g : RiskGraph) (o : TraverseOptions) (starts : List ℕ) (exact : IsExact g) (top : ℕ)
    → IsSound g o starts exact top 0 (record { depths = []; next = [] })
unfolding get
nothing_known g o starts exact top = record {
  known = λ id h. absurd (nothing_there h);
  next = λ id m. absurd (Memᴰ.not-nil m);
}

-- In a graph that was built from edges with an identifier of its own each, every depth that a traversal
-- reports of a node is at most the depth bound and the length of a trail to it from a start node,
-- along stored edges in the direction asked for, of a type asked for, and not inferred by an AI
-- where only verified edges are asked for.
pub traverse_sound :
    (nodes : List RiskNode) (edges : List RiskEdge) (g : RiskGraph) (starts : List ℕ)
    (o : TraverseOptions) {depths : Dict ℕ} (id : ℕ) {d : ℕ}
    → HasOwnIds edges
    → from_parts nodes edges ≡ ok g
    → traverse g starts o ≡ ok depths
    → get id depths ≡ some d
    → Trail g o starts d id × (d ≤ o.max_depth)
unfolding traverse
traverse_sound nodes edges g starts o id {d} own built h found =
    let exact = from_parts-IsExact nodes edges own built in
    let (l, started, h₁) =
      >>=-eq-ok (start_level g starts (record { depths = []; next = [] })) _ h in
    let sound =
      start_level-IsSound g o starts exact o.max_depth starts (record { depths = []; next = [] })
        (λ i m. m) (nothing_known g o starts exact o.max_depth) started in
    levels_sound g o starts exact o.max_depth o.max_depth 0 l (omega arith) sound id
      (ap (get id) (ok_injective h₁) ∙ found)
