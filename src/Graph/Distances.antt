-- ===== src/Graph/Distances.antt =====
-- What a traversal finds within its depth bound, level by level (`RiskGraph.traverse`).
use mathlib.Core.List.{Memᴰ}
use mathlib.Core.List.Memᴰ
use neo_lloyds.Prelude.{
  ℕ, zero, suc, ◌+◌, ◌≤◌, ◌≡◌, sym, ap, subst, ◌∙◌, ◌⊎◌, inl, inr, some, List, [], ◌∷◌, arith,
}
use neo_lloyds.Prelude.Dict.{Dict, get}
use neo_lloyds.Errors.{ok, >>=-eq-ok, ok_injective}
use neo_lloyds.Graph.{RiskNode, RiskEdge, RiskGraph, require_found, from_parts}
use neo_lloyds.Graph.Adjacency.{nothing_there}
use neo_lloyds.Graph.Walks.{IsIndexed, IsMirrored}
use neo_lloyds.Graph.Indexed.{from_parts-IsRiskGraph}
use neo_lloyds.Graph.Hops.{IsHop, IsHop-edges_at}
use neo_lloyds.Graph.Depths.{Trail, at_start, onward}
use neo_lloyds.Graph.Traverse.{
  TraverseOptions, Level, reach_node, follow_frontier, levels, start_level, traverse,
}
use neo_lloyds.Graph.Sweeps.{
  IsKnown, IsGrown, IsGrown-refl, IsGrown-trans, reach_node-IsGrown, IsSwept,
  follow_frontier-IsSwept,
}

le_cases : (n k : ℕ) → n ≤ suc k → (n ≤ k) ⊎ (n ≡ suc k)
le_cases n k le = ground arith

last-IsHop :
    (g : RiskGraph) (o : TraverseOptions) (starts : List ℕ) (n v : ℕ)
    → Trail g o starts (suc n) v
    → (u : ℕ) × Trail g o starts n u × IsHop g o u v
last-IsHop g o starts n v (onward {u = u} trail hop) = (u, trail, hop)

start_of :
    (g : RiskGraph) (o : TraverseOptions) (starts : List ℕ) (n id : ℕ)
    → Trail g o starts n id
    → n ≡ 0
    → Memᴰ id starts
start_of g o starts n id (at_start m) e = m
start_of g o starts n id (onward trail hop) e = absurd (omega arith)

first_level :
    (l : Level) (id d : ℕ)
    → (get id [] ≡ some d) ⊎ ((d ≡ 0) × Memᴰ id l.next)
    → (d ≡ 0) × Memᴰ id l.next
unfolding get
first_level l id d h = elim h [ inl none_there ↦ absurd (nothing_there none_there) | inr new ↦ new ]

module _ (g : RiskGraph) (o : TraverseOptions) (starts : List ℕ) (indexed : IsIndexed g)
    (mirrored : IsMirrored g) where
  -- All trails of at most `k` hops are accounted for, and the nodes that are next are the only ones
  -- of which a hop may lead to a node that is not known.
  record IsLevel (k : ℕ) (l : Level) : Type 0 where
    bounded : (id : ℕ) {d : ℕ} → get id l.depths ≡ some d → d ≤ k
    explored :
        (u : ℕ) {d : ℕ}
        → get u l.depths ≡ some d
        → Memᴰ u l.next ⊎ ((v : ℕ) → IsHop g o u v → IsKnown l v)
    near :
        (n id : ℕ) → Trail g o starts n id → n ≤ k → (d : ℕ) × (get id l.depths ≡ some d) × (d ≤ n)

  abbrev swept : ℕ → Level → Level
  swept k l = follow_frontier g o (suc k) l.next (record { depths = l.depths; next = [] })

  sweep :
      (k : ℕ) (l : Level)
      → IsSwept g o (suc k) l.next (record { depths = l.depths; next = [] }) (swept k l)
  sweep k l = follow_frontier-IsSwept g o (suc k) l.next (record { depths = l.depths; next = [] })

  -- A hop from a known node leads to one that the next level knows.
  hop-IsKnown :
      (k : ℕ) (l : Level) (u v : ℕ) {d : ℕ}
      → IsLevel k l
      → get u l.depths ≡ some d
      → IsHop g o u v
      → IsKnown (swept k l) v
  hop-IsKnown k l u v level found hop = elim (level.explored u found) [
    | inl m ↦
        let (e, at, followed, enters) = IsHop-edges_at g o u v indexed mirrored hop in
        subst (IsKnown (swept k l)) enters ((sweep k l).reached u m e at followed)
    | inr known ↦ let (d', at) = known v hop in (d', (sweep k l).grown.keeps v at)
  ]

  swept_bounded :
      (k : ℕ) (l : Level) (id : ℕ) {d : ℕ}
      → IsLevel k l
      → get id (swept k l).depths ≡ some d
      → d ≤ suc k
  swept_bounded k l id level h = elim ((sweep k l).grown.fresh id h) [
    | inl old ↦ let le = level.bounded id old in omega arith
    | inr (is, _) ↦ omega arith
  ]

  swept_near :
      (k : ℕ) (l : Level) (n id : ℕ)
      → IsLevel k l
      → Trail g o starts n id
      → n ≤ suc k
      → (d : ℕ) × (get id (swept k l).depths ≡ some d) × (d ≤ n)
  swept_near k l n id level trail le = elim (le_cases n k le) [
    | inl within ↦
        let (d, found, short) = level.near n id trail within in
        (d, (sweep k l).grown.keeps id found, short)
    | inr last ↦
        let (u, before, hop) =
          last-IsHop g o starts k id (subst (λ (m : ℕ). Trail g o starts m id) last trail) in
        let (_, found, _) = level.near k u before (omega arith) in
        let (d, at) = hop-IsKnown k l u id level found hop in
        (d, at, subst (λ (m : ℕ). d ≤ m) (sym last) (swept_bounded k l id level at))
  ]

  swept-IsLevel : (k : ℕ) (l : Level) → IsLevel k l → IsLevel (suc k) (swept k l)
  swept-IsLevel k l level = record {
    bounded = λ id h. swept_bounded k l id level h;
    explored = λ u h. elim ((sweep k l).grown.fresh u h) [
      | inl old ↦ inr (λ v hop. hop-IsKnown k l u v level old hop)
      | inr (_, m) ↦ inl m
    ];
    near = λ n id trail le. swept_near k l n id level trail le;
  }

  levels_complete :
      (left k : ℕ) (l : Level) (n id : ℕ)
      → IsLevel k l
      → Trail g o starts n id
      → n ≤ k + left
      → (d : ℕ) × (get id (levels g o left (suc k) l) ≡ some d) × (d ≤ n)
  unfolding levels
  levels_complete zero k l n id level trail le = level.near n id trail (omega arith)
  levels_complete (suc left) k l n id level trail le =
      levels_complete left (suc k) (swept k l) n id (swept-IsLevel k l level) trail (omega arith)

  start_level-IsGrown :
      (ids : List ℕ) (l : Level) {l' : Level}
      → start_level g ids l ≡ ok l'
      → IsGrown 0 l l' × ((id : ℕ) → Memᴰ id ids → IsKnown l' id)
  unfolding start_level
  start_level-IsGrown [] l {l'} h =
      (subst (IsGrown 0 l) (ok_injective h) (IsGrown-refl 0 l), λ id m. absurd (Memᴰ.not-nil m))
  start_level-IsGrown (x ∷ ids) l {l'} h =
      let (_, _, h₁) = >>=-eq-ok (require_found (get x g.nodes)) _ h in
      let (grown, (d, known)) = reach_node-IsGrown 0 x l in
      let (rest, others) = start_level-IsGrown ids (reach_node 0 x l) h₁ in
      (
        IsGrown-trans 0 l (reach_node 0 x l) l' grown rest,
        λ id m. elim (Memᴰ.cases_cons m) [
          | inl same ↦ subst (IsKnown l') (sym same) (d, rest.keeps x known)
          | inr later ↦ others id later
        ],
      )

  started-IsLevel :
      {l : Level} → start_level g starts (record { depths = []; next = [] }) ≡ ok l → IsLevel 0 l
  started-IsLevel {l} h =
      let (grown, known) = start_level-IsGrown starts (record { depths = []; next = [] }) h in
      let first = λ (id : ℕ) (d : ℕ) (found : get id l.depths ≡ some d).
        first_level l id d (grown.fresh id found) in
      record {
        bounded = λ id {d} found. let (is, _) = first id d found in omega arith;
        explored = λ u {d} found. inl (first u d found).1;
        near = λ n id trail le.
            let (d, found) = known id (start_of g o starts n id trail (omega arith)) in
            let (is, _) = first id d found in (d, found, omega arith);
      }

-- In a graph that `RiskGraph.from` returns, a traversal that returns has found every node to which a
-- trail of at most the depth bound leads from a start node, along stored edges in the direction
-- asked for, of a type asked for, and not inferred by an AI where only verified edges are asked for;
-- and the depth that it reports of the node is at most the length of the trail.
pub traverse_complete :
    (nodes : List RiskNode) (edges : List RiskEdge) (g : RiskGraph) (starts : List ℕ)
    (o : TraverseOptions) {depths : Dict ℕ} (n id : ℕ)
    → from_parts nodes edges ≡ ok g
    → traverse g starts o ≡ ok depths
    → Trail g o starts n id
    → n ≤ o.max_depth
    → (d : ℕ) × (get id depths ≡ some d) × (d ≤ n)
unfolding traverse
traverse_complete nodes edges g starts o n id built h trail le =
    let valid = from_parts-IsRiskGraph nodes edges built in
    let (l, started, h₁) =
      >>=-eq-ok (start_level g starts (record { depths = []; next = [] })) _ h in
    let level = started-IsLevel g o starts valid.indexed valid.mirrored started in
    let (d, found, short) =
      levels_complete g o starts valid.indexed valid.mirrored o.max_depth 0 l n id level trail
        (omega arith) in
    (d, ap (get id) (sym (ok_injective h₁)) ∙ found, short)
