-- ===== src/Graph/Hops.antt =====
-- One hop of a traversal, in terms of the stored edges alone, and that the code follows exactly these.
use mathlib.Core.List.{Memᴰ}
use mathlib.Core.List.Memᴰ
use neo_lloyds.Prelude.{
  ℕ, ◌≡◌, refl, sym, ap, subst, ◌∙◌, ◌⊎◌, inl, inr, ◌↔◌, Bool, true, false, not, ◌&&◌, Option, none,
  some, Option-cases, Bool-cases, if◌then◌else◌, List, [], ◌∷◌, map, arith,
}
use neo_lloyds.Prelude.Dict.{Dict, get, some_injective}
use neo_lloyds.Identity.Tenants.{includes_iff}
use neo_lloyds.Ontology.{EdgeType, edge_index}
use neo_lloyds.Graph.{
  RiskNode, RiskEdge, RiskGraph, resolve, resolve_ids, keep_edge, edges_from, edges_to,
}
use neo_lloyds.Graph.Walks.{IsIndexed, IsMirrored, IsListed}
use neo_lloyds.Graph.Listed.{IsFaithful}
use neo_lloyds.Graph.Exact.{IsExact}
use neo_lloyds.Graph.Traverse.{TraverseOptions, allows_type, is_followed, edges_at, neighbour}

-- An edge of a wanted type, that is verified where only such are wanted.
pub record IsWanted (o : TraverseOptions) (e : RiskEdge) : Type 0 where
  pub typed :
      (o.edge_types ≡ none)
      ⊎ ((ts : List EdgeType) × (o.edge_types ≡ some ts) × Memᴰ e.edge_type ts)
  pub verified : (o.verified_only ≡ false) ⊎ (e.ai_inferred ≡ false)

-- A stored edge from one node to the other, or back where the traversal goes inward.
pub record IsHop (g : RiskGraph) (o : TraverseOptions) (u v : ℕ) : Type 0 where
  pub id : ℕ
  pub edge : RiskEdge
  pub stored : get id g.edges ≡ some edge
  pub wanted : IsWanted o edge
  pub joins :
      ((o.outward ≡ true) × (edge.from_id ≡ u) × (edge.to_id ≡ v))
      ⊎ ((o.outward ≡ false) × (edge.to_id ≡ u) × (edge.from_id ≡ v))

edge_index_injective : (a b : EdgeType) → edge_index a ≡ edge_index b → a ≡ b
edge_index_injective a b h = ground arith

of_indices :
    (t : EdgeType) (ts : List EdgeType) → Memᴰ (edge_index t) (map edge_index ts) → Memᴰ t ts
of_indices t [] m = absurd (Memᴰ.not-nil m)
of_indices t (x ∷ ts) m = elim (Memᴰ.cases_cons m) [
  | inl same ↦ Memᴰ.head (edge_index_injective t x same)
  | inr later ↦ Memᴰ.tail (of_indices t ts later)
]

to_indices :
    (t : EdgeType) (ts : List EdgeType) → Memᴰ t ts → Memᴰ (edge_index t) (map edge_index ts)
to_indices t [] m = absurd (Memᴰ.not-nil m)
to_indices t (x ∷ ts) m = elim (Memᴰ.cases_cons m) [
  | inl same ↦ Memᴰ.head (ap edge_index same)
  | inr later ↦ Memᴰ.tail (to_indices t ts later)
]

abbrev IsTyped : Option (List EdgeType) → EdgeType → Type 0
IsTyped types t = (types ≡ none) ⊎ ((ts : List EdgeType) × (types ≡ some ts) × Memᴰ t ts)

allows_type_iff :
    (types : Option (List EdgeType)) (t : EdgeType) → (allows_type types t ≡ true) ↔ IsTyped types t
allows_type_iff none t = (λ h. inl refl, λ h. refl)
allows_type_iff (some ts) t = (
  λ h. inr (ts, refl, of_indices t ts ((includes_iff (map edge_index ts) (edge_index t)).0 h)),
  λ h. elim h [
    | inl is ↦ cc
    | inr (us, is, m) ↦
        (includes_iff (map edge_index ts) (edge_index t)).1
          (to_indices t ts (subst (Memᴰ t) (sym (some_injective is)) m))
  ],
)

both_true : (a b : Bool) → (a && b ≡ true) ↔ ((a ≡ true) × (b ≡ true))
both_true a b = ground arith

not_both_true : (a b : Bool) → (not (a && b) ≡ true) ↔ ((a ≡ false) ⊎ (b ≡ false))
not_both_true false b = (λ h. inl refl, λ h. refl)
not_both_true true false = (λ h. inr refl, λ h. refl)
not_both_true true true = (λ h. cc, λ h. elim h [ inl e ↦ cc | inr e ↦ cc ])

pub is_followed_iff : (o : TraverseOptions) (e : RiskEdge) → (is_followed o e ≡ true) ↔ IsWanted o e
unfolding is_followed
is_followed_iff o e =
    let (apart, joined) =
      both_true (allows_type o.edge_types e.edge_type) (not (o.verified_only && e.ai_inferred)) in
    let (typed, allowed) = allows_type_iff o.edge_types e.edge_type in
    let (verified, trusted) = not_both_true o.verified_only e.ai_inferred in
    (
      λ h. let (a, b) = apart h in record { typed = typed a; verified = verified b },
      λ w. joined (allowed w.typed, trusted w.verified),
    )

-- What the identifiers of an adjacency resolve to.
resolved_from :
    (edges : Dict RiskEdge) (ids : List ℕ) (e : RiskEdge)
    → Memᴰ e (resolve_ids edges ids none)
    → (i : ℕ) × Memᴰ i ids × (get i edges ≡ some e)
unfolding resolve_ids
resolved_from edges [] e m = absurd (Memᴰ.not-nil m)
resolved_from edges (i ∷ ids) e m = elim (Option-cases (get i edges)) [
  | inl missing ↦
      let later : Memᴰ e (resolve_ids edges ids none) =
        subst (λ (o : Option RiskEdge). Memᴰ e (keep_edge o none (resolve_ids edges ids none)))
          missing m in
      let (j, mem, stored) = resolved_from edges ids e later in (j, Memᴰ.tail mem, stored)
  | inr (f, found) ↦
      let either : Memᴰ e (f ∷ resolve_ids edges ids none) =
        subst (λ (o : Option RiskEdge). Memᴰ e (keep_edge o none (resolve_ids edges ids none)))
          found m in
      elim (Memᴰ.cases_cons either) [
        | inl same ↦ (i, Memᴰ.head refl, found ∙ ap some (sym same))
        | inr later ↦
            let (j, mem, stored) = resolved_from edges ids e later in (j, Memᴰ.tail mem, stored)
      ]
]

resolved :
    (edges : Dict RiskEdge) (ids : List ℕ) (i : ℕ) (e : RiskEdge)
    → get i edges ≡ some e
    → Memᴰ i ids
    → Memᴰ e (resolve_ids edges ids none)
unfolding resolve_ids
resolved edges [] i e stored m = absurd (Memᴰ.not-nil m)
resolved edges (j ∷ ids) i e stored m = elim (Memᴰ.cases_cons m) [
  | inl same ↦
      let here : get j edges ≡ some e = ap (λ (k : ℕ). get k edges) (sym same) ∙ stored in
      rw here (Memᴰ.head refl)
  | inr later ↦
      let rest = resolved edges ids i e stored later in
      elim (Option-cases (get j edges)) [
        | inl missing ↦ rw missing rest
        | inr (f, found) ↦ rw found (Memᴰ.tail rest)
      ]
]

module _ (edges : Dict RiskEdge) (adjacency : Dict (List ℕ)) (end : RiskEdge → ℕ) where
  listed_at :
      (u : ℕ) (e : RiskEdge)
      → IsFaithful edges adjacency end
      → Memᴰ e (resolve edges (get u adjacency) none)
      → (i : ℕ) × (get i edges ≡ some e) × (end e ≡ u)
  listed_at u e faithful m = elim (Option-cases (get u adjacency)) [
    | inl missing ↦
        absurd
          (Memᴰ.not-nil (subst (λ (o : Option (List ℕ)). Memᴰ e (resolve edges o none)) missing m))
    | inr (ids, held) ↦
        let (i, mem, stored) =
          resolved_from edges ids e
            (subst (λ (o : Option (List ℕ)). Memᴰ e (resolve edges o none)) held m) in
        let (f, found, at) = faithful.resolves u i held mem in
        (i, stored, ap end (some_injective (sym stored ∙ found)) ∙ at)
  ]

  stored_at :
      (nodes : Dict RiskNode) (u i : ℕ) (e : RiskEdge)
      → IsListed nodes edges adjacency end
      → get i edges ≡ some e
      → end e ≡ u
      → Memᴰ e (resolve edges (get u adjacency) none)
  stored_at nodes u i e indexed stored at =
      let (_, (ids, held, m)) = indexed.listed i stored in
      let here : get u adjacency ≡ some ids = ap (λ (k : ℕ). get k adjacency) (sym at) ∙ held in
      rw here (resolved edges ids i e stored m)

-- In a graph whose adjacency lists only what is there, every edge that is followed is a hop.
pub edges_at-IsHop :
    (g : RiskGraph) (o : TraverseOptions) (u : ℕ) (e : RiskEdge)
    → IsExact g
    → Memᴰ e (edges_at g o u)
    → is_followed o e ≡ true
    → IsHop g o u (neighbour o e)
unfolding edges_at edges_from edges_to
edges_at-IsHop g o u e exact m followed =
    let wanted = (is_followed_iff o e).0 followed in
    elim (Bool-cases o.outward) [
      | inl outward ↦
          let (i, stored, at) =
            listed_at g.edges g.outgoing (λ x. x.from_id) u e exact.out
              (subst (λ (b : Bool). Memᴰ e (if b then edges_from g u none else edges_to g u none))
                outward m) in
          record {
            id = i;
            edge = e;
            stored = stored;
            wanted = wanted;
            joins = inl (outward, at, sym (rw outward refl));
          }
      | inr inward ↦
          let (i, stored, at) =
            listed_at g.edges g.incoming (λ x. x.to_id) u e exact.into
              (subst (λ (b : Bool). Memᴰ e (if b then edges_from g u none else edges_to g u none))
                inward m) in
          record {
            id = i;
            edge = e;
            stored = stored;
            wanted = wanted;
            joins = inr (inward, at, sym (rw inward refl));
          }
    ]

-- In a graph whose adjacency lists all that is there, every hop is followed.
pub IsHop-edges_at :
    (g : RiskGraph) (o : TraverseOptions) (u v : ℕ)
    → IsIndexed g
    → IsMirrored g
    → IsHop g o u v
    → (e : RiskEdge) × Memᴰ e (edges_at g o u) × (is_followed o e ≡ true) × (neighbour o e ≡ v)
unfolding edges_at edges_from edges_to
IsHop-edges_at g o u v indexed mirrored hop =
    let followed = (is_followed_iff o hop.edge).1 hop.wanted in
    elim hop.joins [
      | inl (outward, at, enters) ↦ (
        hop.edge,
        rw outward (
            stored_at g.edges g.outgoing (λ x. x.from_id) g.nodes u hop.id hop.edge indexed
              hop.stored at),
        followed,
        rw outward enters,
      )
      | inr (inward, at, enters) ↦ (
        hop.edge,
        rw inward (
            stored_at g.edges g.incoming (λ x. x.to_id) g.nodes u hop.id hop.edge mirrored
              hop.stored at),
        followed,
        rw inward enters,
      )
    ]
