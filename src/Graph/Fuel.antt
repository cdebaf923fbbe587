-- ===== src/Graph/Fuel.antt =====
-- The search ends: one round for each stored edge and one more are enough.
use mathlib.Core.List.{Memᴰ}
use mathlib.Core.List.Memᴰ
use neo_lloyds.Prelude.{
  ℕ, zero, suc, ◌+◌, ◌≤◌, ◌≡◌, refl, sym, ap, subst, inl, inr, Bool, true, false, Option, none,
  some, List, [], ◌∷◌, arith, ◌==◌, if◌then◌else◌, Bool-cases, length, length-append, length-map,
}
use neo_lloyds.Prelude.Dict.{Dict, get, values, get-values}
use neo_lloyds.Identity.{includes}
use neo_lloyds.Ontology.{EdgeType}
use neo_lloyds.Graph.{
  RiskEdge, RiskGraph, Frontier, resolve, resolve_ids, reaches, keep_edge, has_type, edges_from,
  offer, visit_edges, search,
}
use neo_lloyds.Graph.Search.{targets, successors}

-- How many of the nodes in a list have not been seen.
pub unseen : List ℕ → List ℕ → ℕ
unseen seen [] = 0
unseen seen (x ∷ xs) = if includes seen x then unseen seen xs else suc (unseen seen xs)

unseen-le-length : (seen xs : List ℕ) → unseen seen xs ≤ length xs
unfolding unseen
unseen-le-length seen [] = omega arith
unseen-le-length seen (x ∷ xs) = ground (arith, unseen-le-length seen xs)

unseen_drop : (id : ℕ) (seen xs : List ℕ) → unseen (id ∷ seen) xs ≤ unseen seen xs
unfolding unseen includes
unseen_drop id seen [] = omega arith
unseen_drop id seen (x ∷ xs) = ground (arith, unseen_drop id seen xs)

unseen_less :
    (id : ℕ) (seen xs : List ℕ)
    → includes seen id ≡ false
    → Memᴰ id xs
    → suc (unseen (id ∷ seen) xs) ≤ unseen seen xs
unfolding unseen includes
unseen_less id seen [] fresh m = absurd (Memᴰ.not-nil m)
unseen_less id seen (x ∷ xs) fresh m =
    let drop = unseen_drop id seen xs in
    elim (Memᴰ.cases_cons m) [
      | inl is ↦ ground (arith, is, drop, fresh)
      | inr later ↦ let less = unseen_less id seen xs fresh later in ground (arith, less)
    ]

-- The rounds that a frontier can still take.
abbrev pub work : List ℕ → Frontier → ℕ
work all a = length a.1 + unseen a.0 all

offer-work :
    (all : List ℕ) (id : ℕ) (seen queue : List ℕ)
    → Memᴰ id all
    → work all (offer id (seen, queue)) ≤ work all (seen, queue)
unfolding offer
offer-work all id seen queue m = elim (Bool-cases (includes seen id)) [
  | inl known ↦ rw known (omega arith)
  | inr fresh ↦
      rw fresh (omega (arith, unseen_less id seen all fresh m, length-append queue (id ∷ [])))
]

visit_edges-work :
    (all : List ℕ) (es : List RiskEdge) (a : Frontier)
    → ((x : ℕ) → Memᴰ x (targets es) → Memᴰ x all)
    → work all (visit_edges es a) ≤ work all a
unfolding visit_edges
visit_edges-work all [] a h = omega arith
visit_edges-work all (e ∷ es) a h =
    let once = offer-work all e.to_id a.0 a.1 (h e.to_id (Memᴰ.head refl)) in
    let later = visit_edges-work all es (offer e.to_id a) (λ x m. h x (Memᴰ.tail m)) in
    omega (arith, once, later)

pub search-ends :
    (all : List ℕ) (g : RiskGraph) (t : EdgeType) (to : ℕ)
    → ((u x : ℕ) → Memᴰ x (successors g t u) → Memᴰ x all)
    → (fuel : ℕ) (seen queue : List ℕ) → work all (seen, queue) ≤ fuel
    → (b : Bool) × (search fuel g to t seen queue ≡ some b)
unfolding search
search-ends all g t to h fuel seen [] le = (false, refl)
search-ends all g t to h zero seen (current ∷ queue) le = absurd (omega arith)
search-ends all g t to h (suc fuel) seen (current ∷ queue) le =
    let next = visit_edges (edges_from g current (some t)) (seen, queue) in
    let less = visit_edges-work all (edges_from g current (some t)) (seen, queue) (h current) in
    let (b, rest) = search-ends all g t to h fuel next.0 next.1 (omega (arith, less)) in
    elim (Bool-cases (current == to)) [
      | inl hit ↦ (true, rw hit refl)
      | inr miss ↦ (b, rw miss rest)
    ]

map_mem : (e : RiskEdge) (es : List RiskEdge) → Memᴰ e es → Memᴰ e.to_id (targets es)
map_mem e [] m = absurd (Memᴰ.not-nil m)
map_mem e (f ∷ es) m = elim (Memᴰ.cases_cons m) [
  | inl is ↦ Memᴰ.head (ap (λ (x : RiskEdge). x.to_id) is)
  | inr later ↦ Memᴰ.tail (map_mem e es later)
]

keep_edge-targets :
    (edges : Dict RiskEdge) (i : ℕ) (wanted : Option EdgeType) (rest : List RiskEdge) (x : ℕ)
    → (Memᴰ x (targets rest) → Memᴰ x (targets (values edges)))
    → (o : Option RiskEdge) → get i edges ≡ o
    → Memᴰ x (targets (keep_edge o wanted rest))
    → Memᴰ x (targets (values edges))
keep_edge-targets edges i wanted rest x later none e m = later m
keep_edge-targets edges i wanted rest x later (some f) e m =
    elim (Bool-cases (has_type wanted f.edge_type)) [
      | inl fits ↦ (elim (Memᴰ.cases_cons (rw fits at m)) [
        | inl is ↦
            subst (λ (y : ℕ). Memᴰ y (targets (values edges))) (sym is)
              (map_mem f (values edges) (get-values i f edges e))
        | inr m' ↦ later m'
      ])
      | inr other ↦ later (rw other at m)
    ]

resolve_ids-targets :
    (edges : Dict RiskEdge) (ids : List ℕ) (wanted : Option EdgeType) (x : ℕ)
    → Memᴰ x (targets (resolve_ids edges ids wanted))
    → Memᴰ x (targets (values edges))
unfolding resolve_ids
resolve_ids-targets edges [] wanted x m = absurd (Memᴰ.not-nil m)
resolve_ids-targets edges (i ∷ ids) wanted x m =
    keep_edge-targets edges i wanted (resolve_ids edges ids wanted) x
      (resolve_ids-targets edges ids wanted x) (get i edges) refl m

edges_from-targets :
    (g : RiskGraph) (t : EdgeType) (u x : ℕ)
    → Memᴰ x (successors g t u)
    → Memᴰ x (targets (values g.edges))
unfolding edges_from
edges_from-targets g t u x m = resolved (get u g.outgoing) m
  where
    resolved :
        (o : Option (List ℕ))
        → Memᴰ x (targets (resolve g.edges o (some t)))
        → Memᴰ x (targets (values g.edges))
    resolved none n = absurd (Memᴰ.not-nil n)
    resolved (some ids) n = resolve_ids-targets g.edges ids (some t) x n

-- The search for a cycle never runs out of rounds: in every graph it ends with an answer, and
-- `reaches` returns that answer.
pub reaches-ends :
    (g : RiskGraph) (from to : ℕ) (t : EdgeType)
    → (b : Bool) × (search (suc (length (values g.edges))) g to t (from ∷ []) (from ∷ []) ≡ some b)
      × (reaches g from to t ≡ b)
unfolding reaches
reaches-ends g from to t =
    let all = targets (values g.edges) in
    let bound = unseen-le-length (from ∷ []) all in
    let count = length-map (λ (e : RiskEdge). e.to_id) (values g.edges) in
    let (b, ends) =
      search-ends all g t to (edges_from-targets g t) (suc (length (values g.edges))) (from ∷ [])
        (from ∷ []) (omega (arith, bound, count)) in
    (b, ends, rw ends refl)
