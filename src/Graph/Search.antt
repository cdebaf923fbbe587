-- ===== src/Graph/Search.antt =====
-- A search that ends without an answer has seen everything that can be reached.
use mathlib.Core.List.{Memᴰ}
use mathlib.Core.List.Memᴰ
use mathlib.Core.Bool.{true≢false}
use neo_lloyds.Prelude.{
  ℕ, zero, suc, ◌≡◌, ◌≢◌, refl, sym, subst, ◌∙◌, ◌⊎◌, inl, inr, false, some, List, [], ◌∷◌, ◌++◌,
  map, arith, ◌==◌, Bool-cases, ==_iff,
}
use neo_lloyds.Identity.{includes}
use neo_lloyds.Identity.Tenants.{includes_iff}
use neo_lloyds.Ontology.{EdgeType}
use neo_lloyds.Graph.{RiskEdge, RiskGraph, Frontier, edges_from, offer, visit_edges, search}

abbrev pub targets : List RiskEdge → List ℕ
targets es = map (λ (e : RiskEdge). e.to_id) es

abbrev pub successors : RiskGraph → EdgeType → ℕ → List ℕ
successors g t u = targets (edges_from g u (some t))

pub mem_append_left : {x : ℕ} (xs ys : List ℕ) → Memᴰ x xs → Memᴰ x (xs ++ ys)
mem_append_left [] ys m = absurd (Memᴰ.not-nil m)
mem_append_left (y ∷ xs) ys m = elim (Memᴰ.cases_cons m) [
  | inl e ↦ Memᴰ.head e
  | inr later ↦ Memᴰ.tail (mem_append_left xs ys later)
]

pub mem_append_cases : {x : ℕ} (xs ys : List ℕ) → Memᴰ x (xs ++ ys) → Memᴰ x xs ⊎ Memᴰ x ys
mem_append_cases [] ys m = inr m
mem_append_cases (y ∷ xs) ys m = elim (Memᴰ.cases_cons m) [
  | inl is ↦ inl (Memᴰ.head is)
  | inr later ↦ (elim (mem_append_cases xs ys later) [ inl a ↦ inl (Memᴰ.tail a) | inr b ↦ inr b ])
]

pub mem_append_right : {x : ℕ} (xs ys : List ℕ) → Memᴰ x ys → Memᴰ x (xs ++ ys)
mem_append_right [] ys m = m
mem_append_right (y ∷ xs) ys m = Memᴰ.tail (mem_append_right xs ys m)

-- From one frontier to a later one: what was seen or queued stays, and what is new is queued.
pub record IsLater (a b : Frontier) : Type 0 where
  pub seen : (x : ℕ) → Memᴰ x a.0 → Memᴰ x b.0
  pub queued : (x : ℕ) → Memᴰ x a.1 → Memᴰ x b.1
  pub new : (x : ℕ) → Memᴰ x b.0 → Memᴰ x a.0 ⊎ Memᴰ x b.1

IsLater-trans : (a b c : Frontier) → IsLater a b → IsLater b c → IsLater a c
IsLater-trans a b c h k = record {
  seen = λ x m. k.seen x (h.seen x m);
  queued = λ x m. k.queued x (h.queued x m);
  new = λ x m. elim (k.new x m) [
    | inl m' ↦ (elim (h.new x m') [ inl old ↦ inl old | inr q ↦ inr (k.queued x q) ])
    | inr q ↦ inr q
  ];
}

offer-IsLater :
    (id : ℕ) (seen queue : List ℕ)
    → IsLater (seen, queue) (offer id (seen, queue)) × Memᴰ id (offer id (seen, queue)).0
unfolding offer
offer-IsLater id seen queue = elim (Bool-cases (includes seen id)) [
  | inl known ↦ rw known (
    record { seen = λ x m. m; queued = λ x m. m; new = λ x m. inl m },
    (includes_iff seen id).0 known,
  )
  | inr fresh ↦ rw fresh (
    record {
      seen = λ x m. Memᴰ.tail m;
      queued = λ x m. mem_append_left queue (id ∷ []) m;
      new = λ x m. elim (Memᴰ.cases_cons m) [
        | inl e ↦ inr (mem_append_right queue (id ∷ []) (Memᴰ.head e))
        | inr old ↦ inl old
      ];
    },
    Memᴰ.head refl,
  )
]

visit_edges-IsLater :
    (es : List RiskEdge) (a : Frontier)
    → IsLater a (visit_edges es a) × ((x : ℕ) → Memᴰ x (targets es) → Memᴰ x (visit_edges es a).0)
unfolding visit_edges
visit_edges-IsLater [] a = (
  record { seen = λ x m. m; queued = λ x m. m; new = λ x m. inl m },
  λ x m. absurd (Memᴰ.not-nil m),
)
visit_edges-IsLater (e ∷ es) a =
    let (once, here) = offer-IsLater e.to_id a.0 a.1 in
    let (later, all) = visit_edges-IsLater es (offer e.to_id a) in
    (
      IsLater-trans a (offer e.to_id a) (visit_edges es (offer e.to_id a)) once later,
      λ x m. elim (Memᴰ.cases_cons m) [
        | inl is ↦ later.seen x (subst (λ (y : ℕ). Memᴰ y (offer e.to_id a).0) (sym is) here)
        | inr rest ↦ all x rest
      ],
    )

-- A node that has been visited is not the goal, and its successors have been seen.
pub record IsVisited (g : RiskGraph) (t : EdgeType) (to : ℕ) (seen : List ℕ) (x : ℕ) : Type 0 where
  pub other : x ≢ to
  pub followed : (y : ℕ) → Memᴰ y (successors g t x) → Memᴰ y seen

abbrev IsExplored : RiskGraph → EdgeType → ℕ → Frontier → Type 0
IsExplored g t to a = (x : ℕ) → Memᴰ x a.0 → Memᴰ x a.1 ⊎ IsVisited g t to a.0 x

IsExplored-round :
    (g : RiskGraph) (t : EdgeType) (to current : ℕ) (seen queue : List ℕ)
    → current ≢ to
    → IsExplored g t to (seen, current ∷ queue)
    → IsExplored g t to (visit_edges (edges_from g current (some t)) (seen, queue))
IsExplored-round g t to current seen queue other before x m =
    let (later, all) = visit_edges-IsLater (edges_from g current (some t)) (seen, queue) in
    elim (later.new x m) [
      | inr queued ↦ inl queued
      | inl old ↦ (elim (before x old) [
        | inr done ↦
            inr (record { other = done.other; followed = λ y n. later.seen y (done.followed y n) })
        | inl waiting ↦ (elim (Memᴰ.cases_cons waiting) [
          | inl is ↦ inr (record {
            other = λ e. other (sym is ∙ e);
            followed = λ y n. all y (subst (λ (z : ℕ). Memᴰ y (successors g t z)) is n);
          })
          | inr behind ↦ inl (later.queued x behind)
        ])
      ])
    ]

-- The end of a search that has not found its goal.
pub record IsClosed (g : RiskGraph) (t : EdgeType) (to : ℕ) (start seen : List ℕ) : Type 0 where
  pub started : (x : ℕ) → Memᴰ x start → Memᴰ x seen
  pub visited : (x : ℕ) → Memᴰ x seen → IsVisited g t to seen x

pub search-IsClosed :
    (fuel : ℕ) (g : RiskGraph) (to : ℕ) (t : EdgeType) (seen queue : List ℕ)
    → IsExplored g t to (seen, queue)
    → search fuel g to t seen queue ≡ some false
    → (final : List ℕ) × IsClosed g t to seen final
unfolding search
search-IsClosed fuel g to t seen [] before h = (
  seen,
  record {
    started = λ x m. m;
    visited = λ x m. elim (before x m) [
      | inl none_left ↦ absurd (Memᴰ.not-nil none_left)
      | inr done ↦ done
    ];
  },
)
search-IsClosed zero g to t seen (current ∷ queue) before h = cc
search-IsClosed (suc fuel) g to t seen (current ∷ queue) before h =
    let next = visit_edges (edges_from g current (some t)) (seen, queue) in
    elim (Bool-cases (current == to)) [
      | inl hit ↦ absurd (true≢false (ground (arith, hit)))
      | inr miss ↦
          let other : current ≢ to =
            λ e. absurd (true≢false (sym ((==_iff current to).1 e) ∙ miss)) in
          let (final, closed) =
            search-IsClosed fuel g to t next.0 next.1
              (IsExplored-round g t to current seen queue other before) (ground (arith, miss)) in
          let (later, _) = visit_edges-IsLater (edges_from g current (some t)) (seen, queue) in
          (
            final,
            record { started = λ x m. closed.started x (later.seen x m); visited = closed.visited },
          )
    ]
