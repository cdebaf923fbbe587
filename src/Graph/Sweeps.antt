-- ===== src/Graph/Sweeps.antt =====
-- How a level of a traversal grows: what one pass over edges and over a frontier does.
use mathlib.Core.List.{Memᴰ}
use mathlib.Core.List.Memᴰ
use mathlib.Core.Bool.{true≢false}
use neo_lloyds.Prelude.{
  ℕ, ◌≡◌, refl, sym, ap, subst, ◌∙◌, ◌⊎◌, inl, inr, true, some, List, [], ◌∷◌, ◌++◌, Bool-cases,
  Option-cases,
}
use neo_lloyds.Prelude.Dict.{get, get-set_cases, get-set-same, get-set-other}
use neo_lloyds.Graph.{RiskEdge, RiskGraph}
use neo_lloyds.Graph.Adjacency.{nothing_there}
use neo_lloyds.Graph.Search.{mem_append_left, mem_append_right}
use neo_lloyds.Graph.Depths.{reach_node-new, reach_node-known}
use neo_lloyds.Graph.Traverse.{
  TraverseOptions, is_followed, edges_at, neighbour, Level, reach_node, follow_edges,
  follow_frontier,
}

abbrev pub IsKnown : Level → ℕ → Type 0
IsKnown l id = (d : ℕ) × (get id l.depths ≡ some d)

-- Known depths stay, new ones are `k`, and new nodes are next.
pub record IsGrown (k : ℕ) (l l' : Level) : Type 0 where
  pub keeps : (id : ℕ) {d : ℕ} → get id l.depths ≡ some d → get id l'.depths ≡ some d
  pub fresh :
      (id : ℕ) {d : ℕ}
      → get id l'.depths ≡ some d
      → (get id l.depths ≡ some d) ⊎ ((d ≡ k) × Memᴰ id l'.next)
  pub queued : (id : ℕ) → Memᴰ id l.next → Memᴰ id l'.next

pub IsGrown-refl : (k : ℕ) (l : Level) → IsGrown k l l
IsGrown-refl k l = record { keeps = λ id h. h; fresh = λ id h. inl h; queued = λ id m. m }

pub IsGrown-trans : (k : ℕ) (l l' l'' : Level) → IsGrown k l l' → IsGrown k l' l'' → IsGrown k l l''
IsGrown-trans k l l' l'' a b = record {
  keeps = λ id h. b.keeps id (a.keeps id h);
  fresh = λ id h. elim (b.fresh id h) [
    | inr new ↦ inr new
    | inl old ↦ elim (a.fresh id old) [
      | inl older ↦ inl older
      | inr (is, m) ↦ inr (is, b.queued id m)
    ]
  ];
  queued = λ id m. b.queued id (a.queued id m);
}

pub reach_node-IsGrown :
    (k x : ℕ) (l : Level) → IsGrown k l (reach_node k x l) × IsKnown (reach_node k x l) x
reach_node-IsGrown k x l = elim (Option-cases (get x l.depths)) [
  | inr (d, found) ↦ rw (reach_node-known k x l found) (IsGrown-refl k l, (d, found))
  | inl missing ↦ rw (reach_node-new k x l missing) (
    record {
      keeps = λ id h.
          get-set-other x id k l.depths
            (λ e. nothing_there (sym missing ∙ ap (λ (i : ℕ). get i l.depths) e ∙ h))
          ∙ h;
      fresh = λ id {d} h. elim (get-set_cases x id k l.depths h) [
        | inl new ↦ inr (
          sym new.1,
          subst (λ (i : ℕ). Memᴰ i (l.next ++ x ∷ [])) new.0
              (mem_append_right l.next (x ∷ []) (Memᴰ.head refl)),
        )
        | inr old ↦ inl old.1
      ];
      queued = λ id m. mem_append_left l.next (x ∷ []) m;
    },
    (k, get-set-same x k l.depths),
  )
]

module _ (g : RiskGraph) (o : TraverseOptions) where
  -- What one pass over edges has done.
  record IsPassed (k : ℕ) (es : List RiskEdge) (l l' : Level) : Type 0 where
    grown : IsGrown k l l'
    reached : (e : RiskEdge) → Memᴰ e es → is_followed o e ≡ true → IsKnown l' (neighbour o e)

  follow_edges-IsPassed :
      (k : ℕ) (es : List RiskEdge) (l : Level) → IsPassed k es l (follow_edges o k es l)
  unfolding follow_edges
  follow_edges-IsPassed k [] l = record {
    grown = IsGrown-refl k l;
    reached = λ e m. absurd (Memᴰ.not-nil m);
  }
  follow_edges-IsPassed k (e ∷ es) l = elim (Bool-cases (is_followed o e)) [
    | inl followed ↦
        let l₁ = reach_node k (neighbour o e) l in
        let (grown, (d, known)) = reach_node-IsGrown k (neighbour o e) l in
        let rest = follow_edges-IsPassed k es l₁ in
        rw followed (record {
          grown = IsGrown-trans k l l₁ (follow_edges o k es l₁) grown rest.grown;
          reached = λ f m yes. elim (Memᴰ.cases_cons m) [
            | inl same ↦
                subst (λ (x : RiskEdge). IsKnown (follow_edges o k es l₁) (neighbour o x))
                  (sym same) (d, rest.grown.keeps (neighbour o e) known)
            | inr later ↦ rest.reached f later yes
          ];
        })
    | inr passed ↦
        let rest = follow_edges-IsPassed k es l in
        rw passed (record {
          grown = rest.grown;
          reached = λ f m yes. elim (Memᴰ.cases_cons m) [
            | inl same ↦ absurd (true≢false (sym yes ∙ ap (is_followed o) same ∙ passed))
            | inr later ↦ rest.reached f later yes
          ];
        })
  ]

  pub record IsSwept (k : ℕ) (ns : List ℕ) (l l' : Level) : Type 0 where
    pub grown : IsGrown k l l'
    pub reached :
        (u : ℕ)
        → Memᴰ u ns
        → (e : RiskEdge) → Memᴰ e (edges_at g o u)
        → is_followed o e ≡ true
        → IsKnown l' (neighbour o e)

  pub follow_frontier-IsSwept :
      (k : ℕ) (ns : List ℕ) (l : Level) → IsSwept k ns l (follow_frontier g o k ns l)
  unfolding follow_frontier
  follow_frontier-IsSwept k [] l = record {
    grown = IsGrown-refl k l;
    reached = λ u m. absurd (Memᴰ.not-nil m);
  }
  follow_frontier-IsSwept k (n ∷ ns) l =
      let l₁ = follow_edges o k (edges_at g o n) l in
      let first = follow_edges-IsPassed k (edges_at g o n) l in
      let rest = follow_frontier-IsSwept k ns l₁ in
      record {
        grown = IsGrown-trans k l l₁ (follow_frontier g o k ns l₁) first.grown rest.grown;
        reached = λ u m e at yes. elim (Memᴰ.cases_cons m) [
          | inl same ↦
              let (d, known) =
                first.reached e (subst (λ (x : ℕ). Memᴰ e (edges_at g o x)) same at) yes in
              (d, rest.grown.keeps (neighbour o e) known)
          | inr later ↦ rest.reached u later e at yes
        ];
      }
