-- ===== src/Graph/Listed.antt =====
-- What a new node and a new edge do to one of the two adjacencies.
use mathlib.Core.List.{Memᴰ}
use mathlib.Core.List.Memᴰ
use neo_lloyds.Prelude.{
  ℕ, ◌≡◌, ◌≢◌, sym, ap, subst, ◌∙◌, ◌⊎◌, inl, inr, none, some, List, [], ◌∷◌, ◌++◌, Bool-cases,
  Option-cases,
}
use neo_lloyds.Prelude.Dict.{Dict, get, set, get-set_cases, get-set-same, get-set-other}
use neo_lloyds.Identity.{includes}
use neo_lloyds.Graph.{RiskNode, RiskEdge, with_entry, add_member}
use neo_lloyds.Graph.Walks.{IsListed}
use neo_lloyds.Graph.Search.{mem_append_cases}
use neo_lloyds.Graph.Adjacency.{
  add_member-Kept, add_member-listed, with_entry-Kept, with_entry-has, with_entry-missing,
  with_entry-found, add_member-missing, add_member-known, add_member-fresh, nothing_there,
}

-- Every listed identifier is that of a stored edge with its end at the node.
pub record IsFaithful (edges : Dict RiskEdge) (adjacency : Dict (List ℕ)) (end : RiskEdge → ℕ)
    : Type 0 where
  pub resolves :
      (n : ℕ) {ids : List ℕ} (i : ℕ)
      → get n adjacency ≡ some ids
      → Memᴰ i ids
      → (e : RiskEdge) × (get i edges ≡ some e) × (end e ≡ n)

module _ (nodes : Dict RiskNode) (edges : Dict RiskEdge) (adjacency : Dict (List ℕ))
    (end : RiskEdge → ℕ) where
  pub with_entry-IsListed :
      (node : RiskNode)
      → IsListed nodes edges adjacency end
      → IsListed (set node.id node nodes) edges (with_entry node.id adjacency) end
  with_entry-IsListed node indexed = record {
    entry = λ n h. elim (get-set_cases node.id n node nodes h) [
      | inl new ↦
          subst (λ (k : ℕ). (ids : List ℕ) × (get k (with_entry node.id adjacency) ≡ some ids))
            new.0 (with_entry-has node.id adjacency)
      | inr old ↦
          let (ids, held) = indexed.entry n old.1 in
          (ids, with_entry-Kept node.id n adjacency ids held)
    ];
    listed = λ i {e} h.
        let (key, (ids, held, m)) = indexed.listed i h in
        (key, (ids, with_entry-Kept node.id (end e) adjacency ids held, m));
  }

  pub add_member-IsListed :
      (e : RiskEdge) {node : RiskNode}
      → get (end e) nodes ≡ some node
      → IsListed nodes edges adjacency end
      → IsListed nodes (set e.id e edges) (add_member (end e) e.id adjacency) end
  add_member-IsListed e known indexed = record {
    entry = λ n h.
        let (ids, held) = indexed.entry n h in
        let (later, found, _) = add_member-Kept (end e) e.id n adjacency ids held in (later, found);
    listed = λ i {e = f} h. elim (get-set_cases e.id i e edges h) [
      | inl new ↦
          let (ids, held) = indexed.entry (end e) known in
          let (later, found, m) = add_member-listed (end e) e.id adjacency ids held in
          subst
            (λ (x : RiskEdge).
              (x.id ≡ i)
              × ((js : List ℕ) × (get (end x) (add_member (end e) e.id adjacency) ≡ some js)
                  × Memᴰ i js))
            new.1 (new.0, (later, found, subst (λ (k : ℕ). Memᴰ k later) new.0 m))
      | inr old ↦
          let (key, (ids, held, m)) = indexed.listed i old.1 in
          let (later, found, keeps) = add_member-Kept (end e) e.id (end f) adjacency ids held in
          (key, (later, found, keeps i m))
    ];
  }

  with_entry_members :
      (a n x : ℕ) {ids : List ℕ}
      → get n (with_entry a adjacency) ≡ some ids
      → Memᴰ x ids
      → (old : List ℕ) × (get n adjacency ≡ some old) × Memᴰ x old
  with_entry_members a n x {ids} h m = elim (Option-cases (get a adjacency)) [
    | inr (js, is) ↦ (ids, sym (ap (get n) (with_entry-found a adjacency js is)) ∙ h, m)
    | inl missing ↦
        let at : get n (set a [] adjacency) ≡ some ids =
          sym (ap (get n) (with_entry-missing a adjacency missing)) ∙ h in
        elim (get-set_cases a n [] adjacency at) [
          | inl new ↦ absurd (Memᴰ.not-nil (subst (Memᴰ x) (sym new.1) m))
          | inr old ↦ (ids, old.1, m)
        ]
  ]

  add_member_members :
      (a i n x : ℕ) {ids : List ℕ}
      → get n (add_member a i adjacency) ≡ some ids
      → Memᴰ x ids
      → ((x ≡ i) × (a ≡ n)) ⊎ ((old : List ℕ) × (get n adjacency ≡ some old) × Memᴰ x old)
  add_member_members a i n x {ids} h m = elim (Option-cases (get a adjacency)) [
    | inl missing ↦ inr (ids, sym (ap (get n) (add_member-missing a i adjacency missing)) ∙ h, m)
    | inr (js, is) ↦ elim (Bool-cases (includes js i)) [
      | inl known ↦ inr (ids, sym (ap (get n) (add_member-known a i adjacency js is known)) ∙ h, m)
      | inr fresh ↦
          let at : get n (set a (js ++ i ∷ []) adjacency) ≡ some ids =
            sym (ap (get n) (add_member-fresh a i adjacency js is fresh)) ∙ h in
          elim (get-set_cases a n (js ++ i ∷ []) adjacency at) [
            | inr old ↦ inr (ids, old.1, m)
            | inl new ↦ elim (mem_append_cases js (i ∷ []) (subst (Memᴰ x) (sym new.1) m)) [
              | inl before ↦ inr (js, ap (λ (k : ℕ). get k adjacency) (sym new.0) ∙ is, before)
              | inr last ↦ elim (Memᴰ.cases_cons last) [
                | inl same ↦ inl (same, new.0)
                | inr none_left ↦ absurd (Memᴰ.not-nil none_left)
              ]
            ]
          ]
    ]
  ]

  pub with_entry-IsFaithful :
      (a : ℕ) → IsFaithful edges adjacency end → IsFaithful edges (with_entry a adjacency) end
  with_entry-IsFaithful a faithful = record {
    resolves = λ n i h m.
        let (old, held, before) = with_entry_members a n i h m in faithful.resolves n i held before;
  }

  -- An edge with a fresh identifier takes the place of no other.
  pub add_member-IsFaithful :
      (e : RiskEdge)
      → get e.id edges ≡ none
      → IsFaithful edges adjacency end
      → IsFaithful (set e.id e edges) (add_member (end e) e.id adjacency) end
  add_member-IsFaithful e fresh faithful = record {
    resolves = λ n i h m. elim (add_member_members (end e) e.id n i h m) [
      | inl new ↦
          (e, ap (λ (k : ℕ). get k (set e.id e edges)) new.0 ∙ get-set-same e.id e edges, new.1)
      | inr (old, held, before) ↦
          let (f, stored, at) = faithful.resolves n i held before in
          let other : e.id ≢ i = λ same.
            absurd (nothing_there (sym fresh ∙ ap (λ (k : ℕ). get k edges) same ∙ stored)) in
          (f, get-set-other e.id i e edges other ∙ stored, at)
    ];
  }
