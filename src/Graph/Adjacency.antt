-- ===== src/Graph/Adjacency.antt =====
-- How the adjacency grows.
use mathlib.Core.List.{Memᴰ}
use mathlib.Core.Bool.{true≢false}
use neo_lloyds.Prelude.{
  ℕ, ◌≡◌, refl, sym, ap, subst, ◌∙◌, inl, inr, true, false, none, some, List, [], ◌∷◌, ◌++◌, arith,
  Bool-cases, Option-cases, ◌==◌, ==_iff,
}
use neo_lloyds.Prelude.Dict.{Dict, get, set, get-set-same, get-set-other, some_injective}
use neo_lloyds.Identity.{includes}
use neo_lloyds.Identity.Tenants.{includes_iff}
use neo_lloyds.Graph.{add_member, with_entry}
use neo_lloyds.Graph.Search.{mem_append_left, mem_append_right}

pub nothing_there : {A : Type 0} {a : A} → none ≡ some a → ⊥
nothing_there h = cc

none-some : {ids : List ℕ} → none ≡ some ids → ⊥
none-some h = cc

-- A later adjacency has the entry of a node with no member less.
abbrev pub Kept : Dict (List ℕ) → ℕ → List ℕ → Type 0
Kept adjacency n ids =
    (more_ids : List ℕ) × (get n adjacency ≡ some more_ids)
    × ((x : ℕ) → Memᴰ x ids → Memᴰ x more_ids)

pub add_member-missing :
    (a i : ℕ) (adjacency : Dict (List ℕ))
    → get a adjacency ≡ none
    → add_member a i adjacency ≡ adjacency
unfolding add_member
add_member-missing a i adjacency h = ground (arith, h)

pub add_member-known :
    (a i : ℕ) (adjacency : Dict (List ℕ)) (ids : List ℕ)
    → get a adjacency ≡ some ids
    → includes ids i ≡ true
    → add_member a i adjacency ≡ adjacency
unfolding add_member
add_member-known a i adjacency ids h known = ground (arith, h, known)

pub add_member-fresh :
    (a i : ℕ) (adjacency : Dict (List ℕ)) (ids : List ℕ)
    → get a adjacency ≡ some ids
    → includes ids i ≡ false
    → add_member a i adjacency ≡ set a (ids ++ i ∷ []) adjacency
unfolding add_member
add_member-fresh a i adjacency ids h fresh = ground (arith, h, fresh)

pub with_entry-missing :
    (a : ℕ) (adjacency : Dict (List ℕ))
    → get a adjacency ≡ none
    → with_entry a adjacency ≡ set a [] adjacency
unfolding with_entry
with_entry-missing a adjacency h = ground (arith, h)

pub with_entry-found :
    (a : ℕ) (adjacency : Dict (List ℕ)) (ids : List ℕ)
    → get a adjacency ≡ some ids
    → with_entry a adjacency ≡ adjacency
unfolding with_entry
with_entry-found a adjacency ids h = ground (arith, h)

pub add_member-Kept :
    (a i n : ℕ) (adjacency : Dict (List ℕ)) (ids : List ℕ)
    → get n adjacency ≡ some ids
    → Kept (add_member a i adjacency) n ids
add_member-Kept a i n adjacency ids h = elim (Option-cases (get a adjacency)) [
  | inl missing ↦ rw (add_member-missing a i adjacency missing) (ids, h, λ x m. m)
  | inr (js, is) ↦ (elim (Bool-cases (includes js i)) [
    | inl known ↦ rw (add_member-known a i adjacency js is known) (ids, h, λ x m. m)
    | inr fresh ↦ rw (add_member-fresh a i adjacency js is fresh) (elim (Bool-cases (a == n)) [
      | inl hit ↦
          let same = (==_iff a n).0 hit in
          let entry : js ≡ ids =
            some_injective (sym is ∙ ap (λ (k : ℕ). get k adjacency) same ∙ h) in
          (
            js ++ i ∷ [],
            ap (λ (k : ℕ). get k (set a (js ++ i ∷ []) adjacency)) (sym same)
                ∙ get-set-same a (js ++ i ∷ []) adjacency,
            λ x m. mem_append_left js (i ∷ []) (subst (Memᴰ x) (sym entry) m),
          )
      | inr miss ↦ (
        ids,
        get-set-other a n (js ++ i ∷ []) adjacency
              (λ e. absurd (true≢false (sym ((==_iff a n).1 e) ∙ miss)))
            ∙ h,
        λ x m. m,
      )
    ])
  ])
]

pub add_member-listed :
    (a i : ℕ) (adjacency : Dict (List ℕ)) (ids : List ℕ)
    → get a adjacency ≡ some ids
    → (more_ids : List ℕ) × (get a (add_member a i adjacency) ≡ some more_ids) × Memᴰ i more_ids
add_member-listed a i adjacency ids is = (elim (Bool-cases (includes ids i)) [
  | inl known ↦
      rw (add_member-known a i adjacency ids is known) (ids, is, (includes_iff ids i).0 known)
  | inr fresh ↦ rw (add_member-fresh a i adjacency ids is fresh) (
    ids ++ i ∷ [],
    get-set-same a (ids ++ i ∷ []) adjacency,
    mem_append_right ids (i ∷ []) (Memᴰ.head refl),
  )
])

pub with_entry-Kept :
    (a n : ℕ) (adjacency : Dict (List ℕ)) (ids : List ℕ)
    → get n adjacency ≡ some ids
    → get n (with_entry a adjacency) ≡ some ids
with_entry-Kept a n adjacency ids h = elim (Option-cases (get a adjacency)) [
  | inl missing ↦ rw (with_entry-missing a adjacency missing) (
      get-set-other a n [] adjacency
        (λ e. none-some (sym missing ∙ ap (λ (k : ℕ). get k adjacency) e ∙ h))
      ∙ h)
  | inr (js, is) ↦ rw (with_entry-found a adjacency js is) h
]

pub with_entry-has :
    (a : ℕ) (adjacency : Dict (List ℕ))
    → (ids : List ℕ) × (get a (with_entry a adjacency) ≡ some ids)
with_entry-has a adjacency = elim (Option-cases (get a adjacency)) [
  | inl missing ↦ rw (with_entry-missing a adjacency missing) ([], get-set-same a [] adjacency)
  | inr (js, is) ↦ rw (with_entry-found a adjacency js is) (js, is)
]
