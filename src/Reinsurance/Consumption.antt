-- ===== src/Reinsurance/Consumption.antt =====
-- The layers of all programs as one list, and what an update of a layer's state does to it.
use neo_lloyds.Prelude.{
  ℕ, ◌==◌, ==_iff, ◌≡◌, refl, sym, ap, subst, ◌∙◌, none, some, Option-cases, Bool-cases, inl, inr,
  List, [], ◌∷◌, ◌++◌, map, if◌then◌else◌, All, All-left, All-right, arith,
}
use mathlib.Core.List.{append-nil, append_assoc}
use neo_lloyds.Prelude.Dict.{Dict, get, set}
use neo_lloyds.Reinsurance.{LayerParams, LayerState}
use neo_lloyds.Reinsurance.Stored.{
  StoredLayer, StoredProgram, consumed, update_layers, update_programs,
}

unfoldable pub layers_of : Dict StoredProgram → List StoredLayer
layers_of [] = []
layers_of ((k, p) ∷ rest) = p.layers ++ layers_of rest

-- The first layer with the identifier takes the state.
unfoldable pub consume : ℕ → LayerState → List StoredLayer → List StoredLayer
consume id state [] = []
consume id state (l ∷ ls) =
    let rest = consume id state ls in if l.id == id then consumed state l ∷ ls else l ∷ rest

consume-missing :
    (id : ℕ) (state : LayerState) (ls ms : List StoredLayer)
    → update_layers id state ls ≡ none
    → consume id state (ls ++ ms) ≡ ls ++ consume id state ms
unfolding consume update_layers
consume-missing id state [] ms h = refl
consume-missing id state (l ∷ ls) ms h = elim (Bool-cases (l.id == id)) [
  | inl hit ↦ ground (arith, hit)
  | inr miss ↦ elim (Option-cases (update_layers id state ls)) [
    | inl missing ↦ rw miss (ap (λ xs. l ∷ xs) (consume-missing id state ls ms missing))
    | inr (updated, found) ↦ ground (arith, miss, found)
  ]
]

consume-found :
    (id : ℕ) (state : LayerState) (ls ms : List StoredLayer) {updated : List StoredLayer}
    → update_layers id state ls ≡ some updated
    → consume id state (ls ++ ms) ≡ updated ++ ms
unfolding consume update_layers
consume-found id state [] ms h = cc
consume-found id state (l ∷ ls) ms {updated} h = elim (Bool-cases (l.id == id)) [
  | inl hit ↦
      let same : consumed state l ∷ ls ≡ updated = ground (arith, hit) in
      rw hit (ap (λ (xs : List StoredLayer). xs ++ ms) same)
  | inr miss ↦ elim (Option-cases (update_layers id state ls)) [
    | inl missing ↦ ground (arith, miss, missing)
    | inr (rest, found) ↦
        let same : l ∷ rest ≡ updated = ground (arith, miss, found) in
        rw miss (
          ap (λ xs. l ∷ xs) (consume-found id state ls ms found)
          ∙ ap (λ (xs : List StoredLayer). xs ++ ms) same)
  ]
]

pub layers_of-update_programs :
    (id : ℕ) (state : LayerState) (d : Dict StoredProgram)
    → layers_of (update_programs id state d) ≡ consume id state (layers_of d)
unfolding layers_of consume update_programs
layers_of-update_programs id state [] = refl
layers_of-update_programs id state ((k, p) ∷ rest) =
    elim (Option-cases (update_layers id state p.layers)) [
      | inl missing ↦
          rw (missing, layers_of)
            (ap (λ xs. p.layers ++ xs) (layers_of-update_programs id state rest)
              ∙ sym (consume-missing id state p.layers (layers_of rest) missing))
      | inr (updated, found) ↦
          rw (found, layers_of) (sym (consume-found id state p.layers (layers_of rest) found))
    ]

-- What an update leaves as it was.
abbrev pub signature : StoredLayer → ℕ × LayerParams
signature l = (l.id, l.params)

pub signatures-consume :
    (id : ℕ) (state : LayerState) (ls : List StoredLayer)
    → map signature (consume id state ls) ≡ map signature ls
unfolding consume
signatures-consume id state [] = refl
signatures-consume id state (l ∷ ls) = elim (Bool-cases (l.id == id)) [
  | inl hit ↦ rw hit refl
  | inr miss ↦ rw miss (ap (λ xs. signature l ∷ xs) (signatures-consume id state ls))
]

pub All-consume {ℓ} :
    (P : StoredLayer → Type ℓ) (id : ℕ) (state : LayerState) (ls : List StoredLayer)
    → All P ls
    → All (λ l. l.id ≡ id → P l → P (consumed state l)) ls
    → All P (consume id state ls)
unfolding consume
All-consume P id state [] h step = tt
All-consume P id state (l ∷ ls) h step = elim (Bool-cases (l.id == id)) [
  | inl hit ↦ rw hit (step.0 ((==_iff l.id id).0 hit) h.0, h.1)
  | inr miss ↦ rw miss (h.0, All-consume P id state ls h.1 step.1)
]

-- The layers of a stored program are among all, and those of a new one come last.
pub All-get {ℓ} :
    (P : StoredLayer → Type ℓ) (k : ℕ) (d : Dict StoredProgram) {p : StoredProgram}
    → get k d ≡ some p
    → All P (layers_of d)
    → All P p.layers
unfolding get layers_of
All-get P k [] h all = cc
All-get P k ((j, q) ∷ rest) {p} h all = elim (Bool-cases (j == k)) [
  | inl hit ↦
      let same : q ≡ p = ground (arith, hit) in
      subst (λ (x : StoredProgram). All P x.layers) same (All-left P q.layers (layers_of rest) all)
  | inr miss ↦
      let later : get k rest ≡ some p = ground (arith, miss) in
      All-get P k rest later (All-right P q.layers (layers_of rest) all)
]

pub layers_of-set :
    (k : ℕ) (p : StoredProgram) (d : Dict StoredProgram)
    → get k d ≡ none
    → layers_of (set k p d) ≡ layers_of d ++ p.layers
unfolding get set layers_of
layers_of-set k p [] h = append-nil p.layers
layers_of-set k p ((j, q) ∷ rest) h = elim (Bool-cases (j == k)) [
  | inl hit ↦ ground (arith, hit)
  | inr miss ↦ rw miss (
      ap (λ xs. q.layers ++ xs) (layers_of-set k p rest (ground (arith, miss)))
      ∙ sym (append_assoc q.layers (layers_of rest) p.layers))
]
