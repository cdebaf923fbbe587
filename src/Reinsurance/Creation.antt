-- ===== src/Reinsurance/Creation.antt =====
-- What a call of `create_program` does to the stored programs.
use neo_lloyds.Prelude.{
  ℕ, ◌≡◌, refl, sym, ap, subst, ◌⊎◌, inl, inr, none, List, [], ◌∷◌, ◌++◌, map, All, All-append,
  arith,
}
use Prim.Native.String.{String}
use neo_lloyds.Prelude.Int.{ℤ, pos, negsuc, ◌≤ℤ◌}
use neo_lloyds.Prelude.Dict.{get, set}
use neo_lloyds.Errors.{ok, err, DomainError, Result-cases, >>=-eq-ok}
use neo_lloyds.Identity.{AuthContext}
use neo_lloyds.Reinsurance.{
  LayerParams, quota_share, excess_of_loss, aggregate, require_valid_layer_params,
}
use neo_lloyds.Reinsurance.Layers.{valid_band}
use neo_lloyds.Reinsurance.Stored.{
  StoredLayer, Store, LayerInput, new_layer, new_program, require_valid_layers,
}
use neo_lloyds.Reinsurance.Service.{create_program}
use neo_lloyds.Reinsurance.Consumption.{layers_of, layers_of-set, signature}
use neo_lloyds.Reinsurance.Carried.{HasCeded}
use neo_lloyds.Reinsurance.Treaty.{IsTreaty, IsBalanced, Distinct, kind_of}

-- The identifiers are not in use, and those of the layers are different.
pub record HasFreshIds (s : Store) (id : ℕ) (layers : List (ℕ × LayerInput)) : Type 0 where
  pub unused : get id s.programs ≡ none
  pub distinct : Distinct (map signature (layers_of s.programs ++ map new_layer layers))

-- The kind of a layer is the one that its parameters are for.
abbrev pub HasKind : ℕ × LayerInput → Type 0
HasKind l = l.1.kind ≡ kind_of l.1.params

abbrev inputs : List (ℕ × LayerInput) → List LayerInput
inputs layers = map (λ (l : ℕ × LayerInput). l.1) layers

module _ (ctx : AuthContext) (id : ℕ) (currency : String) (layers : List (ℕ × LayerInput))
    (s : Store) where
  abbrev after : Store
  after = (create_program ctx id currency layers s).1

  refused_layers : (e : DomainError) → require_valid_layers (inputs layers) ≡ err e → after ≡ s
  unfolding create_program
  refused_layers e h = ground arith

  created :
      require_valid_layers (inputs layers) ≡ ok tt
      → (after ≡ s)
        ⊎ (after.programs ≡ set id (new_program id ctx.organisation_id currency layers) s.programs)
  unfolding create_program
  created h = ground arith

nonneg : (k : ℤ) → pos 0 ≤ℤ k → (m : ℕ) × (k ≡ pos m)
nonneg (pos m) h = (m, refl)
nonneg (negsuc m) h = absurd (omega arith)

starts_empty :
    (params : LayerParams)
    → require_valid_layer_params params ≡ ok tt
    → HasCeded params (pos 0) (pos 0)
unfolding require_valid_layer_params
starts_empty (quota_share p) h = tt
starts_empty (excess_of_loss p) h = tt
starts_empty (aggregate p) h =
    let (point, limit) = valid_band p h in
    let (a, attached) = nonneg p.attachment_point.amount_minor point in
    let (l, limited) = nonneg p.limit.amount_minor limit in
    record {
      a = a;
      l = l;
      t = 0;
      attached = attached;
      limited = limited;
      seen = refl;
      ceded_is = ap pos (ground arith);
    }

new-IsBalanced :
    (layers : List (ℕ × LayerInput))
    → All HasKind layers
    → require_valid_layers (inputs layers) ≡ ok tt
    → All IsBalanced (map new_layer layers)
unfolding require_valid_layers
new-IsBalanced [] kinds h = tt
new-IsBalanced (l ∷ ls) kinds h =
    let (_, first, rest) = >>=-eq-ok (require_valid_layer_params l.1.params) _ h in
    (
      record { same_kind = kinds.0; ceded = starts_empty l.1.params first },
      new-IsBalanced ls kinds.1 rest,
    )

pub create_program-IsTreaty :
    (ctx : AuthContext) (id : ℕ) (currency : String) (layers : List (ℕ × LayerInput)) (s : Store)
    → HasFreshIds s id layers
    → All HasKind layers
    → IsTreaty s.programs
    → IsTreaty (create_program ctx id currency layers s).1.programs
create_program-IsTreaty ctx id currency layers s fresh kinds treaty =
    let unchanged : (create_program ctx id currency layers s).1 ≡ s
        → IsTreaty (create_program ctx id currency layers s).1.programs =
      λ same. subst (λ (x : Store). IsTreaty x.programs) (sym same) treaty in
    elim (Result-cases (require_valid_layers (inputs layers))) [
      | inl (e, failed) ↦ unchanged (refused_layers ctx id currency layers s e failed)
      | inr (_, valid) ↦ elim (created ctx id currency layers s valid) [
        | inl same ↦ unchanged same
        | inr stored ↦
            let program = new_program id ctx.organisation_id currency layers in
            let flat = layers_of-set id program s.programs fresh.unused in
            let added =
              All-append IsBalanced (layers_of s.programs) (map new_layer layers) treaty.balanced
                (new-IsBalanced layers kinds valid) in
            let after : IsTreaty (set id program s.programs) = record {
              balanced = subst (All IsBalanced) (sym flat) added;
              distinct =
                  subst (λ (ls : List StoredLayer). Distinct (map signature ls)) (sym flat)
                    fresh.distinct;
            } in
            rw stored after
      ]
    ]
