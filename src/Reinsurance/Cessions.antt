-- ===== src/Reinsurance/Cessions.antt =====
-- What a call of `cede` does to the stored programs.
use neo_lloyds.Prelude.{
  ℕ, ◌*◌, ◌^◌, ◌<◌, ◌≡◌, refl, sym, subst, ◌⊎◌, inl, inr, Option, none, some, Option-cases, List,
  All, All-zip, All-of_map, arith,
}
use Prim.Native.String.{String}
use neo_lloyds.Prelude.Int.{pos}
use neo_lloyds.Prelude.Dict.{get}
use neo_lloyds.Prelude.Sorting.{sort, All-sort}
use neo_lloyds.Errors.{ok, err, DomainError, Result-cases, >>=-eq-ok, ok_injective}
use neo_lloyds.Identity.{AuthContext}
use neo_lloyds.Money.{Money, subtract_money}
use neo_lloyds.Money.Sums.{of_amount}
use neo_lloyds.Reinsurance.{
  LayerParams, ReinsuranceLayer, ProgramCession, comes_first, require_non_negative, apply_layers,
  apply_reinsurance_program,
}
use neo_lloyds.Reinsurance.Consumption.{layers_of, signature, All-get}
use neo_lloyds.Reinsurance.Carried.{IsReady, Carries, apply_layers-Carries}
use neo_lloyds.Reinsurance.Stored.{
  StoredLayer, StoredProgram, Store, to_layers, update_states, record_cession,
}
use neo_lloyds.Reinsurance.Service.{must_find_program, cede}
use neo_lloyds.Reinsurance.Treaty.{
  IsTreaty, IsBalanced, Owns, Distinct, Distinct-Owns, signatures, to_layers-IsReady,
  update_states-IsKept,
}

-- What a call of `cede` has done to the programs that has not left them as they were.
pub record IsCeded (program_id : ℕ) (loss : Money) (s s' : Store) : Type 0 where
  program : StoredProgram
  layers : List ReinsuranceLayer
  result : ProgramCession
  found : get program_id s.programs ≡ some program
  taken : to_layers program.currency program.layers ≡ ok layers
  applied : apply_reinsurance_program loss layers ≡ ok result
  updated : s'.programs ≡ update_states result.per_layer s.programs

module _ (ctx : AuthContext) (id program_id : ℕ) (loss : Money) (claim_id : Option ℕ)
    (s : Store) where
  abbrev after : Store
  after = (cede ctx id program_id loss claim_id s).1

  not_found_there : get program_id s.programs ≡ none → after ≡ s
  unfolding cede must_find_program
  not_found_there missing = ground arith

  module _ (program : StoredProgram) (found : get program_id s.programs ≡ some program) where
    not_read : (e : DomainError) → to_layers program.currency program.layers ≡ err e → after ≡ s
    unfolding cede must_find_program
    not_read e h = ground arith

    not_applied :
        (layers : List ReinsuranceLayer) (e : DomainError)
        → to_layers program.currency program.layers ≡ ok layers
        → apply_reinsurance_program loss layers ≡ err e
        → after ≡ s
    unfolding cede must_find_program
    not_applied layers e h h' = ground arith

    applied-cases :
        (layers : List ReinsuranceLayer) (result : ProgramCession)
        → to_layers program.currency program.layers ≡ ok layers
        → apply_reinsurance_program loss layers ≡ ok result
        → (after ≡ s) ⊎ (after.programs ≡ update_states result.per_layer s.programs)
    unfolding cede must_find_program record_cession
    applied-cases layers result h h' = ground arith

  pub cede-cases : (after ≡ s) ⊎ IsCeded program_id loss s after
  cede-cases = elim (Option-cases (get program_id s.programs)) [
    | inl missing ↦ inl (not_found_there missing)
    | inr (program, found) ↦ elim (Result-cases (to_layers program.currency program.layers)) [
      | inl (e, failed) ↦ inl (not_read program found e failed)
      | inr (layers, taken) ↦ elim (Result-cases (apply_reinsurance_program loss layers)) [
        | inl (e, failed) ↦ inl (not_applied program found layers e taken failed)
        | inr (result, applied) ↦ elim (applied-cases program found layers result taken applied) [
          | inl same ↦ inl same
          | inr updated ↦ inr (record {
            program = program;
            layers = layers;
            result = result;
            found = found;
            taken = taken;
            applied = applied;
            updated = updated;
          })
        ]
      ]
    ]
  ]

-- The layers of a stored program are balanced, and each identifier stands for one layer's parameters.
program-IsReady :
    (k : ℕ) (s : Store) {p : StoredProgram}
    → get k s.programs ≡ some p
    → IsTreaty s.programs
    → All (λ (l : StoredLayer). IsBalanced l × Owns (signatures s.programs) l.id l.params) p.layers
program-IsReady k s found treaty =
    let owned =
      All-of_map (λ (e : ℕ × LayerParams). Owns (signatures s.programs) e.0 e.1) signature
        (layers_of s.programs) (Distinct-Owns (signatures s.programs) treaty.distinct) in
    All-get (λ (l : StoredLayer). IsBalanced l × Owns (signatures s.programs) l.id l.params) k
      s.programs found
      (All-zip IsBalanced (λ (l : StoredLayer). Owns (signatures s.programs) l.id l.params)
        (layers_of s.programs) treaty.balanced owned)

program-Carries {ℓ} :
    (P : ReinsuranceLayer → Type ℓ) (n : ℕ) (c : String) (ls : List ReinsuranceLayer)
    {r : ProgramCession}
    → n * 10000 < 2 ^ 52
    → All (λ l. P l × IsReady l) (sort comes_first ls)
    → apply_reinsurance_program (of_amount (pos n) c) ls ≡ ok r
    → All (Carries P) r.per_layer
unfolding apply_reinsurance_program
program-Carries P n c ls small ready h =
    let loss = of_amount (pos n) c in
    let (_, _, h₁) = >>=-eq-ok (require_non_negative loss) _ h in
    let (p, applied, h₂) = >>=-eq-ok (apply_layers c loss (sort comes_first ls)) _ h₁ in
    let (total, _, h₃) = >>=-eq-ok (subtract_money loss p.1) _ h₂ in
    subst (λ (r : ProgramCession). All (Carries P) r.per_layer) (ok_injective h₃)
      (apply_layers-Carries P c n loss (sort comes_first ls) refl small ready applied)

pub IsCeded-IsTreaty :
    (k n : ℕ) (c : String) (s s' : Store)
    → n * 10000 < 2 ^ 52
    → IsTreaty s.programs
    → IsCeded k (of_amount (pos n) c) s s'
    → IsTreaty s'.programs
IsCeded-IsTreaty k n c s s' small treaty done =
    let es = signatures s.programs in
    let loss = of_amount (pos n) c in
    let ready =
      to_layers-IsReady es done.program.currency done.program.layers
        (program-IsReady k s done.found treaty) done.taken in
    let ordered =
      All-sort comes_first (λ (r : ReinsuranceLayer). Owns es r.id r.params × IsReady r) done.layers
        ready in
    let carried =
      program-Carries (λ (r : ReinsuranceLayer). Owns es r.id r.params) n c done.layers small
        ordered done.applied in
    let kept =
      update_states-IsKept es done.result.per_layer s.programs carried
        (record { balanced = treaty.balanced; same = refl }) in
    rw done.updated (record {
      balanced = kept.balanced;
      distinct = subst Distinct (sym kept.same) treaty.distinct;
    })
