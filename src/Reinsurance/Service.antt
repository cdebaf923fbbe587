-- ===== src/Reinsurance/Service.antt =====
-- `ReinsuranceService` of apps/api/src/reinsurance/reinsurance.service.ts, method by method. Fresh
-- identifiers are arguments, one for a program or a cession and one for each layer.
use neo_lloyds.Prelude.{ℕ, not, Option, List, [], ◌∷◌, ◌++◌, map}
use Prim.Native.String.{String}
use text.Mathlib.Text.{◌==◌ as str_eq}
use neo_lloyds.Prelude.Dict.{get, set}
use neo_lloyds.Errors.{throw_if, not_found, currency_mismatch, duplicate_layer_order}
use neo_lloyds.Service
use neo_lloyds.Service.{◌>>=◌, ◌>>◌, pure, call, gets, or_throw, modify}
use neo_lloyds.Money.{Money}
use neo_lloyds.Identity.{
  AuthContext, syndicate, read, write, require_any_role, require_tenant_access,
}
use neo_lloyds.Reinsurance.{apply_reinsurance_program}
use neo_lloyds.Reinsurance.Stored.{
  StoredProgram, StoredCession, AuditAction, program_create, cede_loss, Store, LayerInput,
  require_valid_layers, has_duplicate_order, new_program, to_layers, update_states, or_nil,
  record_cession,
}

abbrev pub Action : Type 0 → Type 0
Action A = Service.Action Store A

abbrev pub audit : AuthContext → AuditAction → ℕ → Action (Unit {0})
audit ctx action subject = modify (λ s. record s {
  audit_log =
      s.audit_log ++ record { actor = ctx.subject_id; action = action; subject = subject } ∷ [];
})

unfoldable pub create_program :
    AuthContext → ℕ → String → List (ℕ × LayerInput) → Action StoredProgram
unfolding require_valid_layers has_duplicate_order
create_program ctx fresh_id currency layers = do
  call (require_any_role ctx (syndicate ∷ []))
  call (require_valid_layers (map (λ (l : ℕ × LayerInput). l.1) layers))
  call (
      throw_if (has_duplicate_order (map (λ (l : ℕ × LayerInput). l.1) layers))
        duplicate_layer_order)
  let program = new_program fresh_id ctx.organisation_id currency layers
  modify (λ s. record s { programs = set fresh_id program s.programs })
  audit ctx program_create fresh_id
  pure program

unfoldable pub must_find_program : ℕ → Action StoredProgram
must_find_program id = do or_throw (← gets (λ s. get id s.programs)) not_found

unfoldable pub cede : AuthContext → ℕ → ℕ → Money → Option ℕ → Action StoredCession
unfolding must_find_program to_layers update_states record_cession
cede ctx fresh_id program_id gross_loss claim_id = do
  program ← must_find_program program_id
  call (require_tenant_access ctx program.organisation_id write)
  call (throw_if (not (str_eq gross_loss.currency program.currency)) currency_mismatch)
  layers ← call (to_layers program.currency program.layers)
  result ← call (apply_reinsurance_program gross_loss layers)
  modify (λ s. record s { programs = update_states result.per_layer s.programs })
  let cession : StoredCession = record {
    id = fresh_id;
    program_id = program.id;
    claim_id = claim_id;
    cession = result;
  }
  modify (record_cession cession)
  audit ctx cede_loss fresh_id
  pure cession

unfoldable pub get_program : AuthContext → ℕ → Action StoredProgram
unfolding must_find_program
get_program ctx id = do
  program ← must_find_program id
  call (require_tenant_access ctx program.organisation_id read)
  pure program

unfoldable pub list_cessions : AuthContext → ℕ → Action (List StoredCession)
unfolding must_find_program
list_cessions ctx program_id = do
  program ← must_find_program program_id
  call (require_tenant_access ctx program.organisation_id read)
  gets (λ s. or_nil (get program_id s.cessions))
