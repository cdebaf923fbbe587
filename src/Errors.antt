-- ===== src/Errors.antt =====
-- The errors of packages/domain/src/errors.ts: a call of the domain package returns a value or
-- throws a DomainError, of which the model keeps the code. The messages and details are text.
use neo_lloyds.Prelude.{Bool, true, false, ◌≡◌, refl, ◌⊎◌, inl, inr}

pub data DomainError : Type 0 where
  invalid_edge dependency_cycle unknown_node invalid_money forbidden : DomainError
  currency_mismatch : DomainError
  invalid_share duplicate_allocation over_allocation exposure_limit_exceeded : DomainError
  allocation_not_found incomplete_allocation : DomainError
  insufficient_committed_capital : DomainError
  invalid_submission_transition invalid_claim_transition invalid_settlement_transition : DomainError
  syndication_not_bound loss_exceeds_remaining_capacity : DomainError
  claim_approval_required claim_not_approved no_bound_allocations : DomainError
  invalid_reinsurance_parameter invalid_fee_config : DomainError
  approval_required stale_approval not_approved : DomainError
  invalid_confidence invalid_estimate invalid_probability invalid_scoring_input : DomainError
  -- The codes that the services throw themselves.
  claim_not_awaiting_approval submission_not_ready already_listed not_assessed : DomainError
  listing_not_open already_syndicated no_live_interest no_capital_commitment : DomainError
  syndication_not_open duplicate_layer_order : DomainError
  -- Not of the domain package: NestJS's NotFoundException, and `throw new Error('Invariant violated…')`.
  not_found invariant_violated : DomainError

pub data Result {ℓ} (A : Type ℓ) : Type ℓ where
  ok : A → Result A
  err : DomainError → Result A

-- `if (test) throw new DomainError(…, e)`
abbrev pub throw_if : Bool → DomainError → Result (Unit {0})
throw_if true code = err code
throw_if false _ = ok tt

-- A call whose result the next lines use, and one that may only throw.
infixl 5 ◌>>=◌ ◌>>◌
abbrev pub ◌>>=◌ {ℓ κ} : {V : Type ℓ} {W : Type κ} → Result V → (V → Result W) → Result W
ok value >>= after = after value
err code >>= _ = err code

abbrev pub ◌>>◌ {κ} : {W : Type κ} → Result (Unit {0}) → Result W → Result W
check >> after = check >>= λ _. after

-- What a call that did not throw has returned.
pub >>=-eq-ok {ℓ κ} :
    {V : Type ℓ} {W : Type κ} (first : Result V) (after : V → Result W) {returned : W}
    → first >>= after ≡ ok returned
    → (value : V) × (first ≡ ok value) × (after value ≡ ok returned)
>>=-eq-ok (err code) after h = cc
>>=-eq-ok (ok value) after h = (value, refl, h)

-- To split on a result that a method has computed.
pub Result-cases {ℓ} :
    {V : Type ℓ} (r : Result V)
    → ((code : DomainError) × (r ≡ err code)) ⊎ ((value : V) × (r ≡ ok value))
Result-cases (err code) = inl (code, refl)
Result-cases (ok value) = inr (value, refl)

pub ok_injective {ℓ} : {A : Type ℓ} {a b : A} → ok a ≡ ok b → a ≡ b
ok_injective h = cc h

pub err_injective {ℓ} : {A : Type ℓ} {e f : DomainError} → Path (Result A) (err e) (err f) → e ≡ f
err_injective h = cc h
