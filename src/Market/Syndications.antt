-- ===== src/Market/Syndications.antt =====
-- `SyndicationService` of apps/api/src/syndication/syndication.service.ts, method by method. A fresh
-- identifier and the time are arguments, since the source draws them from outside.
use neo_lloyds.Prelude.{ℕ, Bool, true, false, not, Option, none, some, List, [], ◌∷◌}
use neo_lloyds.Prelude.Dict.{get}
use neo_lloyds.Prelude.Int.{ℤ}
use neo_lloyds.Errors.{
  Result, ok, throw_if, not_found, invariant_violated, listing_not_open, already_syndicated,
  no_live_interest, no_capital_commitment, syndication_not_open,
}
use neo_lloyds.Money.{Money}
use neo_lloyds.Identity.{
  AuthContext, risk_originator, broker, capital_provider, Access, read, write, require_any_role,
  require_tenant_access,
}
use neo_lloyds.Syndication.{Allocation, propose_allocation, remove_allocation, bind_allocations}
use neo_lloyds.Capital.{compute_position, require_capacity_for_proposal}
use neo_lloyds.Marketplace.{CapitalAppetite}
use neo_lloyds.Service.{Action, ◌>>=◌, ◌>>◌, pure, call, gets, or_throw, modify}
use neo_lloyds.Market.Store.{
  Store, StoredSyndication, matched, AuditAction, syndication_open, allocation_propose,
  allocation_withdraw, syndication_bind, is_open, is_listed,
}
use neo_lloyds.Market.Repositories.{
  list_at, record_audit, set_listing_status, has_live_interest, find_by_listing, new_syndication,
  create, add_allocation, find_allocation, remove_stored, bind_stored, allocations_for_organisation,
}

abbrev pub audit : AuthContext → AuditAction → ℕ → Action Store (Unit {0})
audit ctx action subject =
    record_audit (record { actor = ctx.subject_id; action = action; subject = subject })

abbrev pub is_some {ℓ} : {A : Type ℓ} → Option A → Bool
is_some none = false
is_some (some a) = true

unfoldable pub open_syndication : AuthContext → ℕ → ℕ → Action Store StoredSyndication
open_syndication ctx fresh_id listing_id = do
  call (require_any_role ctx (risk_originator ∷ broker ∷ []))
  listing ← or_throw (← gets (λ s. get listing_id s.listings)) not_found
  call (require_tenant_access ctx listing.organisation_id write)
  call (throw_if (not (is_listed listing.status)) listing_not_open)
  existing ← gets (λ s. find_by_listing listing_id s.syndications)
  call (throw_if (is_some existing) already_syndicated)
  syndication ← create (new_syndication fresh_id listing_id listing)
  audit ctx syndication_open syndication.id
  pure syndication

unfoldable pub must_exist : ℕ → Action Store StoredSyndication
must_exist i = do or_throw (← gets (λ s. get i s.syndications)) not_found

-- Only an access to write asks for the owner.
abbrev pub check_owner : AuthContext → ℕ → Access → Result (Unit {0})
check_owner ctx organisation_id read = ok tt
check_owner ctx organisation_id write = require_tenant_access ctx organisation_id write

unfoldable pub require_open_syndication : ℕ → Access → AuthContext → Action Store StoredSyndication
unfolding must_exist
require_open_syndication i access ctx = do
  syndication ← must_exist i
  call (check_owner ctx syndication.organisation_id access)
  call (throw_if (not (is_open syndication.status)) syndication_not_open)
  pure syndication

-- `appetite?.maxExposure`
abbrev pub exposure_of : Option CapitalAppetite → Option Money
exposure_of none = none
exposure_of (some appetite) = some appetite.max_exposure

unfoldable pub propose : AuthContext → ℕ → ℤ → Action Store (List Allocation)
unfolding require_open_syndication
propose ctx i share_bps = do
  call (require_any_role ctx (capital_provider ∷ []))
  syndication ← require_open_syndication i read ctx
  interests ← gets (λ s. list_at syndication.listing_id s.interests)
  call (throw_if (not (has_live_interest ctx.organisation_id interests)) no_live_interest)
  current ← gets (λ s. list_at i s.allocations)
  appetite ← gets (λ s. get ctx.organisation_id s.appetites)
  updated ← call (
      propose_allocation current
        (record { organisation_id = ctx.organisation_id; share_bps = share_bps })
        syndication.capacity (exposure_of appetite))
  added ← or_throw (find_allocation ctx.organisation_id updated) invariant_violated
  commitment ← or_throw (← gets (λ s. get ctx.organisation_id s.commitments)) no_capital_commitment
  contributions ←
      gets (λ s. allocations_for_organisation ctx.organisation_id s.syndications s.allocations)
  position ← call (compute_position commitment contributions)
  call (require_capacity_for_proposal position added.amount)
  add_allocation i added ctx.subject_id
  audit ctx allocation_propose i
  pure updated

unfoldable pub withdraw : AuthContext → ℕ → Action Store (Unit {0})
unfolding require_open_syndication
withdraw ctx i = do
  call (require_any_role ctx (capital_provider ∷ []))
  _ ← require_open_syndication i read ctx
  current ← gets (λ s. list_at i s.allocations)
  _ ← call (remove_allocation current ctx.organisation_id)
  remove_stored i ctx.organisation_id ctx.subject_id
  audit ctx allocation_withdraw i

unfoldable pub bind : AuthContext → ℕ → ℕ → Action Store StoredSyndication
unfolding require_open_syndication
bind ctx i now = do
  call (require_any_role ctx (risk_originator ∷ broker ∷ []))
  syndication ← require_open_syndication i write ctx
  proposals ← gets (λ s. list_at i s.allocations)
  final_allocations ← call (bind_allocations proposals syndication.capacity)
  bound_one ← bind_stored i final_allocations ctx.subject_id now
  modify (λ s. record s {
    listings = set_listing_status syndication.listing_id matched now s.listings;
  })
  audit ctx syndication_bind i
  pure bound_one
