-- ===== src/Market/Effects.antt =====
-- What a method of the syndication service that returned has tested, and the store that it left.
use neo_lloyds.Prelude.{
  ℕ, ◌≡◌, true, none, some, List, [], ◌∷◌, ◌++◌, arith, Option-cases, inl, inr,
}
use neo_lloyds.Prelude.Dict.{get, set}
use neo_lloyds.Prelude.Int.{ℤ}
use neo_lloyds.Errors.{ok, Result-cases}
use neo_lloyds.Identity.{AuthContext, require_tenant_access, write}
use neo_lloyds.Syndication.{
  AllocationProposal, Allocation, propose_allocation, remove_allocation, bind_allocations, without,
}
use neo_lloyds.Capital.{
  CapitalCommitment, CapitalPosition, compute_position, require_capacity_for_proposal,
}
use neo_lloyds.Market.Store.{
  Store, StoredListing, StoredSyndication, AuditAction, syndication_open, allocation_propose,
  allocation_withdraw, syndication_bind, matched, proposed, is_listed, is_open,
}
use neo_lloyds.Market.Repositories.{
  list_at, new_syndication, find_by_listing, append_event, event_of, find_allocation,
  record_removal, append_bound, bound_syndication, set_listing_status, has_live_interest,
  allocations_for_organisation, add_allocation, remove_stored, bind_stored,
}
use neo_lloyds.Market.Syndications.{
  open_syndication, propose, withdraw, bind, require_open_syndication, must_exist, exposure_of,
}

abbrev pub with_audit : AuthContext → AuditAction → ℕ → Store → Store
with_audit ctx action subject s = record s {
  audit_log =
      s.audit_log ++ record { actor = ctx.subject_id; action = action; subject = subject } ∷ [];
}

abbrev pub opened_store : StoredSyndication → Store → Store
opened_store y s = record s {
  syndications = set y.id y s.syndications;
  allocations = set y.id [] s.allocations;
  events = set y.id [] s.events;
}

pub record Opened (ctx : AuthContext) (fresh_id listing_id : ℕ) (s : Store) (y : StoredSyndication)
    : Type 0 where
  pub listing : StoredListing
  pub found : get listing_id s.listings ≡ some listing
  pub owner : require_tenant_access ctx listing.organisation_id write ≡ ok tt
  pub listed : is_listed listing.status ≡ true
  pub free : find_by_listing listing_id s.syndications ≡ none
  pub made : y ≡ new_syndication fresh_id listing_id listing
  pub after :
      (open_syndication ctx fresh_id listing_id s).1
      ≡ with_audit ctx syndication_open fresh_id (opened_store y s)

pub open_syndication-Opened :
    (ctx : AuthContext) (fresh_id listing_id : ℕ) (s : Store) (y : StoredSyndication)
    → (open_syndication ctx fresh_id listing_id s).0 ≡ ok y
    → Opened ctx fresh_id listing_id s y
unfolding open_syndication
open_syndication-Opened ctx f l s y h = elim (Option-cases (get l s.listings)) [
  | inl missing ↦ absurd (ground arith)
  | inr (listing, found) ↦ record {
    listing = listing;
    found = found;
    owner = ground arith;
    listed = ground arith;
    free = ground arith;
    made = ground arith;
    after = ground arith;
  }
]

-- An organisation's proposal of a share.
abbrev pub own : AuthContext → ℤ → AllocationProposal
own ctx share_bps = record { organisation_id = ctx.organisation_id; share_bps = share_bps }

abbrev pub placed_store : AuthContext → ℕ → Allocation → Store → Store
placed_store ctx i a s = record s {
  allocations = set i (list_at i s.allocations ++ a ∷ []) s.allocations;
  events = append_event i (event_of i ctx.subject_id proposed a) s.events;
}

pub record Placed (ctx : AuthContext) (i : ℕ) (share : ℤ) (s : Store) (updated : List Allocation)
    : Type 0 where
  pub syndication : StoredSyndication
  pub found : get i s.syndications ≡ some syndication
  pub opened : is_open syndication.status ≡ true
  pub interested :
      has_live_interest ctx.organisation_id (list_at syndication.listing_id s.interests) ≡ true
  pub accepted :
      propose_allocation
        (list_at i s.allocations)
        (own ctx share)
        syndication.capacity
        (exposure_of (get ctx.organisation_id s.appetites))
      ≡ ok updated
  pub added : Allocation
  pub is_own : find_allocation ctx.organisation_id updated ≡ some added
  pub commitment : CapitalCommitment
  pub committed : get ctx.organisation_id s.commitments ≡ some commitment
  pub position : CapitalPosition
  pub computed :
      compute_position commitment
        (allocations_for_organisation ctx.organisation_id s.syndications s.allocations)
      ≡ ok position
  pub within : require_capacity_for_proposal position added.amount ≡ ok tt
  pub after :
      (propose ctx i share s).1 ≡ with_audit ctx allocation_propose i (placed_store ctx i added s)

module _ (ctx : AuthContext) (i : ℕ) (share : ℤ) (s : Store) where
  -- The values that the method has computed, one after the other.
  pub propose-Placed :
      (updated : List Allocation)
      → (propose ctx i share s).0 ≡ ok updated
      → Placed ctx i share s updated
  unfolding propose require_open_syndication must_exist add_allocation
  propose-Placed updated h = elim (Option-cases (get i s.syndications)) [
    | inl missing ↦ absurd (ground arith)
    | inr (y, found) ↦ elim (Option-cases (find_allocation ctx.organisation_id updated)) [
      | inl missing ↦ absurd (ground arith)
      | inr (a, mine) ↦ elim (Option-cases (get ctx.organisation_id s.commitments)) [
        | inl missing ↦ absurd (ground arith)
        | inr (k, committed) ↦
            elim (Result-cases (
              compute_position k
                (allocations_for_organisation ctx.organisation_id s.syndications s.allocations))) [
                  | inl (e, failed) ↦ absurd (ground arith)
                  | inr (p, computed) ↦ record {
                    syndication = y;
                    found = found;
                    opened = ground arith;
                    interested = ground arith;
                    accepted = ground arith;
                    added = a;
                    is_own = mine;
                    commitment = k;
                    committed = committed;
                    position = p;
                    computed = computed;
                    within = ground arith;
                    after = ground arith;
                  }
                ]
      ]
    ]
  ]

abbrev pub withdrawn_store : AuthContext → ℕ → Store → Store
withdrawn_store ctx i s = record s {
  allocations = set i (without ctx.organisation_id (list_at i s.allocations)) s.allocations;
  events =
      record_removal i ctx.subject_id
        (find_allocation ctx.organisation_id (list_at i s.allocations)) s.events;
}

pub record Withdrawn (ctx : AuthContext) (i : ℕ) (s : Store) : Type 0 where
  pub syndication : StoredSyndication
  pub found : get i s.syndications ≡ some syndication
  pub opened : is_open syndication.status ≡ true
  pub rest : List Allocation
  pub held : remove_allocation (list_at i s.allocations) ctx.organisation_id ≡ ok rest
  pub after : (withdraw ctx i s).1 ≡ with_audit ctx allocation_withdraw i (withdrawn_store ctx i s)

pub withdraw-Withdrawn :
    (ctx : AuthContext) (i : ℕ) (s : Store) → (withdraw ctx i s).0 ≡ ok tt → Withdrawn ctx i s
unfolding withdraw require_open_syndication must_exist remove_stored
withdraw-Withdrawn ctx i s h = elim (Option-cases (get i s.syndications)) [
  | inl missing ↦ absurd (ground arith)
  | inr (y, found) ↦
      elim (Result-cases (remove_allocation (list_at i s.allocations) ctx.organisation_id)) [
        | inl (e, failed) ↦ absurd (ground arith)
        | inr (rest, held) ↦ record {
          syndication = y;
          found = found;
          opened = ground arith;
          rest = rest;
          held = held;
          after = ground arith;
        }
      ]
]

abbrev pub bound_store : AuthContext → ℕ → ℕ → StoredSyndication → List Allocation → Store → Store
bound_store ctx i now y final s = record s {
  allocations = set i final s.allocations;
  events = append_bound i ctx.subject_id final s.events;
  syndications = set i (bound_syndication now y) s.syndications;
  listings = set_listing_status y.listing_id matched now s.listings;
}

pub record Bound (ctx : AuthContext) (i now : ℕ) (s : Store) (z : StoredSyndication) : Type 0 where
  pub syndication : StoredSyndication
  pub found : get i s.syndications ≡ some syndication
  pub opened : is_open syndication.status ≡ true
  pub owner : require_tenant_access ctx syndication.organisation_id write ≡ ok tt
  pub final : List Allocation
  pub exact : bind_allocations (list_at i s.allocations) syndication.capacity ≡ ok final
  pub made : z ≡ bound_syndication now syndication
  pub after :
      (bind ctx i now s).1
      ≡ with_audit ctx syndication_bind i (bound_store ctx i now syndication final s)

pub bind-Bound :
    (ctx : AuthContext) (i now : ℕ) (s : Store) (z : StoredSyndication)
    → (bind ctx i now s).0 ≡ ok z
    → Bound ctx i now s z
unfolding bind require_open_syndication must_exist bind_stored
bind-Bound ctx i now s z h = elim (Option-cases (get i s.syndications)) [
  | inl missing ↦ absurd (ground arith)
  | inr (y, found) ↦ elim (Result-cases (bind_allocations (list_at i s.allocations) y.capacity)) [
    | inl (e, failed) ↦ absurd (ground arith)
    | inr (final, exact) ↦ record {
      syndication = y;
      found = found;
      opened = ground arith;
      owner = ground arith;
      final = final;
      exact = exact;
      made = ground arith;
      after = ground arith;
    }
  ]
]
