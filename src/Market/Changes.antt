-- ===== src/Market/Changes.antt =====
-- What a call may do to the syndications, their allocations and their events: nothing, or one of the
-- four writes of the syndication service with what it has tested.
use neo_lloyds.Prelude.{
  ℕ, ◌≡◌, refl, true, Option, none, some, List, [], ◌∷◌, ◌++◌, arith, inl, inr,
}
use neo_lloyds.Prelude.Dict.{get, set}
use neo_lloyds.Prelude.Int.{ℤ}
use neo_lloyds.Errors.{ok, Result-cases}
use neo_lloyds.Money.{Money}
use neo_lloyds.Identity.{AuthContext}
use neo_lloyds.Syndication.{
  AllocationProposal, Allocation, propose_allocation, remove_allocation, bind_allocations, without,
}
use neo_lloyds.Capital.{open_status}
use neo_lloyds.Market.Store.{
  Store, StoredSyndication, StoredListing, is_open, proposed, syndication_open,
}
use neo_lloyds.Market.Repositories.{
  list_at, find_by_listing, append_event, event_of, find_allocation, record_removal, append_bound,
  bound_syndication, new_syndication,
}
use neo_lloyds.Market.Underwritings
use neo_lloyds.Market.Listings
use neo_lloyds.Market.Listings.{note_mismatch, ListingInput}
use neo_lloyds.Submission.{SubmissionStatus}
use neo_lloyds.Scoring.{RiskFactorsInput}
use neo_lloyds.Underwriting.{ApprovalThresholds, UnderwritingDecision}
use neo_lloyds.Marketplace.{CapitalAppetite}
use neo_lloyds.Market.Syndications
use neo_lloyds.Market.Syndications.{exposure_of}
use neo_lloyds.Market.Effects.{
  open_syndication-Opened, propose-Placed, withdraw-Withdrawn, bind-Bound, own, with_audit,
  opened_store,
}
use neo_lloyds.Market.Atomic.{open_syndication_atomic, propose_atomic, withdraw_atomic, bind_atomic}
use neo_lloyds.Market.Calls.{
  Call, create_submission, advance_submission, assess, approve, list_submission, withdraw_listing,
  set_appetite, express_interest, withdraw_interest, set_commitment, open_syndication, propose,
  withdraw, bind, run, IsFresh,
}

pub record SameBooks (s t : Store) : Type 0 where
  pub syndications : t.syndications ≡ s.syndications
  pub allocations : t.allocations ≡ s.allocations
  pub events : t.events ≡ s.events

pub record OpenedBook (y : StoredSyndication) (s t : Store) : Type 0 where
  pub fresh : get y.id s.syndications ≡ none
  pub free : find_by_listing y.listing_id s.syndications ≡ none
  pub opened : y.status ≡ open_status
  pub syndications : t.syndications ≡ set y.id y s.syndications
  pub allocations : t.allocations ≡ set y.id [] s.allocations
  pub events : t.events ≡ set y.id [] s.events

-- The syndication `i` is `y`, and open.
pub record IsOpenAt (i : ℕ) (y : StoredSyndication) (s : Store) : Type 0 where
  pub found : get i s.syndications ≡ some y
  pub opened : is_open y.status ≡ true

pub record PlacedBook (i : ℕ) (y : StoredSyndication) (actor : ℕ) (p : AllocationProposal)
    (limit : Option Money) (a : Allocation) (updated : List Allocation) (s t : Store) : Type 0 where
  pub at : IsOpenAt i y s
  pub accepted : propose_allocation (list_at i s.allocations) p y.capacity limit ≡ ok updated
  pub is_own : find_allocation p.organisation_id updated ≡ some a
  pub syndications : t.syndications ≡ s.syndications
  pub allocations : t.allocations ≡ set i (list_at i s.allocations ++ a ∷ []) s.allocations
  pub events : t.events ≡ append_event i (event_of i actor proposed a) s.events

pub record WithdrawnBook (i : ℕ) (y : StoredSyndication) (actor o : ℕ) (rest : List Allocation)
    (s t : Store) : Type 0 where
  pub at : IsOpenAt i y s
  pub held : remove_allocation (list_at i s.allocations) o ≡ ok rest
  pub syndications : t.syndications ≡ s.syndications
  pub allocations : t.allocations ≡ set i (without o (list_at i s.allocations)) s.allocations
  pub events :
      t.events ≡ record_removal i actor (find_allocation o (list_at i s.allocations)) s.events

pub record BoundBook (i : ℕ) (y : StoredSyndication) (actor now : ℕ) (final : List Allocation)
    (s t : Store) : Type 0 where
  pub at : IsOpenAt i y s
  pub exact : bind_allocations (list_at i s.allocations) y.capacity ≡ ok final
  pub syndications : t.syndications ≡ set i (bound_syndication now y) s.syndications
  pub allocations : t.allocations ≡ set i final s.allocations
  pub events : t.events ≡ append_bound i actor final s.events

pub data Change (s t : Store) : Type 0 where
  same : SameBooks s t → Change s t
  opened : (y : StoredSyndication) → OpenedBook y s t → Change s t
  placed :
      (i : ℕ) (y : StoredSyndication) (actor : ℕ) (p : AllocationProposal) (limit : Option Money)
      (a : Allocation) (updated : List Allocation)
      → PlacedBook i y actor p limit a updated s t
      → Change s t
  withdrawn :
      (i : ℕ) (y : StoredSyndication) (actor o : ℕ) (rest : List Allocation)
      → WithdrawnBook i y actor o rest s t
      → Change s t
  bound :
      (i : ℕ) (y : StoredSyndication) (actor now : ℕ) (final : List Allocation)
      → BoundBook i y actor now final s t
      → Change s t

same_of : (s t : Store) → t ≡ s → SameBooks s t
same_of s t e = ground arith

opened_book :
    (ctx : AuthContext) (f l : ℕ) (s : Store) (y : StoredSyndication) (listing : StoredListing)
    → get f s.syndications ≡ none
    → find_by_listing l s.syndications ≡ none
    → y ≡ new_syndication f l listing
    → (t : Store) → t ≡ with_audit ctx syndication_open f (opened_store y s)
    → OpenedBook y s t
opened_book ctx f l s y listing fresh free made t after = record {
  fresh = ground arith;
  free = ground arith;
  opened = ground arith;
  syndications = ground arith;
  allocations = ground arith;
  events = ground arith;
}

open_syndication-Change :
    (ctx : AuthContext) (f l : ℕ) (s : Store)
    → get f s.syndications ≡ none
    → Change s (Syndications.open_syndication ctx f l s).1
open_syndication-Change ctx f l s fresh =
    elim (Result-cases (Syndications.open_syndication ctx f l s).0) [
      | inl (e, h) ↦ same (same_of s _ (open_syndication_atomic ctx s e f l h))
      | inr (y, h) ↦
          let done = open_syndication-Opened ctx f l s y h in
          opened y (opened_book ctx f l s y done.listing fresh done.free done.made _ done.after)
    ]

propose-Change :
    (ctx : AuthContext) (i : ℕ) (share : ℤ) (s : Store)
    → Change s (Syndications.propose ctx i share s).1
propose-Change ctx i share s = elim (Result-cases (Syndications.propose ctx i share s).0) [
  | inl (e, h) ↦ same (same_of s _ (propose_atomic ctx s e i share h))
  | inr (updated, h) ↦
      let done = propose-Placed ctx i share s updated h in
      placed i done.syndication ctx.subject_id (own ctx share)
        (exposure_of (get ctx.organisation_id s.appetites)) done.added updated
        (record {
          at = record { found = done.found; opened = done.opened };
          accepted = done.accepted;
          is_own = done.is_own;
          syndications = rw done.after refl;
          allocations = rw done.after refl;
          events = rw done.after refl;
        })
]

withdraw-Change :
    (ctx : AuthContext) (i : ℕ) (s : Store) → Change s (Syndications.withdraw ctx i s).1
withdraw-Change ctx i s = elim (Result-cases (Syndications.withdraw ctx i s).0) [
  | inl (e, h) ↦ same (same_of s _ (withdraw_atomic ctx s e i h))
  | inr (u, h) ↦
      let done = withdraw-Withdrawn ctx i s (rw h refl) in
      withdrawn i done.syndication ctx.subject_id ctx.organisation_id done.rest (record {
        at = record { found = done.found; opened = done.opened };
        held = done.held;
        syndications = rw done.after refl;
        allocations = rw done.after refl;
        events = rw done.after refl;
      })
]

bind-Change :
    (ctx : AuthContext) (i now : ℕ) (s : Store) → Change s (Syndications.bind ctx i now s).1
bind-Change ctx i now s = elim (Result-cases (Syndications.bind ctx i now s).0) [
  | inl (e, h) ↦ same (same_of s _ (bind_atomic ctx s e i now h))
  | inr (z, h) ↦
      let done = bind-Bound ctx i now s z h in
      bound i done.syndication ctx.subject_id now done.final (record {
        at = record { found = done.found; opened = done.opened };
        exact = done.exact;
        syndications = rw done.after refl;
        allocations = rw done.after refl;
        events = rw done.after refl;
      })
]

-- The other services touch no syndication.
module _ (ctx : AuthContext) (s : Store) where
  create_submission-same :
      (fresh_id risk_id : ℕ)
      → SameBooks s (Underwritings.create_submission ctx fresh_id risk_id s).1
  unfolding Underwritings.create_submission
  create_submission-same fresh_id risk_id = ground arith

  advance_submission-same :
      (id : ℕ) (to : SubmissionStatus)
      → SameBooks s (Underwritings.advance_submission ctx id to s).1
  unfolding Underwritings.advance_submission
  advance_submission-same id to = ground arith

  assess-same :
      (fresh_id risk_id : ℕ) (request : RiskFactorsInput) (t : Option ApprovalThresholds)
      → SameBooks s (Underwritings.assess ctx fresh_id risk_id request t s).1
  unfolding Underwritings.assess
  assess-same fresh_id risk_id request t = ground arith

  approve-same :
      (risk_id : ℕ) (decision : UnderwritingDecision)
      → SameBooks s (Underwritings.approve ctx risk_id decision s).1
  unfolding Underwritings.approve
  approve-same risk_id decision = ground arith

  list_submission-same :
      (fresh_id id : ℕ) (input : ListingInput)
      → SameBooks s (Listings.list_submission ctx fresh_id id input s).1
  unfolding Listings.list_submission Underwritings.require_clearance
  list_submission-same fresh_id id input = ground arith

  withdraw_listing-same : (id now : ℕ) → SameBooks s (Listings.withdraw_listing ctx id now s).1
  unfolding Listings.withdraw_listing
  withdraw_listing-same id now = ground arith

  set_appetite-same :
      (profile : CapitalAppetite) → SameBooks s (Listings.set_appetite ctx profile s).1
  unfolding Listings.set_appetite
  set_appetite-same profile = ground arith

  express_interest-same :
      (id : ℕ) (amount : Money) → SameBooks s (Listings.express_interest ctx id amount s).1
  unfolding Listings.express_interest note_mismatch
  express_interest-same id amount = ground arith

  withdraw_interest-same : (id now : ℕ) → SameBooks s (Listings.withdraw_interest ctx id now s).1
  unfolding Listings.withdraw_interest
  withdraw_interest-same id now = ground arith

  set_commitment-same :
      (committed : Money) → SameBooks s (Listings.set_commitment ctx committed s).1
  unfolding Listings.set_commitment
  set_commitment-same committed = ground arith

pub run-Change : (c : Call) (s : Store) → IsFresh c s → Change s (run c s).1
run-Change (create_submission ctx f r) s u = same (create_submission-same ctx s f r)
run-Change (advance_submission ctx i to) s u = same (advance_submission-same ctx s i to)
run-Change (assess ctx f r request t) s u = same (assess-same ctx s f r request t)
run-Change (approve ctx r decision) s u = same (approve-same ctx s r decision)
run-Change (list_submission ctx f i input) s u = same (list_submission-same ctx s f i input)
run-Change (withdraw_listing ctx i now) s u = same (withdraw_listing-same ctx s i now)
run-Change (set_appetite ctx profile) s u = same (set_appetite-same ctx s profile)
run-Change (express_interest ctx i amount) s u = same (express_interest-same ctx s i amount)
run-Change (withdraw_interest ctx i now) s u = same (withdraw_interest-same ctx s i now)
run-Change (set_commitment ctx committed) s u = same (set_commitment-same ctx s committed)
run-Change (open_syndication ctx f l) s u = open_syndication-Change ctx f l s u
run-Change (propose ctx i share) s u = propose-Change ctx i share s
run-Change (withdraw ctx i) s u = withdraw-Change ctx i s
run-Change (bind ctx i now) s u = bind-Change ctx i now s
