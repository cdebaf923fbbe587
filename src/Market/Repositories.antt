-- ===== src/Market/Repositories.antt =====
-- The repositories of the market, `InMemoryMarketplaceRepository`, `InMemorySyndicationRepository`
-- and `InMemoryCapitalRepository` of apps/api/src/persistence/in-memory.ts.
use neo_lloyds.Prelude.{
  ℕ, Bool, true, false, not, ◌&&◌, Option, none, some, List, [], ◌∷◌, ◌++◌, ◌==◌, map,
  if◌then◌else◌,
}
use neo_lloyds.Prelude.Dict.{Dict, get, set}
use neo_lloyds.Errors.{throw_if, not_found, syndication_not_open}
use neo_lloyds.Syndication.{Allocation, without}
use neo_lloyds.Capital
use neo_lloyds.Capital.{open_status, AllocationContribution}
use neo_lloyds.Service.{Action, ◌>>=◌, ◌>>◌, pure, call, gets, or_throw, modify}
use neo_lloyds.Market.Store.{
  Store, StoredListing, ListingStatus, StoredInterest, StoredSyndication, AllocationEvent,
  EventAction, proposed, removed, bound, AuditEntry, is_open, is_listed,
}

-- `map.get(key) ?? []`
abbrev pub or_nil {ℓ} : {A : Type ℓ} → Option (List A) → List A
or_nil none = []
or_nil (some l) = l

abbrev pub list_at {ℓ} : {A : Type ℓ} → ℕ → Dict (List A) → List A
list_at k d = or_nil (get k d)

abbrev pub record_audit : AuditEntry → Action Store (Unit {0})
record_audit e = modify (λ s. record s { audit_log = s.audit_log ++ e ∷ [] })

-- `listing.status = status`, for a listing that is there.
abbrev pub closed : ListingStatus → ℕ → StoredListing → StoredListing
closed status at listing = record listing { status = status; closed_at = some at }

unfoldable pub set_listing_status : ℕ → ListingStatus → ℕ → Dict StoredListing → Dict StoredListing
set_listing_status i status at listings = elim (get i listings) [
  | none ↦ listings
  | some listing ↦ set i (closed status at listing) listings
]

unfoldable pub find_listing_by_submission : ℕ → Dict StoredListing → Option StoredListing
find_listing_by_submission i [] = none
find_listing_by_submission i ((_, l) ∷ rest) =
    if l.submission_id == i then some l else find_listing_by_submission i rest

-- An absent part of the filter admits every listing.
abbrev pub admits : Option ℕ → ℕ → Bool
admits none x = true
admits (some wanted) x = x == wanted

unfoldable pub list_open_listings : Option ℕ → Option ℕ → Dict StoredListing → List StoredListing
list_open_listings risk_class jurisdiction [] = []
list_open_listings risk_class jurisdiction ((_, l) ∷ rest) =
    if is_listed l.status && (admits risk_class l.risk_class && admits jurisdiction l.jurisdiction)
    then l ∷ list_open_listings risk_class jurisdiction rest
    else list_open_listings risk_class jurisdiction rest

unfoldable pub without_interest : ℕ → List StoredInterest → List StoredInterest
without_interest o [] = []
without_interest o (i ∷ rest) =
    if i.organisation_id == o then without_interest o rest else i ∷ without_interest o rest

-- One interest for each organisation: a new one replaces what was there.
unfoldable pub put_interest :
    StoredInterest → Dict (List StoredInterest) → Dict (List StoredInterest)
put_interest i interests =
    set i.listing_id (without_interest i.organisation_id (list_at i.listing_id interests) ++ i ∷ [])
      interests

abbrev pub withdraw_own : ℕ → ℕ → StoredInterest → StoredInterest
withdraw_own o at i = if i.organisation_id == o then record i { withdrawn_at = some at } else i

unfoldable pub withdraw_interests :
    ℕ → ℕ → ℕ → Dict (List StoredInterest) → Dict (List StoredInterest)
withdraw_interests listing_id o at interests =
    set listing_id (map (withdraw_own o at) (list_at listing_id interests)) interests

abbrev pub is_live : Option ℕ → Bool
is_live none = true
is_live (some at) = false

unfoldable pub has_live_interest : ℕ → List StoredInterest → Bool
has_live_interest o [] = false
has_live_interest o (i ∷ rest) =
    if (i.organisation_id == o) && is_live i.withdrawn_at then true else has_live_interest o rest

unfoldable pub find_by_listing : ℕ → Dict StoredSyndication → Option StoredSyndication
find_by_listing i [] = none
find_by_listing i ((_, y) ∷ rest) = if y.listing_id == i then some y else find_by_listing i rest

abbrev pub new_syndication : ℕ → ℕ → StoredListing → StoredSyndication
new_syndication fresh_id listing_id listing = record {
  id = fresh_id;
  listing_id = listing_id;
  organisation_id = listing.organisation_id;
  capacity = listing.capacity;
  status = open_status;
  bound_at = none;
}

abbrev pub create : StoredSyndication → Action Store StoredSyndication
create y = do
  modify (λ s. record s {
    syndications = set y.id y s.syndications;
    allocations = set y.id [] s.allocations;
    events = set y.id [] s.events;
  })
  pure y

-- `appendEvent`
unfoldable pub append_event :
    ℕ → AllocationEvent → Dict (List AllocationEvent) → Dict (List AllocationEvent)
append_event i e events = set i (list_at i events ++ e ∷ []) events

abbrev pub event_of : ℕ → ℕ → EventAction → Allocation → AllocationEvent
event_of i actor action a = record {
  syndication_id = i;
  organisation_id = a.organisation_id;
  action = action;
  share_bps = a.share_bps;
  amount = a.amount;
  actor_subject_id = actor;
}

-- `syndication?.status !== 'OPEN'`
abbrev pub is_open_syndication : Option StoredSyndication → Bool
is_open_syndication none = false
is_open_syndication (some y) = is_open y.status

abbrev pub require_open : ℕ → Action Store (Unit {0})
require_open i = do
  found ← gets (λ s. get i s.syndications)
  call (throw_if (not (is_open_syndication found)) syndication_not_open)

unfoldable pub add_allocation : ℕ → Allocation → ℕ → Action Store (Unit {0})
unfolding append_event
add_allocation i a actor = do
  require_open i
  modify (λ s. record s {
    allocations = set i (list_at i s.allocations ++ a ∷ []) s.allocations;
    events = append_event i (event_of i actor proposed a) s.events;
  })

-- `list.find((a) => a.organisationId === organisationId)`
unfoldable pub find_allocation : ℕ → List Allocation → Option Allocation
find_allocation o [] = none
find_allocation o (a ∷ rest) = if a.organisation_id == o then some a else find_allocation o rest

-- `if (removed) this.appendEvent(…)`
abbrev pub record_removal :
    ℕ → ℕ → Option Allocation → Dict (List AllocationEvent) → Dict (List AllocationEvent)
record_removal i actor none events = events
record_removal i actor (some a) events = append_event i (event_of i actor removed a) events

unfoldable pub remove_stored : ℕ → ℕ → ℕ → Action Store (Unit {0})
unfolding find_allocation append_event
remove_stored i o actor = do
  require_open i
  modify (λ s. record s {
    allocations = set i (without o (list_at i s.allocations)) s.allocations;
    events = record_removal i actor (find_allocation o (list_at i s.allocations)) s.events;
  })

unfoldable pub append_bound :
    ℕ → ℕ → List Allocation → Dict (List AllocationEvent) → Dict (List AllocationEvent)
unfolding append_event
append_bound i actor [] events = events
append_bound i actor (a ∷ rest) events =
    append_bound i actor rest (append_event i (event_of i actor bound a) events)

abbrev pub bound_syndication : ℕ → StoredSyndication → StoredSyndication
bound_syndication at y = record y { status = Capital.bound; bound_at = some at }

unfoldable pub bind_stored : ℕ → List Allocation → ℕ → ℕ → Action Store StoredSyndication
unfolding append_bound
bind_stored i final_allocations actor at = do
  y ← or_throw (← gets (λ s. get i s.syndications)) not_found
  modify (λ s. record s {
    allocations = set i final_allocations s.allocations;
    events = append_bound i actor final_allocations s.events;
    syndications = set i (bound_syndication at y) s.syndications;
  })
  pure (bound_syndication at y)

-- The entries of one syndication that belong to an organisation. The class, the jurisdiction and the
-- counterparty are not its own: 0 stands for 'UNSPECIFIED' and 'ZZ', which `propose` puts there.
unfoldable pub contributions_from :
    ℕ → ℕ → StoredSyndication → List Allocation → List AllocationContribution
contributions_from o i y [] = []
contributions_from o i y (a ∷ rest) =
    if a.organisation_id == o
    then (record {
      syndication_id = i;
      status = y.status;
      listing_id = y.listing_id;
      risk_class = 0;
      jurisdiction = 0;
      counterparty_organisation_id = 0;
      amount = a.amount;
    })
      ∷ contributions_from o i y rest
    else contributions_from o i y rest

-- `if (!syndication) continue`
unfoldable pub allocations_for_organisation :
    ℕ → Dict StoredSyndication → Dict (List Allocation) → List AllocationContribution
unfolding contributions_from
allocations_for_organisation o syndications [] = []
allocations_for_organisation o syndications ((i, l) ∷ rest) = elim (get i syndications) [
  | none ↦ allocations_for_organisation o syndications rest
  | some y ↦ contributions_from o i y l ++ allocations_for_organisation o syndications rest
]
