-- ===== src/Market/Listings.antt =====
-- `MarketplaceService` and `CapitalService` of apps/api/src/marketplace/marketplace.service.ts and
-- apps/api/src/capital/capital.service.ts. Fresh identifiers and the time are arguments.
use neo_lloyds.Prelude.{
  ℕ, Bool, true, false, not, Option, none, some, List, [], ◌∷◌, map, if◌then◌else◌,
}
use neo_lloyds.Prelude.Dict.{get, set}
use neo_lloyds.Double.Signed.{Double}
use neo_lloyds.Errors.{
  ok, throw_if, not_found, submission_not_ready, already_listed, listing_not_open,
}
use neo_lloyds.Money.{Money, money}
use neo_lloyds.Identity.{
  AuthContext, risk_originator, broker, capital_provider, read, write, require_any_role,
  require_tenant_access,
}
use neo_lloyds.Submission.{SubmissionStatus, ready_for_underwriting}
use neo_lloyds.Marketplace.{CapitalAppetite, matches_appetite, Ranked, rank_listings}
use neo_lloyds.Capital.{
  CapitalCommitment, AllocationContribution, CapitalPosition, ConcentrationBucket, compute_position,
  concentration_by,
}
use neo_lloyds.Service.{Action, ◌>>=◌, ◌>>◌, pure, call, gets, or_throw, modify}
use neo_lloyds.Market.Store.{
  Store, StoredNode, RiskSubmission, StoredListing, StoredInterest, open_listing, withdrawn,
  listing_create, listing_withdraw, appetite_set, interest_outside_appetite, interest_express,
  interest_withdraw, commitment_set, is_listed, terms_of,
}
use neo_lloyds.Market.Repositories.{
  list_at, set_listing_status, find_listing_by_submission, list_open_listings, put_interest,
  withdraw_interests, allocations_for_organisation,
}
use neo_lloyds.Market.Syndications.{audit, is_some}
use neo_lloyds.Market.Underwritings.{require_clearance}

abbrev pub is_ready : SubmissionStatus → Bool
is_ready ready_for_underwriting = true
is_ready _ = false

-- The terms of a new listing that the caller chooses.
pub record ListingInput : Type 0 where
  pub risk_class : ℕ
  pub capacity : Money
  pub duration_days : Double
  pub custody_model : ℕ

-- 'ZA'; 'ZZ', which the capital service puts in the place of no listing, is 0.
abbrev pub default_jurisdiction : ℕ
default_jurisdiction = 1

-- `riskNode?.jurisdiction ?? 'ZA'`
abbrev pub jurisdiction_of : Option StoredNode → ℕ
jurisdiction_of none = default_jurisdiction
jurisdiction_of (some node) = elim node.jurisdiction [ none ↦ default_jurisdiction | some j ↦ j ]

abbrev pub new_listing :
    ℕ → AuthContext → RiskSubmission → ListingInput → Option StoredNode → StoredListing
new_listing fresh_id ctx submission input node = record {
  id = fresh_id;
  organisation_id = ctx.organisation_id;
  submission_id = submission.id;
  risk_id = submission.risk_id;
  risk_class = input.risk_class;
  jurisdiction = jurisdiction_of node;
  capacity = input.capacity;
  status = open_listing;
  duration_days = input.duration_days;
  custody_model = input.custody_model;
  closed_at = none;
}

unfoldable pub list_submission : AuthContext → ℕ → ℕ → ListingInput → Action Store StoredListing
list_submission ctx fresh_id submission_id input = do
  call (require_any_role ctx (risk_originator ∷ broker ∷ []))
  submission ← or_throw (← gets (λ s. get submission_id s.submissions)) not_found
  call (require_tenant_access ctx submission.organisation_id write)
  call (throw_if (not (is_ready submission.status)) submission_not_ready)
  require_clearance ctx submission.risk_id
  existing ← gets (λ s. find_listing_by_submission submission.id s.listings)
  call (throw_if (is_some existing) already_listed)
  node ← gets (λ s. get submission.risk_id s.nodes)
  let listing = new_listing fresh_id ctx submission input node
  modify (λ s. record s { listings = set fresh_id listing s.listings })
  audit ctx listing_create fresh_id
  pure listing

unfoldable pub withdraw_listing : AuthContext → ℕ → ℕ → Action Store (Unit {0})
withdraw_listing ctx listing_id now = do
  listing ← or_throw (← gets (λ s. get listing_id s.listings)) not_found
  call (require_tenant_access ctx listing.organisation_id write)
  modify (λ s. record s { listings = set_listing_status listing_id withdrawn now s.listings })
  audit ctx listing_withdraw listing_id

unfoldable pub get_listing : AuthContext → ℕ → Action Store StoredListing
get_listing ctx id = do
  listing ← or_throw (← gets (λ s. get id s.listings)) not_found
  call (
      if is_listed listing.status
      then ok tt
      else require_tenant_access ctx listing.organisation_id read)
  pure listing

unfoldable pub set_appetite : AuthContext → CapitalAppetite → Action Store CapitalAppetite
set_appetite ctx profile = do
  call (require_any_role ctx (capital_provider ∷ []))
  modify (λ s. record s { appetites = set ctx.organisation_id profile s.appetites })
  audit ctx appetite_set ctx.organisation_id
  pure profile

unfoldable pub matching_listings : AuthContext → Action Store (List Ranked)
matching_listings ctx = do
  appetite ← or_throw (← gets (λ s. get ctx.organisation_id s.appetites)) not_found
  listings ← gets (λ s. list_open_listings none none s.listings)
  call (rank_listings (map terms_of listings) appetite)

-- A mismatch with a declared appetite is recorded, and refuses nothing.
unfoldable pub note_mismatch :
    AuthContext → ℕ → StoredListing → Option CapitalAppetite → Action Store (Unit {0})
note_mismatch ctx listing_id listing none = pure tt
note_mismatch ctx listing_id listing (some appetite) = do
  found ← call (matches_appetite (terms_of listing) appetite)
  if found.matches then pure tt else audit ctx interest_outside_appetite listing_id

unfoldable pub express_interest : AuthContext → ℕ → Money → Action Store StoredInterest
unfolding note_mismatch
express_interest ctx listing_id indicative_amount = do
  call (require_any_role ctx (capital_provider ∷ []))
  listing ← or_throw (← gets (λ s. get listing_id s.listings)) not_found
  call (throw_if (not (is_listed listing.status)) listing_not_open)
  appetite ← gets (λ s. get ctx.organisation_id s.appetites)
  note_mismatch ctx listing_id listing appetite
  let interest : StoredInterest = record {
    listing_id = listing_id;
    organisation_id = ctx.organisation_id;
    indicative_amount = indicative_amount;
    withdrawn_at = none;
  }
  modify (λ s. record s { interests = put_interest interest s.interests })
  -- The text of the audit record builds the amount anew, which throws for one that is no money.
  _ ← call (money indicative_amount.amount_minor indicative_amount.currency)
  audit ctx interest_express listing_id
  pure interest

unfoldable pub withdraw_interest : AuthContext → ℕ → ℕ → Action Store (Unit {0})
withdraw_interest ctx listing_id now = do
  modify (λ s. record s {
    interests = withdraw_interests listing_id ctx.organisation_id now s.interests;
  })
  audit ctx interest_withdraw listing_id

unfoldable pub list_interests : AuthContext → ℕ → Action Store (List StoredInterest)
list_interests ctx listing_id = do
  listing ← or_throw (← gets (λ s. get listing_id s.listings)) not_found
  call (require_tenant_access ctx listing.organisation_id read)
  gets (λ s. list_at listing_id s.interests)

unfoldable pub set_commitment : AuthContext → Money → Action Store CapitalCommitment
set_commitment ctx committed = do
  call (require_any_role ctx (capital_provider ∷ []))
  let after : CapitalCommitment = record {
    organisation_id = ctx.organisation_id;
    committed = committed;
  }
  modify (λ s. record s { commitments = set ctx.organisation_id after s.commitments })
  audit ctx commitment_set ctx.organisation_id
  pure after

unfoldable pub get_commitment : AuthContext → Action Store CapitalCommitment
get_commitment ctx = do or_throw (← gets (λ s. get ctx.organisation_id s.commitments)) not_found

-- The details of the listing, or 'UNKNOWN', 'ZZ' and 'UNKNOWN': the entries of the repository have 0,
-- which stands for these.
abbrev pub enriched : Option StoredListing → AllocationContribution → AllocationContribution
enriched none item = item
enriched (some listing) item = record item {
  risk_class = listing.risk_class;
  jurisdiction = listing.jurisdiction;
  counterparty_organisation_id = listing.organisation_id;
}

unfoldable pub contributions : ℕ → Store → List AllocationContribution
contributions organisation_id s =
    map (λ (item : AllocationContribution). enriched (get item.listing_id s.listings) item)
      (allocations_for_organisation organisation_id s.syndications s.allocations)

unfoldable pub position : AuthContext → Action Store CapitalPosition
unfolding get_commitment contributions
position ctx = do
  call (require_any_role ctx (capital_provider ∷ []))
  commitment ← get_commitment ctx
  held ← gets (contributions ctx.organisation_id)
  call (compute_position commitment held)

pub data Dimension : Type 0 where
  by_risk_class by_jurisdiction by_counterparty : Dimension

abbrev pub key_of : Dimension → AllocationContribution → ℕ
key_of by_risk_class c = c.risk_class
key_of by_jurisdiction c = c.jurisdiction
key_of by_counterparty c = c.counterparty_organisation_id

unfoldable pub concentration : AuthContext → Dimension → Action Store (List ConcentrationBucket)
unfolding get_commitment contributions
concentration ctx dimension = do
  call (require_any_role ctx (capital_provider ∷ []))
  commitment ← get_commitment ctx
  held ← gets (contributions ctx.organisation_id)
  call (concentration_by held (key_of dimension) commitment.committed.currency)
