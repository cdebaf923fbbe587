-- ===== src/Tests/Market.antt =====
-- Tests of the market, on a listing of ten dollars that organisation 1 owns, with two providers.
use neo_lloyds.Prelude.{
  ℕ, ◌≡◌, refl, List, [], ◌∷◌, none, some, true, false, arith, ◌==◌, Bool-cases, inl, inr,
}
use neo_lloyds.Prelude.Int.{pos, ◌+ℤ◌, ◌-ℤ◌, ◌≤ℤ◌}
use neo_lloyds.Prelude.Dict.{get, set}
use neo_lloyds.Double.{units, half_units, excess, round_half_even, nearest}
use neo_lloyds.Double.Signed.{of_int, multiply, divide, round}
use neo_lloyds.Errors.{ok, err, not_found, invalid_money}
use neo_lloyds.Identity.{
  AuthContext, MarketRole, user, risk_originator, capital_provider, require_any_role, has_any_role,
  includes_role, require_tenant_access, write,
}
use neo_lloyds.Money.{
  Money, money, matches_currency_pattern, scale_money, add_money, subtract_money, compare_money,
  assert_same_currency, is_zero,
}
use neo_lloyds.Syndication.{
  Allocation, total_share_bps, has_allocation, propose_allocation, assert_valid_share,
  check_exposure,
}
use neo_lloyds.Capital
use neo_lloyds.Capital.{
  CapitalCommitment, open_status, compute_position, add_contributions, add_contribution,
  available_of, ratio_bps, require_capacity_for_proposal,
}
use neo_lloyds.Market.Store.{
  Store, StoredListing, StoredInterest, StoredSyndication, open_listing, withdrawn, matched,
}
use neo_lloyds.Market.Repositories.{
  has_live_interest, find_allocation, bound_syndication, add_allocation, append_event,
  allocations_for_organisation, contributions_from, closed,
}
use neo_lloyds.Market.Syndications
use neo_lloyds.Market.Syndications.{must_exist, require_open_syndication}
use neo_lloyds.Market.Listings
use neo_lloyds.Market.Calls.{open_syndication, run, step, Reach, here, next}
use neo_lloyds.Market.Valid.{AllValid, IsSyndicate-empty}
use neo_lloyds.Market.Exact.{IsSplittable}
use neo_lloyds.Market.Replay.{replay, replay_onto}
use neo_lloyds.Market.Invariant.{IsMarket, Reach-IsMarket}
use neo_lloyds.Market.Frozen.{IsBook, Reach-IsBook}
use neo_lloyds.Market.Spec.{Refines, book_at}
use neo_lloyds.Market.Refinement.{run-Refines}
use neo_lloyds.Market.Commitment.{exposure, propose-within_commitment}
use neo_lloyds.Market.Progress.{IsFull, MayBind, IsBoundAt, bind_completes}
use neo_lloyds.Market.Interests.{interested, interests_exact}
use neo_lloyds.Market.Flaws.{MayExpress, express_interest_not_atomic, withdraw_listing-bind}
use neo_lloyds.Market.Throws.{run_atomic}
use neo_lloyds.Tests.{dollars, dollars_coded}
use neo_lloyds.Tests.Syndication.{share, first, both, both-IsSyndicate, both-full}

abbrev pub caller : ℕ → MarketRole → AuthContext
caller o role = record {
  organisation_id = o;
  subject_id = 7;
  subject_kind = user;
  roles = role ∷ [];
  scopes = [];
  mandate = none;
}

abbrev pub originator : AuthContext
originator = caller 1 risk_originator

abbrev provider : AuthContext
provider = caller 2 capital_provider

abbrev listing : StoredListing
listing = record {
  id = 5;
  organisation_id = 1;
  submission_id = 4;
  risk_id = 3;
  risk_class = 0;
  jurisdiction = 0;
  capacity = dollars 1000;
  status = open_listing;
  duration_days = pos 0;
  custody_model = 0;
  closed_at = none;
}

abbrev interest : StoredInterest
interest = record {
  listing_id = 5;
  organisation_id = 2;
  indicative_amount = dollars 400;
  withdrawn_at = none;
}

abbrev commitment : CapitalCommitment
commitment = record { organisation_id = 2; committed = dollars 500 }

abbrev syndication : StoredSyndication
syndication = record {
  id = 9;
  listing_id = 5;
  organisation_id = 1;
  capacity = dollars 1000;
  status = open_status;
  bound_at = none;
}

abbrev listed : Store
listed = record {
  nodes = [];
  submissions = [];
  assessments = [];
  approvals = [];
  listings = (5, listing) ∷ [];
  appetites = [];
  interests = (5, interest ∷ []) ∷ [];
  syndications = [];
  allocations = [];
  events = [];
  commitments = (2, commitment) ∷ [];
  audit_log = [];
}

abbrev syndicated : StoredSyndication → List Allocation → Store
syndicated y l = record listed { syndications = (9, y) ∷ []; allocations = (9, l) ∷ [] }

abbrev bound_one : StoredSyndication
bound_one = bound_syndication 8 syndication

listed-IsMarket : IsMarket listed
unfolding get total_share_bps replay replay_onto
listed-IsMarket = record {
  valid = λ i. record { shares = tt; ceiling = omega arith; distinct = tt };
  replayed = λ i. refl;
  exact = λ i y found. cc found;
  one_each = λ i j y z p. cc p;
}

-- The syndication is opened.
opening : Reach listed (run (open_syndication originator 9 5) listed).1
unfolding get
opening = next here (step (open_syndication originator 9 5) refl)

Reach-IsMarket_example : IsMarket (run (open_syndication originator 9 5) listed).1
Reach-IsMarket_example =
    Reach-IsMarket listed (run (open_syndication originator 9 5) listed).1 opening listed-IsMarket

nothing_yet : get 9 listed.syndications ≡ none
unfolding get
nothing_yet = refl

run-Refines_example :
    Refines (book_at 9 listed) (book_at 9 (run (open_syndication originator 9 5) listed).1)
run-Refines_example =
    run-Refines listed (open_syndication originator 9 5) nothing_yet listed-IsMarket 9

abbrev finished : Store
finished = syndicated bound_one both

bound_found : get 9 finished.syndications ≡ some bound_one
unfolding get
bound_found = refl

reopening : Reach finished (run (open_syndication originator 8 5) finished).1
unfolding get
reopening = next here (step (open_syndication originator 8 5) refl)

Reach-IsBook_example :
    IsBook 9 bound_one finished (run (open_syndication originator 8 5) finished).1
Reach-IsBook_example =
    Reach-IsBook 9 bound_one finished (run (open_syndication originator 8 5) finished).1 bound_found
      refl reopening

refused_open : (run (open_syndication originator 8 6) finished).0 ≡ err not_found
unfolding Syndications.open_syndication get require_any_role has_any_role includes_role
refused_open = refl

run_atomic_example : (run (open_syndication originator 8 6) finished).1 ≡ finished
run_atomic_example = run_atomic (open_syndication originator 8 6) finished not_found tt refused_open

-- 40 % of ten dollars, with five committed.
abbrev partly : Store
partly = syndicated syndication first

proposed_second : (Syndications.propose provider 9 (pos 4000) partly).0 ≡ ok both
unfolding Syndications.propose must_exist require_open_syndication get require_any_role has_any_role
    includes_role has_live_interest find_allocation propose_allocation assert_valid_share
    total_share_bps has_allocation check_exposure scale_money of_int multiply divide round units
    half_units nearest excess round_half_even money matches_currency_pattern ◌+ℤ◌ compute_position
    add_contributions add_contribution available_of ratio_bps add_money subtract_money compare_money
    assert_same_currency is_zero require_capacity_for_proposal Capital.assert_same_currency
    allocations_for_organisation contributions_from add_allocation append_event set ◌-ℤ◌
proposed_second = refl

own_second : find_allocation 2 both ≡ some (share 2 4000 400)
unfolding find_allocation
own_second = refl

committed_second : get 2 partly.commitments ≡ some commitment
unfolding get
committed_second = refl

propose-within_commitment_example :
    exposure 2 (Syndications.propose provider 9 (pos 4000) partly).1 ≤ℤ pos 500
propose-within_commitment_example =
    propose-within_commitment provider 9 (pos 4000) partly both (share 2 4000 400) commitment
      proposed_second own_second (omega arith) committed_second

abbrev full : Store
full = syndicated syndication both

full-AllValid : AllValid full
unfolding get
full-AllValid i = elim (Bool-cases (9 == i)) [
  | inl hit ↦ rw hit both-IsSyndicate
  | inr miss ↦ rw miss IsSyndicate-empty
]

full_found : get 9 full.syndications ≡ some syndication
unfolding get
full_found = refl

ten_dollars : IsSplittable (dollars 1000)
ten_dollars = record { valid = record { safe = refl; coded = dollars_coded }; small = omega arith }

full-IsFull : IsFull 9 full syndication
unfolding get
full-IsFull = record { found = refl; opened = refl; full = both-full; splittable = ten_dollars }

originator-MayBind : MayBind originator 1
unfolding require_any_role has_any_role includes_role require_tenant_access
originator-MayBind = record { role = refl; owner = refl }

bind_completes_example :
    ((Syndications.bind originator 9 8 full).0 ≡ ok bound_one)
    × IsBoundAt 9 8 syndication (Syndications.bind originator 9 8 full).1
bind_completes_example =
    bind_completes originator 9 8 full syndication full-AllValid full-IsFull originator-MayBind

expressed : (Listings.express_interest provider 5 (dollars 400) listed).0 ≡ ok interest
unfolding Listings.express_interest Listings.note_mismatch get require_any_role has_any_role
    includes_role money
expressed = rw dollars_coded refl

interests_exact_example :
    (interested 2 5 (Listings.express_interest provider 5 (dollars 400) listed).1 ≡ true)
    × (interested 2 5 (Listings.withdraw_interest provider 5 8 listed).1 ≡ false)
interests_exact_example = interests_exact provider 5 8 (dollars 400) listed interest expressed 2

abbrev bad_money : Money
bad_money = record { amount_minor = pos 400; currency = "usd" }

refused_money : money (pos 400) "usd" ≡ err invalid_money
unfolding money matches_currency_pattern
refused_money = refl

provider-MayExpress : MayExpress provider 5 listed listing
unfolding require_any_role has_any_role includes_role get
provider-MayExpress = record { role = refl; found = refl; listed = refl; undeclared = refl }

express_interest_not_atomic_example :
    ((Listings.express_interest provider 5 bad_money listed).0 ≡ err invalid_money)
    × (interested 2 5 (Listings.express_interest provider 5 bad_money listed).1 ≡ true)
express_interest_not_atomic_example =
    express_interest_not_atomic provider 5 bad_money listed listing invalid_money
      provider-MayExpress refused_money

listing_found : get 5 full.listings ≡ some listing
unfolding get
listing_found = refl

listing_owner : require_tenant_access originator 1 write ≡ ok tt
unfolding require_tenant_access includes_role
listing_owner = refl

withdraw_listing-bind_example :
    ((Listings.withdraw_listing originator 5 7 full).0 ≡ ok tt)
    × (get 5 (Listings.withdraw_listing originator 5 7 full).1.listings
        ≡ some (closed withdrawn 7 listing))
    × ((Syndications.bind originator 9 8 (Listings.withdraw_listing originator 5 7 full).1).0
        ≡ ok bound_one)
    × (get 5
          (Syndications.bind originator 9 8
            (Listings.withdraw_listing originator 5 7 full).1).1.listings
        ≡ some (closed matched 8 (closed withdrawn 7 listing)))
withdraw_listing-bind_example =
    withdraw_listing-bind originator 9 5 7 8 full listing syndication full-AllValid full-IsFull refl
      listing_found originator-MayBind listing_owner
