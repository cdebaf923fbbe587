-- ===== src/Market/Throws.antt =====
-- A call that throws leaves the market as it was, with one exception, which is excluded here.
use neo_lloyds.Prelude.{◌≡◌, arith}
use neo_lloyds.Errors.{ok, err, DomainError}
use neo_lloyds.Money.{money}
use neo_lloyds.Market.Store.{Store}
use neo_lloyds.Market.Underwritings
use neo_lloyds.Market.Listings
use neo_lloyds.Market.Listings.{ListingInput, note_mismatch}
use neo_lloyds.Market.Calls.{Call, express_interest, run}
use neo_lloyds.Market.Syndications
use neo_lloyds.Market.Repositories.{add_allocation, remove_stored, bind_stored}
use neo_lloyds.Market.Syndications.{require_open_syndication, must_exist}

-- An interest is expressed in valid money.
abbrev pub HasMoney : Call → Type 0
HasMoney (express_interest ctx l amount) = money amount.amount_minor amount.currency ≡ ok amount
HasMoney _ = Unit

-- A call of any of the services that throws leaves the whole store as it was, its audit log included,
-- where the amount of an expressed interest is valid money.
pub run_atomic :
    (c : Call) (s : Store) (e : DomainError) → HasMoney c → (run c s).0 ≡ err e → (run c s).1 ≡ s
unfolding Underwritings.create_submission Underwritings.advance_submission Underwritings.assess
    Underwritings.approve Listings.list_submission Underwritings.require_clearance
    Listings.withdraw_listing Listings.set_appetite Listings.express_interest note_mismatch
    Listings.withdraw_interest Listings.set_commitment Syndications.open_syndication
    Syndications.propose Syndications.withdraw Syndications.bind require_open_syndication must_exist
    add_allocation remove_stored bind_stored
run_atomic (express_interest ctx l amount) s e valid h = ground arith
run_atomic _ s e valid h = ground arith
