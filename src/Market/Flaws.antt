-- ===== src/Market/Flaws.antt =====
-- Where the services do less than they mean to: a call that throws after it has written, and a listing
-- that is withdrawn with its syndication open.
use neo_lloyds.Prelude.{ℕ, ◌≡◌, refl, sym, ap, subst, ◌∙◌, true, none, some, [], ◌∷◌, arith, ==_iff}
use neo_lloyds.Prelude.Dict.{Dict, get, get-set-same, some_injective}
use neo_lloyds.Syndication.{total_share_bps}
use neo_lloyds.Syndication.Proposals.{IsSyndicate}
use neo_lloyds.Errors.{ok, err, DomainError}
use neo_lloyds.Money.{Money, money}
use neo_lloyds.Identity.{
  AuthContext, capital_provider, write, require_any_role, require_tenant_access,
}
use neo_lloyds.Market.Store.{
  Store, StoredListing, ListingStatus, StoredSyndication, is_listed, withdrawn, matched,
}
use neo_lloyds.Market.Repositories.{
  or_nil, list_at, set_listing_status, bound_syndication, has_live_interest, put_interest, closed,
}
use neo_lloyds.Market.Syndications.{bind}
use neo_lloyds.Market.Effects.{bind-Bound}
use neo_lloyds.Market.Listings.{express_interest, withdraw_listing, note_mismatch}
use neo_lloyds.Market.Valid.{AllValid}
use neo_lloyds.Market.Progress.{IsFull, MayBind, bind_completes}
use neo_lloyds.Market.Interests.{interested, put-live, new_interest}

-- A provider without a declared appetite may show interest in the listing.
pub record MayExpress (ctx : AuthContext) (l : ℕ) (s : Store) (listing : StoredListing)
    : Type 0 where
  pub role : require_any_role ctx (capital_provider ∷ []) ≡ ok tt
  pub found : get l s.listings ≡ some listing
  pub listed : is_listed listing.status ≡ true
  pub undeclared : get ctx.organisation_id s.appetites ≡ none

throws_after :
    (ctx : AuthContext) (l : ℕ) (amount : Money) (s : Store) (listing : StoredListing)
    (e : DomainError)
    → MayExpress ctx l s listing
    → money amount.amount_minor amount.currency ≡ err e
    → ((express_interest ctx l amount s).0 ≡ err e)
      × ((express_interest ctx l amount s).1.interests
          ≡ put_interest (new_interest ctx l amount) s.interests)
unfolding express_interest note_mismatch
throws_after ctx l amount s listing e may bad = ground arith

-- For a caller with the role CAPITAL_PROVIDER whose organisation has declared no appetite, and an open listing,
-- and an amount that is no valid money, such as one in the currency "usd": `expressInterest` throws,
-- and yet the caller's organisation is interested from then on.
pub express_interest_not_atomic :
    (ctx : AuthContext) (l : ℕ) (amount : Money) (s : Store) (listing : StoredListing)
    (e : DomainError)
    → MayExpress ctx l s listing
    → money amount.amount_minor amount.currency ≡ err e
    → ((express_interest ctx l amount s).0 ≡ err e)
      × (interested ctx.organisation_id l (express_interest ctx l amount s).1 ≡ true)
unfolding put_interest
express_interest_not_atomic ctx l amount s listing e may bad =
    let (threw, written) = throws_after ctx l amount s listing e may bad in
    let o = ctx.organisation_id in
    (
      threw,
      ap (λ d. has_live_interest o (list_at l d)) written
          ∙ ap (λ x. has_live_interest o (or_nil x)) (get-set-same l _ s.interests)
          ∙ put-live (new_interest ctx l amount) o (list_at l s.interests) refl
          ∙ rw ((==_iff o o).1 refl) refl,
    )

get-set_listing_status :
    (i : ℕ) (status : ListingStatus) (at : ℕ) (d : Dict StoredListing) (x : StoredListing)
    → get i d ≡ some x
    → get i (set_listing_status i status at d) ≡ some (closed status at x)
unfolding set_listing_status
get-set_listing_status i status at d x found = ground (arith, get-set-same i (closed status at x) d)

withdrawn_effect :
    (ctx : AuthContext) (l now : ℕ) (s : Store) (x : StoredListing)
    → get l s.listings ≡ some x
    → require_tenant_access ctx x.organisation_id write ≡ ok tt
    → ((withdraw_listing ctx l now s).0 ≡ ok tt)
      × ((withdraw_listing ctx l now s).1.listings ≡ set_listing_status l withdrawn now s.listings)
      × ((withdraw_listing ctx l now s).1.syndications ≡ s.syndications)
      × ((withdraw_listing ctx l now s).1.allocations ≡ s.allocations)
unfolding withdraw_listing
withdrawn_effect ctx l now s x found owner = ground arith

-- A listing can be withdrawn while its syndication is open and full, and the syndication bound all the same: the
-- withdrawal by the listing's owner returns and marks it withdrawn, and a call of `bind` afterwards
-- returns too, and marks the listing matched. The caller is an originator or a broker with write access to both, the
-- syndicates of the store are valid, and the capacity is valid money of which 10000 times the
-- magnitude is below 2 ^ 53.
pub withdraw_listing-bind :
    (ctx : AuthContext) (i l now later : ℕ) (s : Store) (x : StoredListing) (y : StoredSyndication)
    → AllValid s
    → IsFull i s y
    → y.listing_id ≡ l
    → get l s.listings ≡ some x
    → MayBind ctx y.organisation_id
    → require_tenant_access ctx x.organisation_id write ≡ ok tt
    → let t = (withdraw_listing ctx l now s).1 in
      ((withdraw_listing ctx l now s).0 ≡ ok tt)
      × (get l t.listings ≡ some (closed withdrawn now x))
      × ((bind ctx i later t).0 ≡ ok (bound_syndication later y))
      × (get l (bind ctx i later t).1.listings
          ≡ some (closed matched later (closed withdrawn now x)))
withdraw_listing-bind ctx i l now later s x y valid ready at found may owner =
    let (done, listings, records, lists) = withdrawn_effect ctx l now s x found owner in
    let t = (withdraw_listing ctx l now s).1 in
    let gone : get l t.listings ≡ some (closed withdrawn now x) =
      ap (get l) listings ∙ get-set_listing_status l withdrawn now s.listings x found in
    let still : IsFull i t y = record {
      found = ap (get i) records ∙ ready.found;
      opened = ready.opened;
      full = ap (λ d. total_share_bps (list_at i d)) lists ∙ ready.full;
      splittable = ready.splittable;
    } in
    let valid' : AllValid t = λ j. subst (λ d. IsSyndicate (list_at j d)) (sym lists) (valid j) in
    let (bound_, _) = bind_completes ctx i later t y valid' still may in
    let b = bind-Bound ctx i later t (bound_syndication later y) bound_ in
    let same : b.syndication ≡ y = some_injective (sym b.found ∙ still.found) in
    let listing_of = ap (λ (w : StoredSyndication). w.listing_id) same ∙ at in
    (
      done,
      gone,
      bound_,
      ap (λ (u : Store). get l u.listings) b.after
          ∙ ap (λ (k : ℕ). get l (set_listing_status k matched later t.listings)) listing_of
          ∙ get-set_listing_status l matched later t.listings (closed withdrawn now x) gone,
    )
