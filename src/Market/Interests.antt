-- ===== src/Market/Interests.antt =====
-- Expressions of interest: one for each organisation, live from when it is expressed until it is
-- withdrawn.
use neo_lloyds.Prelude.{
  ℕ, ◌≡◌, refl, ap, ◌∙◌, Bool, true, false, none, List, [], ◌∷◌, ◌++◌, map, arith, ◌==◌,
  if◌then◌else◌,
}
use neo_lloyds.Prelude.Dict.{get-set-same}
use neo_lloyds.Errors.{ok}
use neo_lloyds.Identity.{AuthContext}
use neo_lloyds.Money.{Money}
use neo_lloyds.Market.Store.{Store, StoredInterest}
use neo_lloyds.Market.Repositories.{
  or_nil, list_at, without_interest, put_interest, withdraw_own, withdraw_interests, is_live,
  has_live_interest,
}
use neo_lloyds.Market.Listings.{express_interest, withdraw_interest, note_mismatch}

pub put-live :
    (i : StoredInterest) (o : ℕ) (l : List StoredInterest)
    → is_live i.withdrawn_at ≡ true
    → has_live_interest o (without_interest i.organisation_id l ++ i ∷ [])
      ≡ (if i.organisation_id == o then true else has_live_interest o l)
unfolding has_live_interest without_interest
put-live i o [] live = ground arith
put-live i o (x ∷ l) live = ground (arith, put-live i o l live)

withdraw-live :
    (o k at : ℕ) (l : List StoredInterest)
    → has_live_interest k (map (withdraw_own o at) l)
      ≡ (if o == k then false else has_live_interest k l)
unfolding has_live_interest
withdraw-live o k at [] = ground arith
withdraw-live o k at (x ∷ l) = ground (arith, withdraw-live o k at l)

-- Whether an organisation has a live interest in a listing.
abbrev pub interested : ℕ → ℕ → Store → Bool
interested o l s = has_live_interest o (list_at l s.interests)

abbrev pub new_interest : AuthContext → ℕ → Money → StoredInterest
new_interest ctx l amount = record {
  listing_id = l;
  organisation_id = ctx.organisation_id;
  indicative_amount = amount;
  withdrawn_at = none;
}

stored_interest :
    (ctx : AuthContext) (l : ℕ) (amount : Money) (s : Store) (x : StoredInterest)
    → (express_interest ctx l amount s).0 ≡ ok x
    → (express_interest ctx l amount s).1.interests
      ≡ put_interest (new_interest ctx l amount) s.interests
unfolding express_interest note_mismatch
stored_interest ctx l amount s x h = ground arith

withdrawn_interest :
    (ctx : AuthContext) (l now : ℕ) (s : Store)
    → (withdraw_interest ctx l now s).1.interests
      ≡ withdraw_interests l ctx.organisation_id now s.interests
unfolding withdraw_interest
withdrawn_interest ctx l now s = refl

expressed :
    (ctx : AuthContext) (l : ℕ) (amount : Money) (s : Store) (x : StoredInterest) (o : ℕ)
    → (express_interest ctx l amount s).0 ≡ ok x
    → interested o l (express_interest ctx l amount s).1
      ≡ (if ctx.organisation_id == o then true else interested o l s)
unfolding put_interest
expressed ctx l amount s x o h =
    ap (λ d. has_live_interest o (list_at l d)) (stored_interest ctx l amount s x h)
    ∙ ap (λ e. has_live_interest o (or_nil e)) (get-set-same l _ s.interests)
    ∙ put-live (new_interest ctx l amount) o (list_at l s.interests) refl

given_up :
    (ctx : AuthContext) (l now : ℕ) (s : Store) (o : ℕ)
    → interested o l (withdraw_interest ctx l now s).1
      ≡ (if ctx.organisation_id == o then false else interested o l s)
unfolding withdraw_interests
given_up ctx l now s o =
    ap (λ d. has_live_interest o (list_at l d)) (withdrawn_interest ctx l now s)
    ∙ ap (λ e. has_live_interest o (or_nil e)) (get-set-same l _ s.interests)
    ∙ withdraw-live ctx.organisation_id o now (list_at l s.interests)

-- After an interest was expressed, exactly the caller's organisation and those that were interested
-- before are interested in the listing; after a withdrawal, exactly those that were and are not the
-- caller's.
pub interests_exact :
    (ctx : AuthContext) (l now : ℕ) (amount : Money) (s : Store) (x : StoredInterest)
    → (express_interest ctx l amount s).0 ≡ ok x
    → (o : ℕ)
    → (interested o l (express_interest ctx l amount s).1
        ≡ (if ctx.organisation_id == o then true else interested o l s))
      × (interested o l (withdraw_interest ctx l now s).1
          ≡ (if ctx.organisation_id == o then false else interested o l s))
interests_exact ctx l now amount s x h o = (expressed ctx l amount s x o h, given_up ctx l now s o)
