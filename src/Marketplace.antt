-- ===== src/Marketplace.antt =====
-- packages/domain/src/marketplace.ts: the match of a listing with a provider's appetite, and the
-- ranking of listings. Classes, jurisdictions and custody models are numbers, since only equality
-- matters; a reason that is a text is a constructor.
pub mod Ranking
use neo_lloyds.Prelude.{ℕ, Bool, true, false, not, ◌&&◌, List, [], ◌∷◌, ◌++◌, map, if◌then◌else◌}
use neo_lloyds.Prelude.Int.{ℤ, pos, ltb_ℤ}
use neo_lloyds.Prelude.Sorting.{sort}
use neo_lloyds.Errors.{Result, ok, throw_if, ◌>>=◌, ◌>>◌, currency_mismatch}
use neo_lloyds.Double.Signed.{Double, of_int, multiply, divide, ltb_double}
use neo_lloyds.Identity.{includes}
use neo_lloyds.Money.{Money, is_zero, same_currency, compare_money, Comparison, more, is_more}
use neo_lloyds.Money.Allocate.{is_empty}

pub record Listing : Type 0 where
  pub id : ℕ
  pub risk_class : ℕ
  pub jurisdiction : ℕ
  pub capacity : Money
  pub duration_days : Double
  pub custody_model : ℕ

pub record CapitalAppetite : Type 0 where
  pub preferred_risk_classes : List ℕ
  pub max_exposure : Money
  pub preferred_jurisdictions : List ℕ
  pub max_duration_days : Double
  pub concentration_limit_bps : Double
  pub accepted_custody_models : List ℕ

pub data Reason : Type 0 where
  risk_class_not_preferred jurisdiction_not_preferred custody_model_not_accepted : Reason
  capacity_exceeds_max_exposure duration_exceeds_max concentration_exceeds_limit : Reason

pub record MatchResult : Type 0 where
  pub matches : Bool
  pub reasons : List Reason

-- An empty list is no preference.
abbrev pub unwanted : List ℕ → ℕ → Bool
unwanted preferred x = not (is_empty preferred) && not (includes preferred x)

-- The share of the provider's exposure, in basis points, as a double.
unfoldable pub concentration_share_bps : Money → Money → Double
unfolding is_zero
concentration_share_bps capacity max_exposure =
    if is_zero max_exposure
    then pos 0
    else multiply (divide (of_int capacity.amount_minor) (of_int max_exposure.amount_minor))
        (of_int (pos 10000))

-- `if (test) reasons.push(reason)`
abbrev pub reason_if : Bool → Reason → List Reason
reason_if true r = r ∷ []
reason_if false r = []

unfoldable pub reasons_for : Listing → CapitalAppetite → Comparison → List Reason
unfolding includes concentration_share_bps
reasons_for listing appetite comparison =
    reason_if (unwanted appetite.preferred_risk_classes listing.risk_class) risk_class_not_preferred
    ++ reason_if (unwanted appetite.preferred_jurisdictions listing.jurisdiction)
        jurisdiction_not_preferred
    ++ reason_if (unwanted appetite.accepted_custody_models listing.custody_model)
        custody_model_not_accepted
    ++ reason_if (is_more comparison) capacity_exceeds_max_exposure
    ++ reason_if (ltb_ℤ appetite.max_duration_days listing.duration_days) duration_exceeds_max
    ++ reason_if
        (ltb_double appetite.concentration_limit_bps
          (concentration_share_bps listing.capacity appetite.max_exposure))
        concentration_exceeds_limit

unfoldable pub matches_appetite : Listing → CapitalAppetite → Result MatchResult
unfolding reasons_for
matches_appetite listing appetite = do
  throw_if (not (same_currency listing.capacity appetite.max_exposure)) currency_mismatch
  comparison ← compare_money listing.capacity appetite.max_exposure
  let reasons = reasons_for listing appetite comparison
  ok (record { matches = is_empty reasons; reasons = reasons })

pub record Ranked : Type 0 where
  pub listing : Listing
  pub result : MatchResult

unfoldable pub match_all : List Listing → CapitalAppetite → Result (List Ranked)
unfolding matches_appetite
match_all [] appetite = ok []
match_all (listing ∷ listings) appetite = do
  result ← matches_appetite listing appetite
  rest ← match_all listings appetite
  ok (record { listing = listing; result = result } ∷ rest)

-- The comparator is negative. All capacities are in the currency of the appetite once they are
-- matched, so `compareMoney` does not throw there.
abbrev pub ranks_before : Ranked → Ranked → Bool
ranks_before a b =
    if a.result.matches
    then if b.result.matches
      then ltb_ℤ b.listing.capacity.amount_minor a.listing.capacity.amount_minor
      else true
    else if b.result.matches
    then false
    else ltb_ℤ b.listing.capacity.amount_minor a.listing.capacity.amount_minor

unfoldable pub rank_listings : List Listing → CapitalAppetite → Result (List Ranked)
unfolding match_all
rank_listings listings appetite = do
  matched ← match_all listings appetite
  ok (sort ranks_before matched)
