-- ===== src/Market/Calls.antt =====
-- The calls that change the market: the methods of its services that write, in any order and by any
-- callers, each run to its end before the next one starts.
use neo_lloyds.Prelude.{ℕ, ◌≡◌, none, Option}
use neo_lloyds.Prelude.Dict.{get}
use neo_lloyds.Prelude.Int.{ℤ}
use neo_lloyds.Errors.{ok, err}
use neo_lloyds.Money.{Money}
use neo_lloyds.Identity.{AuthContext}
use neo_lloyds.Submission.{SubmissionStatus}
use neo_lloyds.Scoring.{RiskFactorsInput}
use neo_lloyds.Underwriting.{ApprovalThresholds, UnderwritingDecision}
use neo_lloyds.Marketplace.{CapitalAppetite}
use neo_lloyds.Service.{Action}
use neo_lloyds.Market.Store.{Store}
use neo_lloyds.Market.Underwritings
use neo_lloyds.Market.Listings
use neo_lloyds.Market.Listings.{ListingInput}
use neo_lloyds.Market.Syndications

pub data Call : Type 0 where
  create_submission : AuthContext → ℕ → ℕ → Call
  advance_submission : AuthContext → ℕ → SubmissionStatus → Call
  assess : AuthContext → ℕ → ℕ → RiskFactorsInput → Option ApprovalThresholds → Call
  approve : AuthContext → ℕ → UnderwritingDecision → Call
  list_submission : AuthContext → ℕ → ℕ → ListingInput → Call
  withdraw_listing : AuthContext → ℕ → ℕ → Call
  set_appetite : AuthContext → CapitalAppetite → Call
  express_interest : AuthContext → ℕ → Money → Call
  withdraw_interest : AuthContext → ℕ → ℕ → Call
  set_commitment : AuthContext → Money → Call
  open_syndication : AuthContext → ℕ → ℕ → Call
  propose : AuthContext → ℕ → ℤ → Call
  withdraw : AuthContext → ℕ → Call
  bind : AuthContext → ℕ → ℕ → Call

-- A call whose result nobody reads.
abbrev pub forget : {A : Type 0} → Action Store A → Action Store (Unit {0})
forget m s = let (r, s') = m s in (elim r [ ok a ↦ ok tt | err e ↦ err e ], s')

abbrev pub run : Call → Action Store (Unit {0})
run (create_submission ctx fresh_id risk_id) =
    forget (Underwritings.create_submission ctx fresh_id risk_id)
run (advance_submission ctx id to) = forget (Underwritings.advance_submission ctx id to)
run (assess ctx fresh_id risk_id request thresholds) =
    forget (Underwritings.assess ctx fresh_id risk_id request thresholds)
run (approve ctx risk_id decision) = forget (Underwritings.approve ctx risk_id decision)
run (list_submission ctx fresh_id id input) =
    forget (Listings.list_submission ctx fresh_id id input)
run (withdraw_listing ctx id now) = forget (Listings.withdraw_listing ctx id now)
run (set_appetite ctx profile) = forget (Listings.set_appetite ctx profile)
run (express_interest ctx id amount) = forget (Listings.express_interest ctx id amount)
run (withdraw_interest ctx id now) = forget (Listings.withdraw_interest ctx id now)
run (set_commitment ctx committed) = forget (Listings.set_commitment ctx committed)
run (open_syndication ctx fresh_id id) = forget (Syndications.open_syndication ctx fresh_id id)
run (propose ctx i share_bps) = forget (Syndications.propose ctx i share_bps)
run (withdraw ctx i) = forget (Syndications.withdraw ctx i)
run (bind ctx i now) = forget (Syndications.bind ctx i now)

-- `randomUUID` draws an identifier that no syndication has.
abbrev pub IsFresh : Call → Store → Type 0
IsFresh (open_syndication ctx fresh_id id) s = get fresh_id s.syndications ≡ none
IsFresh _ s = Unit

pub data Step (s : Store) : Store → Type 0 where
  step : (c : Call) → IsFresh c s → Step s (run c s).1

pub data Reach (s : Store) : Store → Type 0 where
  here : Reach s s
  next : {t u : Store} → Reach s t → Step t u → Reach s u

-- A property that every call keeps holds in every store that is reached.
pub Reach-induction :
    (P : Store → Type 0)
    → ((s : Store) (c : Call) → IsFresh c s → P s → P (run c s).1)
    → {s t : Store} → Reach s t
    → P s
    → P t
Reach-induction P keep here p = p
Reach-induction P keep (next r (step c fresh)) p = keep _ c fresh (Reach-induction P keep r p)
