-- ===== src/Market/Invariant.antt =====
-- The invariant of the market, kept by every call of its services.
use neo_lloyds.Market.Store.{Store}
use neo_lloyds.Market.Valid.{AllValid, Change-AllValid}
use neo_lloyds.Market.Log.{AllReplayed, Change-AllReplayed}
use neo_lloyds.Market.Exact.{AllExact, Change-AllExact}
use neo_lloyds.Market.OneEach.{OneEach, Change-OneEach}
use neo_lloyds.Market.Changes.{run-Change}
use neo_lloyds.Market.Calls.{Call, run, IsFresh, Reach, Reach-induction}

pub record IsMarket (s : Store) : Type 0 where
  pub valid : AllValid s
  pub replayed : AllReplayed s
  pub exact : AllExact s
  pub one_each : OneEach s

run-IsMarket : (s : Store) (c : Call) → IsFresh c s → IsMarket s → IsMarket (run c s).1
run-IsMarket s c fresh m =
    let t = (run c s).1 in
    let change = run-Change c s fresh in
    record {
      valid = Change-AllValid s t m.valid change;
      replayed = Change-AllReplayed s t m.valid m.replayed change;
      exact = Change-AllExact s t m.valid m.exact change;
      one_each = Change-OneEach s t m.one_each change;
    }

-- From a store with the invariant, whatever the services are called for, by whomever and in any order,
-- the invariant holds: the shares of each syndication are valid, of distinct organisations and at most
-- 100 % together; its event log replays to its allocations; the amounts of a bound one add up to its
-- capacity, for a valid capacity of which 10000 times the magnitude is below 2 ^ 53; and no listing has
-- two syndications. An identifier that `open` draws is new.
pub Reach-IsMarket : (s t : Store) → Reach s t → IsMarket s → IsMarket t
Reach-IsMarket s t r m = Reach-induction IsMarket (λ u c fresh v. run-IsMarket u c fresh v) r m
