-- ===== src/Lib.antt =====
-- Neo-Lloyds: the market's domain rules and the services that apply them.
--
-- The program is a platform on which risk originators submit risks, underwriters assess them,
-- capital providers syndicate them, and claims are paid and settled. Its rules are pure functions of
-- packages/domain/src; the services of apps/api/src call them on values that repositories hold, and
-- the portals of apps/ call the services over HTTP.
--
-- Prelude        Lists, signed integers over the native numbers, Boolean tests, and JavaScript's
--                stable sort.
-- Double         JavaScript's numbers as counts of 2^-1074: a result is the exact value rounded to
--                53 bits, ties to even. `excess_fuel` halves a number as often as its fuel says, and
--                the number itself is fuel enough. Double.Whole shows that whole numbers below 2^53
--                add and multiply exactly, and that quotients have the exact floor and rounding.
-- Errors         packages/domain/src/errors.ts: a call returns `ok` or the code that it throws.
-- Money          packages/domain/src/money.ts: `money`, sums, comparison, `scaleMoney`, and in
--                Money.Allocate the largest-remainder split of `allocateMoney`.
-- Identity       packages/domain/src/identity.ts: roles, scopes, tenants, the gate for agents, and the
--                control of each approval band.
-- Ontology       packages/domain/src/ontology.ts: node and edge types and the edges that are allowed.
-- Graph          packages/domain/src/graph.ts: nodes and edges with their adjacency, `addEdge` and its
--                breadth-first search for cycles. The search has one round for each stored edge and one
--                more, since a node but the first is queued once and for an edge. Graph.Traverse
--                has `traverse`, whose recursion is on the depth bound.
-- Submission     packages/domain/src/submission.ts: the stages of a submission.
-- Uncertainty    packages/domain/src/uncertainty.ts: estimates and their confidence.
-- Scoring        packages/domain/src/scoring.ts: `scoreRisk` and `aggregateExpectedLoss`.
-- Underwriting   packages/domain/src/underwriting.ts: `classifyBand`, `assessUnderwriting` and
--                `requireApprovalIfNeeded`.
-- Marketplace    packages/domain/src/marketplace.ts: `matchesAppetite` and `rankListings`.
-- Syndication    packages/domain/src/syndication.ts: proposals, withdrawals and binding.
-- Capital        packages/domain/src/capital-ledger.ts: positions, the check across syndications, and
--                concentration.
-- Claims         packages/domain/src/claims.ts; Claims.Store has the repositories of claims and
--                syndications (apps/api/src/persistence/in-memory.ts) and the audit log as one state,
--                and Claims.Service the methods of apps/api/src/claims/claims.service.ts, which pass
--                that state on and leave what they wrote before a throw.
-- Service        How a method of a service reads and writes repositories, returns and throws.
-- Market         The services that bring a risk from its submission to a bound syndication, over one
--                state (Market.Store) with the in-memory repositories of
--                apps/api/src/persistence/in-memory.ts (Market.Repositories). Market.Underwritings has
--                submission/submission.service.ts and underwriting/underwriting.service.ts,
--                Market.Listings marketplace/marketplace.service.ts and capital/capital.service.ts, and
--                Market.Syndications syndication/syndication.service.ts, all of apps/api/src.
--                Market.Calls runs any call of them, each to its end before the next, Market.Effects
--                and Market.Changes say what a call does, and Market.Spec is the abstract machine of
--                a syndication that they implement.
-- Reinsurance    packages/domain/src/reinsurance.ts: the three kinds of layer and the program.
--                Reinsurance.Stored has the in-memory repository of programs and cessions, and
--                Reinsurance.Service apps/api/src/reinsurance/reinsurance.service.ts on it.
-- Settlement     packages/domain/src/settlement.ts: the life cycle, the fee and the split.
--                Settlement.Providers has providers.ts and stripe.ts, and Settlement.Service
--                settlement.service.ts of apps/api/src/settlement, over any provider: what a
--                provider answers, or Stripe to an HTTP request, is a parameter.
-- Tests          Concrete runs.
--
-- Identifiers, scopes and keys are compared for equality only, so they are numbers. An amount is an
-- integer, as `money` makes sure. Shares and fees in basis points are integers, as the source refuses
-- others; ratios and confidences are doubles. Texts of errors, reasons and audit entries, and times
-- that no rule reads, are left out. NaN and infinities are not modelled, but for the expiry of a
-- mandate that is no date.
--
-- Not modelled: the simulation, provenance and query modules of the domain package, the identity
-- service, OpenFireblocks, HTTP controllers, authentication, the Prisma repositories, the identity
-- checks by third parties, and the portals. A fresh identifier and the time are arguments of
-- a method, and the identifiers of allocations and events, which nothing reads, are left out.
pub mod Prelude
pub mod Double
pub mod Errors
pub mod Money
pub mod Identity
pub mod Syndication
pub mod Capital
pub mod Claims
pub mod Service
pub mod Settlement
pub mod Reinsurance
pub mod Submission
pub mod Uncertainty
pub mod Scoring
pub mod Underwriting
pub mod Marketplace
pub mod Market
pub mod Ontology
pub mod Graph
pub mod Tests
