-- ===== src/Tests/Claims.antt =====
-- Tests of the claims service, on a bound syndication of ten dollars with two claims of six.
use neo_lloyds.Prelude.{ℕ, ◌+◌, ◌≤◌, ◌≡◌, ◌≢◌, refl, List, [], ◌∷◌, Option, none, some, arith, true}
use neo_lloyds.Prelude.Int.{pos, ◌+ℤ◌, ◌-ℤ◌, ◌≤ℤ◌}
use neo_lloyds.Errors.{ok, err, invalid_claim_transition}
use neo_lloyds.Money.{
  Money, money, subtract_money, compare_money, sum_money, assert_same_currency,
  matches_currency_pattern,
}
use neo_lloyds.Identity.{
  has_any_role, includes_role, includes, require_any_role, require_tenant_access,
}
use neo_lloyds.Capital.{bound}
use neo_lloyds.Claims.{
  ClaimStatus, coverage_confirmed, awaiting_approval, approved, settled, claim_transitions,
  can_transition_claim, require_claim_transition, require_coverage, human_review, classify_review,
  approve, ClaimPayout, compute_claim_payouts,
}
use neo_lloyds.Claims.Cycle.{Run, here, next, Run-rises}
use neo_lloyds.Claims.Payouts.{compute_claim_payouts-exact, payees, holders, paid_amounts}
use neo_lloyds.Claims.Store.{
  StoredClaim, StoredSyndication, Store, find_claim, find_syndication, approved_loss,
  approved_total, total_approved_loss,
}
use neo_lloyds.Claims.Service.{
  advance, decide, settle, calculate_loss, must_find, must_find_syndication, check_bound,
  pay_if_auto, record_payouts,
}
use neo_lloyds.Claims.Overcommit.{MayDecide, decide-adds_both}
use neo_lloyds.Claims.Guards.{IsUnreviewed, advance-approves, calculate_loss-within}
use neo_lloyds.Tests.{dollars, dollars_coded, administrator}
use neo_lloyds.Tests.Syndication.{both, both-IsSyndicate, both-full}

abbrev claim : ℕ → ClaimStatus → Option Money → StoredClaim
claim id status loss = record {
  id = id;
  syndication_id = 3;
  organisation_id = 1;
  status = status;
  evidence_refs = [];
  reported_by = 7;
  claimed_loss = loss;
  review_decision = none;
  approver_subject_id = none;
  approval_decision = none;
}

abbrev syndicate : StoredSyndication
syndicate = record {
  id = 3;
  organisation_id = 1;
  capacity = dollars 1000;
  status = bound;
  allocations = both;
}

abbrev waiting : ℕ → StoredClaim
waiting id = claim id awaiting_approval (some (dollars 600))

abbrev store_of : List StoredClaim → Store
store_of cs = record { claims = cs; payouts = []; syndications = syndicate ∷ []; audit_log = [] }

abbrev two_waiting : Store
two_waiting = store_of (waiting 1 ∷ waiting 2 ∷ [])

first-MayDecide : MayDecide administrator two_waiting 1 (waiting 1)
unfolding require_any_role has_any_role includes_role find_claim require_tenant_access
first-MayDecide = record { administrator = refl; found = refl; reads = refl; awaiting = refl }

second-MayDecide : MayDecide administrator two_waiting 2 (waiting 2)
unfolding require_any_role has_any_role includes_role find_claim require_tenant_access
second-MayDecide = record { administrator = refl; found = refl; reads = refl; awaiting = refl }

different : (waiting 1).id ≢ (waiting 2).id
different e = ground arith

-- Twelve dollars are approved against a capacity of ten.
decide-adds_both_example :
    approved_total 3
      (decide administrator 2 approve (decide administrator 1 approve two_waiting).1).1.claims
    ≡ approved_total 3 two_waiting.claims +ℤ pos 600 +ℤ pos 600
decide-adds_both_example =
    decide-adds_both administrator two_waiting 1 2 (waiting 1) (waiting 2) first-MayDecide
      second-MayDecide different refl

advance-approves_example :
    ((advance administrator 1 approved two_waiting).0
      ≡ ok (record (waiting 1) { status = approved }))
    × IsUnreviewed 1 (waiting 1) two_waiting (advance administrator 1 approved two_waiting).1
advance-approves_example =
    advance-approves administrator two_waiting 1 (waiting 1) first-MayDecide refl

refused : (advance administrator 1 settled two_waiting).0 ≡ err invalid_claim_transition
unfolding advance must_find check_bound require_any_role has_any_role includes_role find_claim
    require_tenant_access require_claim_transition can_transition_claim claim_transitions includes
refused = refl

refused_settlement : (settle administrator 1 two_waiting).0 ≡ err invalid_claim_transition
unfolding settle must_find require_any_role has_any_role includes_role find_claim
    require_tenant_access require_claim_transition can_transition_claim claim_transitions includes
refused_settlement = refl

abbrev one_approved : Store
one_approved = store_of (claim 1 approved (some (dollars 600)) ∷ [])

found_approved : find_claim 1 one_approved.claims ≡ some (claim 1 approved (some (dollars 600)))
unfolding find_claim
found_approved = refl

settled_once : (settle administrator 1 one_approved).0 ≡ ok (claim 1 settled (some (dollars 600)))
unfolding settle must_find require_any_role has_any_role includes_role find_claim
    require_tenant_access require_claim_transition can_transition_claim claim_transitions includes
settled_once = refl

-- A claim whose coverage is confirmed, beside one of six dollars that is approved.
abbrev half_used : Store
half_used = store_of (claim 1 coverage_confirmed none ∷ claim 2 approved (some (dollars 600)) ∷ [])

abbrev calculated_claim : StoredClaim
calculated_claim = record (waiting 1) {
  claimed_loss = some (dollars 400);
  review_decision = some human_review;
}

found_confirmed : find_claim 1 half_used.claims ≡ some (claim 1 coverage_confirmed none)
unfolding find_claim
found_confirmed = refl

found_syndicate : find_syndication 3 half_used.syndications ≡ some syndicate
unfolding find_syndication
found_syndicate = refl

-- Four dollars, above a ceiling of one.
calculated :
    (calculate_loss administrator 1 (dollars 400) (dollars 100) half_used).0 ≡ ok calculated_claim
unfolding calculate_loss must_find must_find_syndication pay_if_auto record_payouts require_any_role
    has_any_role includes_role find_claim find_syndication require_tenant_access
    require_claim_transition can_transition_claim claim_transitions includes total_approved_loss
    approved_total approved_loss require_coverage classify_review compare_money subtract_money
    assert_same_currency money matches_currency_pattern ◌+ℤ◌ ◌-ℤ◌
calculated = refl

calculate_loss-within_example :
    (coverage_confirmed ≡ coverage_confirmed)
    × (bound ≡ bound)
    × (approved_total 3 half_used.claims +ℤ pos 400 ≤ℤ pos 1000)
calculate_loss-within_example =
    calculate_loss-within administrator half_used 1 (dollars 400) (dollars 100)
      (claim 1 coverage_confirmed none) calculated_claim syndicate found_confirmed found_syndicate
      calculated

covered : require_coverage bound (dollars 1000) (dollars 600) (dollars 400) ≡ ok tt
unfolding require_coverage compare_money subtract_money assert_same_currency money
    matches_currency_pattern ◌-ℤ◌
covered = refl

compute_claim_payouts-exact_example :
    (payouts : List ClaimPayout) × (compute_claim_payouts (dollars 333) both ≡ ok payouts)
    × (payees payouts ≡ holders both)
    × (sum_money (paid_amounts payouts) "USD" ≡ ok (dollars 333))
compute_claim_payouts-exact_example =
    compute_claim_payouts-exact (dollars 333) both both-IsSyndicate both-full
      (record { safe = refl; coded = dollars_coded }) (omega arith)

can_settle : can_transition_claim approved settled ≡ true
unfolding can_transition_claim claim_transitions includes
can_settle = refl

can_approve : can_transition_claim awaiting_approval approved ≡ true
unfolding can_transition_claim claim_transitions includes
can_approve = refl

to_the_end : Run 2 awaiting_approval settled
to_the_end = next (next (here awaiting_approval) can_approve) can_settle

Run-rises_example : (5 + 2 ≤ 8) × (2 ≤ 8)
Run-rises_example = Run-rises to_the_end
