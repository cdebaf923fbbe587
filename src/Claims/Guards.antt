-- ===== src/Claims/Guards.antt =====
-- What the guards of the service's methods promise: which calls leave the store alone, and what a
-- call that returned has tested.
use neo_lloyds.Prelude.{ℕ, ◌≡◌, refl, sym, ap, ◌∙◌, none, some, arith}
use neo_lloyds.Prelude.Int.{◌+ℤ◌, ◌≤ℤ◌}
use neo_lloyds.Errors.{ok, err, DomainError}
use neo_lloyds.Money.{Money}
use neo_lloyds.Identity.{AuthContext}
use neo_lloyds.Capital.{bound}
use neo_lloyds.Claims.{
  ClaimStatus, approved, settled, loss_calculated, coverage_confirmed, can_transition_claim,
  require_claim_transition, require_coverage, claim_transitions,
}
use neo_lloyds.Claims.Coverage.{require_coverage-within}
use neo_lloyds.Claims.Overcommit.{
  MayDecide, awaiting-approved, find_claim-id, find_claim-set_claim-same, approval-adds_loss,
}
use neo_lloyds.Claims.Store.{
  StoredClaim, StoredSyndication, Store, find_claim, find_syndication, set_claim, approved_total,
  total_approved_loss, loss_amount,
}
use neo_lloyds.Claims.Service.{
  advance, settle, calculate_loss, check_bound, must_find, must_find_syndication,
}

transition-to_settled :
    (a : ClaimStatus) → require_claim_transition a settled ≡ ok tt → a ≡ approved
unfolding require_claim_transition can_transition_claim claim_transitions
transition-to_settled approved h = refl
transition-to_settled _ h = ground arith

transition-to_loss :
    (a : ClaimStatus) → require_claim_transition a loss_calculated ≡ ok tt → a ≡ coverage_confirmed
unfolding require_claim_transition can_transition_claim claim_transitions
transition-to_loss coverage_confirmed h = refl
transition-to_loss _ h = ground arith

-- A call of `settle` that throws changes nothing.
pub settle_atomic :
    (ctx : AuthContext) (s : Store) (i : ℕ) (e : DomainError)
    → (settle ctx i s).0 ≡ err e
    → (settle ctx i s).1 ≡ s
unfolding settle must_find
settle_atomic ctx s i e h = ground arith

-- A call of `settle` that returns has found an approved claim, and has stored it as settled with all
-- else about it and about the payouts unchanged.
pub settle-settles :
    (ctx : AuthContext) (s : Store) (i : ℕ) (c u : StoredClaim)
    → find_claim i s.claims ≡ some c
    → (settle ctx i s).0 ≡ ok u
    → (c.status ≡ approved)
      × (u ≡ record c { status = settled })
      × ((settle ctx i s).1.claims ≡ set_claim u s.claims)
      × ((settle ctx i s).1.payouts ≡ s.payouts)
unfolding settle must_find
settle-settles ctx s i c u found h =
    let was = transition-to_settled c.status in
    (ground arith, ground arith, ground arith, ground arith)

-- A call of `advance` that throws changes nothing.
pub advance_atomic :
    (ctx : AuthContext) (s : Store) (i : ℕ) (to : ClaimStatus) (e : DomainError)
    → (advance ctx i to s).0 ≡ err e
    → (advance ctx i to s).1 ≡ s
unfolding advance must_find check_bound must_find_syndication
advance_atomic ctx s i to e h = ground arith

advance-claims :
    (ctx : AuthContext) (s : Store) (i : ℕ) (c : StoredClaim)
    → MayDecide ctx s i c
    → let unreviewed = record c { status = approved } in
      ((advance ctx i approved s).0 ≡ ok unreviewed)
      × ((advance ctx i approved s).1.claims ≡ set_claim unreviewed s.claims)
      × ((advance ctx i approved s).1.payouts ≡ s.payouts)
unfolding advance must_find check_bound
advance-claims ctx s i c may = let granted = awaiting-approved in ground arith

-- What a claim that is approved with no decision leaves behind.
pub record IsUnreviewed (i : ℕ) (c : StoredClaim) (s s' : Store) : Type 0 where
  pub claim : StoredClaim
  pub stored : find_claim i s'.claims ≡ some claim
  pub status_is : claim.status ≡ approved
  pub undecided : claim.approval_decision ≡ none
  pub unpaid : s'.payouts ≡ s.payouts
  pub counted :
      approved_total c.syndication_id s'.claims
      ≡ approved_total c.syndication_id s.claims +ℤ loss_amount c.claimed_loss

-- A call of `advance` to APPROVED by a claims administrator who may read a claim that awaits approval and
-- has no decision on it returns, whatever the capacity of its syndication is: the claim is found
-- again as approved and still with no decision on it, its whole loss counts in the running total of
-- its syndication, and no payout is written.
pub advance-approves :
    (ctx : AuthContext) (s : Store) (i : ℕ) (c : StoredClaim)
    → MayDecide ctx s i c
    → c.approval_decision ≡ none
    → ((advance ctx i approved s).0 ≡ ok (record c { status = approved }))
      × IsUnreviewed i c s (advance ctx i approved s).1
advance-approves ctx s i c may none_yet =
    let unreviewed : StoredClaim = record c { status = approved } in
    let (returned, claims, payouts) = advance-claims ctx s i c may in
    let key = find_claim-id i c s.claims may.found in
    let there = ap (λ (k : ℕ). find_claim k s.claims) key ∙ may.found in
    (
      returned,
      record {
        claim = unreviewed;
        stored =
            ap (find_claim i) claims
            ∙ ap (λ (k : ℕ). find_claim k (set_claim unreviewed s.claims)) (sym key)
            ∙ find_claim-set_claim-same unreviewed c s.claims there;
        status_is = refl;
        undecided = none_yet;
        unpaid = payouts;
        counted =
            approval-adds_loss unreviewed c s (advance ctx i approved s).1 claims there may.awaiting
              refl refl refl;
      },
    )

tested :
    (ctx : AuthContext) (s : Store) (i : ℕ) (loss ceiling : Money) (c c' : StoredClaim)
    (y : StoredSyndication)
    → find_claim i s.claims ≡ some c
    → find_syndication c.syndication_id s.syndications ≡ some y
    → (calculate_loss ctx i loss ceiling s).0 ≡ ok c'
    → (require_claim_transition c.status loss_calculated ≡ ok tt)
      × (require_coverage y.status y.capacity
            (total_approved_loss c.syndication_id loss.currency s)
            loss
          ≡ ok tt)
unfolding calculate_loss must_find must_find_syndication
tested ctx s i loss ceiling c c' y found held h = ground arith

-- Where `calculateLoss` returns, the claim's coverage was confirmed, its syndication was bound, and the
-- loss together with all losses approved by then is at most the capacity.
pub calculate_loss-within :
    (ctx : AuthContext) (s : Store) (i : ℕ) (loss ceiling : Money) (c c' : StoredClaim)
    (y : StoredSyndication)
    → find_claim i s.claims ≡ some c
    → find_syndication c.syndication_id s.syndications ≡ some y
    → (calculate_loss ctx i loss ceiling s).0 ≡ ok c'
    → (c.status ≡ coverage_confirmed)
      × (y.status ≡ bound)
      × (approved_total c.syndication_id s.claims +ℤ loss.amount_minor ≤ℤ y.capacity.amount_minor)
unfolding total_approved_loss
calculate_loss-within ctx s i loss ceiling c c' y found held h =
    let (moves, covers) = tested ctx s i loss ceiling c c' y found held h in
    let (open_, fits) =
      require_coverage-within y.status y.capacity
        (total_approved_loss c.syndication_id loss.currency s) loss covers in
    (transition-to_loss c.status moves, open_, fits)
