-- ===== src/Market/Commitment.antt =====
-- A provider stays within its commitment, whatever it holds in other syndications.
use neo_lloyds.Prelude.{ℕ, ◌≡◌, sym, ap, subst, ◌∙◌, true, some, List, [], ◌∷◌}
use mathlib.Core.Path.{ap₂}
use neo_lloyds.Prelude.Dict.{get, some_injective}
use neo_lloyds.Prelude.Int.{ℤ, pos, ◌+ℤ◌, ◌≤ℤ◌, int_laws}
use neo_lloyds.Errors.{ok}
use neo_lloyds.Identity.{AuthContext}
use neo_lloyds.Syndication.{Allocation, AllocationProposal}
use neo_lloyds.Capital.{
  AllocationContribution, CapitalCommitment, SyndicationStatus, open_status, bound, cancelled,
}
use neo_lloyds.Capital.Position.{
  bound_sum, open_sum, bound_amount, open_amount, require_capacity-within_commitment,
}
use neo_lloyds.Market.Store.{Store, StoredSyndication, is_open}
use neo_lloyds.Market.Repositories.{list_at, find_allocation, allocations_for_organisation}
use neo_lloyds.Market.Syndications.{propose}
use neo_lloyds.Market.Effects.{propose-Placed, own}
use neo_lloyds.Market.Exposure.{total, contribution, held-added}
use neo_lloyds.Market.Valid.{added_entry}

-- What counts against the commitment: bound capital and open proposals.
abbrev pub at_risk : AllocationContribution → ℤ
at_risk c =
    bound_amount c.status c.amount.amount_minor +ℤ open_amount c.status c.amount.amount_minor

total-at_risk : (cs : List AllocationContribution) → total at_risk cs ≡ bound_sum cs +ℤ open_sum cs
unfolding total bound_sum open_sum
total-at_risk [] = omega int_laws
total-at_risk (c ∷ cs) = ap (λ z. at_risk c +ℤ z) (total-at_risk cs) ∙ omega int_laws

at_risk-open :
    (i : ℕ) (y : StoredSyndication) (a : Allocation)
    → is_open y.status ≡ true
    → at_risk (contribution i y a) ≡ a.amount.amount_minor
at_risk-open i y a h = go y.status h a.amount.amount_minor
  where
    go :
        (st : SyndicationStatus)
        → is_open st ≡ true
        → (m : ℤ) → bound_amount st m +ℤ open_amount st m ≡ m
    go open_status h m = omega int_laws
    go bound h m = cc h
    go cancelled h m = cc h

-- Everything that an organisation holds in the market, bound or open.
pub exposure : ℕ → Store → ℤ
exposure o s = total at_risk (allocations_for_organisation o s.syndications s.allocations)

-- A proposal of a positive amount that is accepted leaves the provider within the capital that it has
-- committed: all that it holds in the whole market, open or bound, with the new allocation, is at most
-- the commitment.
pub propose-within_commitment :
    (ctx : AuthContext) (i : ℕ) (share : ℤ) (s : Store) (updated : List Allocation) (a : Allocation)
    (k : CapitalCommitment)
    → (propose ctx i share s).0 ≡ ok updated
    → find_allocation ctx.organisation_id updated ≡ some a
    → pos 1 ≤ℤ a.amount.amount_minor
    → get ctx.organisation_id s.commitments ≡ some k
    → exposure ctx.organisation_id (propose ctx i share s).1 ≤ℤ k.committed.amount_minor
unfolding exposure
propose-within_commitment ctx i share s updated a k h own_ positive committed =
    let done = propose-Placed ctx i share s updated h in
    let o = ctx.organisation_id in
    let y = done.syndication in
    let new : done.added ≡ a = some_injective (sym done.is_own ∙ own_) in
    let declared : done.commitment ≡ k = some_injective (sym done.committed ∙ committed) in
    let held = allocations_for_organisation o s.syndications s.allocations in
    let (_, proposal) =
      added_entry (list_at i s.allocations) (own ctx share) y.capacity _ updated done.added
        done.accepted done.is_own in
    let mine : done.added.organisation_id ≡ o =
      ap (λ (p : AllocationProposal). p.organisation_id) proposal in
    let grown = held-added at_risk o s.syndications i y done.added mine done.found s.allocations in
    let within =
      require_capacity-within_commitment done.commitment held done.position done.added.amount
        done.computed done.within
        (subst (λ (x : Allocation). pos 1 ≤ℤ x.amount.amount_minor) (sym new) positive) in
    let amount = at_risk-open i y done.added done.opened in
    let counted = ap (exposure o) done.after ∙ grown ∙ ap₂ ◌+ℤ◌ (total-at_risk held) amount in
    let limit = λ (z : ℤ) (c : CapitalCommitment). z ≤ℤ c.committed.amount_minor in
    subst (λ z. limit z k) (sym counted) (subst (limit _) declared within)
