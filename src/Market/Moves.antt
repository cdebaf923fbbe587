-- ===== src/Market/Moves.antt =====
-- Each write of the syndication service is a step of the abstract machine.
use neo_lloyds.Prelude.{
  ℕ, ◌≡◌, sym, ap, subst, ◌∙◌, true, false, Option, List, [], ◌∷◌, ◌++◌, arith,
}
use neo_lloyds.Prelude.Int.{ℤ, pos, ◌+ℤ◌, ◌-ℤ◌, ◌≤ℤ◌, int_laws}
use neo_lloyds.Errors.{ok}
use neo_lloyds.Money.{Money}
use neo_lloyds.Syndication.{
  AllocationProposal, Allocation, full_allocation_bps, total_share_bps, has_allocation, without,
  remove_allocation, propose_allocation, bind_allocations,
}
use neo_lloyds.Syndication.Proposals.{IsSyndicate, propose_allocation-Accepted, total-append}
use neo_lloyds.Syndication.Binding.{bind_allocations-keeps}
use neo_lloyds.Syndication.Shares.{
  share_of, share_of-append, share_of-absent, share_of-without, total-without_share, total_congr,
  share_of_congr, share_of-held,
}
use neo_lloyds.Capital
use neo_lloyds.Market.Store.{StoredSyndication, is_open}
use neo_lloyds.Market.Repositories.{bound_syndication}
use neo_lloyds.Market.Spec.{BookStep, place, release, close, book_of, empty_book}

open_of : (y : StoredSyndication) → is_open y.status ≡ true → y.status ≡ Capital.open_status
open_of y h = ground arith

-- A proposal that was accepted is a share that an organisation takes.
pub BookStep-placed :
    (y : StoredSyndication) (current : List Allocation) (p : AllocationProposal)
    (limit : Option Money) (updated : List Allocation) (a : Allocation)
    → is_open y.status ≡ true
    → propose_allocation current p y.capacity limit ≡ ok updated
    → a.proposal ≡ p
    → BookStep (book_of y current) (book_of y (current ++ a ∷ []))
unfolding book_of
BookStep-placed y current p limit updated a opened_ accepted is =
    let ok_ = propose_allocation-Accepted current p y.capacity limit accepted in
    let o = ap (λ (q : AllocationProposal). q.organisation_id) is in
    let x = ap (λ (q : AllocationProposal). q.share_bps) is in
    let fresh : has_allocation a.organisation_id current ≡ false =
      ap (λ (k : ℕ). has_allocation k current) o ∙ ok_.fresh in
    place a.organisation_id a.share_bps (open_of y opened_)
      (share_of-absent a.organisation_id current fresh) (subst (λ z. pos 1 ≤ℤ z) (sym x) ok_.lower)
      (subst (λ z. total_share_bps current +ℤ z ≤ℤ full_allocation_bps) (sym x) ok_.fits)
      (λ i. record {
        capacity = y.capacity;
        status = y.status;
        share = λ k. share_of-append k current a fresh i;
        placed = total-append current a i;
      })

sub_of_add : (w s t : ℤ) → w +ℤ s ≡ t → w ≡ t -ℤ s
sub_of_add w s t h = subst (λ z. w ≡ z -ℤ s) h (omega int_laws)

holds :
    (o : ℕ) (l rest : List Allocation) → remove_allocation l o ≡ ok rest → has_allocation o l ≡ true
unfolding remove_allocation
holds o l rest h = ground arith

pub BookStep-withdrawn :
    (y : StoredSyndication) (current : List Allocation) (o : ℕ) (rest : List Allocation)
    → is_open y.status ≡ true
    → IsSyndicate current
    → remove_allocation current o ≡ ok rest
    → BookStep (book_of y current) (book_of y (without o current))
unfolding book_of
BookStep-withdrawn y current o rest opened_ valid held =
    let left = sub_of_add _ _ _ (total-without_share o current valid.distinct) in
    release o (open_of y opened_) (share_of-held o current (holds o current rest held) valid.shares)
      (λ i. record {
        capacity = y.capacity;
        status = y.status;
        share = λ k. share_of-without o k current i;
        placed = left i;
      })

pub BookStep-bound :
    (y : StoredSyndication) (now : ℕ) (current final : List Allocation)
    → is_open y.status ≡ true
    → bind_allocations current y.capacity ≡ ok final
    → BookStep (book_of y current) (book_of (bound_syndication now y) final)
unfolding book_of
BookStep-bound y now current final opened_ exact =
    let (full, kept) = bind_allocations-keeps current y.capacity final exact in
    close (open_of y opened_) full (λ i. record {
      capacity = y.capacity;
      status = Capital.bound;
      share = λ k. share_of_congr k final current kept i;
      placed = total_congr final current kept i;
    })

pub book_of-empty :
    (y : StoredSyndication) → y.status ≡ Capital.open_status → book_of y [] ≡ empty_book y.capacity
unfolding book_of share_of total_share_bps
book_of-empty y h =
    λ i. record { capacity = y.capacity; status = h i; share = λ k. pos 0; placed = pos 0 }
