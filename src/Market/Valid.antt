-- ===== src/Market/Valid.antt =====
-- Every call keeps the invariant of every syndicate: valid shares, at most 100 % together, and one
-- allocation for each organisation.
use neo_lloyds.Prelude.{
  ℕ, ◌≡◌, sym, ap, subst, ◌∙◌, false, Option, some, List, [], ◌∷◌, ◌++◌, arith, ◌==◌, Bool-cases,
  inl, inr,
}
use neo_lloyds.Prelude.Dict.{set, some_injective}
use neo_lloyds.Errors.{ok}
use neo_lloyds.Money.{Money}
use neo_lloyds.Syndication.{
  AllocationProposal, Allocation, has_allocation, propose_allocation, total_share_bps, without,
}
use neo_lloyds.Syndication.Proposals.{
  IsSyndicate, propose_allocation-Accepted, propose_allocation-IsSyndicate,
}
use neo_lloyds.Syndication.Withdrawals.{removed, remove_allocation-IsSyndicate}
use neo_lloyds.Syndication.Binding.{bind_allocations-keeps}
use neo_lloyds.Syndication.Shares.{IsSyndicate-congr}
use neo_lloyds.Market.Store.{Store}
use neo_lloyds.Market.Repositories.{list_at, find_allocation}
use neo_lloyds.Market.Reads.{list_at-set}
use neo_lloyds.Market.Changes.{Change, same, opened, placed, withdrawn, bound}

find_own :
    (l : List Allocation) (a : Allocation)
    → has_allocation a.organisation_id l ≡ false
    → find_allocation a.organisation_id (l ++ a ∷ []) ≡ some a
unfolding find_allocation has_allocation
find_own [] a h = ground arith
find_own (x ∷ l) a h = ground (arith, find_own l a)

-- What a proposal has added is its own entry, at the end.
pub added_entry :
    (current : List Allocation) (p : AllocationProposal) (capacity : Money) (limit : Option Money)
    (updated : List Allocation) (a : Allocation)
    → propose_allocation current p capacity limit ≡ ok updated
    → find_allocation p.organisation_id updated ≡ some a
    → (updated ≡ current ++ a ∷ []) × (a.proposal ≡ p)
added_entry current p capacity limit updated a accepted own =
    let ok_ = propose_allocation-Accepted current p capacity limit accepted in
    let b : Allocation = record { proposal = p; amount = ok_.amount } in
    let here : b ≡ a = some_injective (
      sym (find_own current b ok_.fresh)
      ∙ ap (find_allocation p.organisation_id) (sym ok_.result)
      ∙ own) in
    (
      ok_.result ∙ ap (λ (x : Allocation). current ++ x ∷ []) here,
      ap (λ (x : Allocation). x.proposal) (sym here),
    )

abbrev pub AllValid : Store → Type 0
AllValid s = (i : ℕ) → IsSyndicate (list_at i s.allocations)

pub IsSyndicate-empty : IsSyndicate []
unfolding total_share_bps
IsSyndicate-empty = record { shares = tt; ceiling = omega arith; distinct = tt }

-- The list that is written is valid, and so all are.
written :
    (s t : Store) (k : ℕ) (l : List Allocation)
    → t.allocations ≡ set k l s.allocations
    → IsSyndicate l
    → AllValid s
    → AllValid t
written s t k l e new all i =
    rw (e, list_at-set k i l s.allocations)
      (elim (Bool-cases (k == i)) [ inl hit ↦ rw hit new | inr miss ↦ rw miss (all i) ])

pub Change-AllValid : (s t : Store) → AllValid s → Change s t → AllValid t
Change-AllValid s t all (same b) i = rw b.allocations (all i)
Change-AllValid s t all (opened y b) i = written s t y.id [] b.allocations IsSyndicate-empty all i
Change-AllValid s t all (placed j y actor p limit a updated b) i =
    let current = list_at j s.allocations in
    let (is, _) = added_entry current p y.capacity limit updated a b.accepted b.is_own in
    let (valid, _) =
      propose_allocation-IsSyndicate current p y.capacity limit updated (all j) b.accepted in
    written s t j (current ++ a ∷ []) b.allocations (subst IsSyndicate is valid) all i
Change-AllValid s t all (withdrawn j y actor o rest b) i =
    let current = list_at j s.allocations in
    let (valid, _, _) = remove_allocation-IsSyndicate current o rest (all j) b.held in
    written s t j (without o current) b.allocations
      (subst IsSyndicate (removed current o b.held) valid) all i
Change-AllValid s t all (bound j y actor now final b) i =
    let current = list_at j s.allocations in
    let (_, kept) = bind_allocations-keeps current y.capacity final b.exact in
    written s t j final b.allocations (IsSyndicate-congr final current kept (all j)) all i
