-- ===== src/Market/Exact.antt =====
-- Every call keeps what is bound exact: its amounts add up to the capacity.
use neo_lloyds.Prelude.{
  ℕ, ◌*◌, ◌^◌, ◌<◌, ◌≡◌, ◌≢◌, sym, ap, subst, ◌∙◌, some, List, [], arith, ◌==◌, ==_iff, Bool-cases,
  inl, inr,
}
use neo_lloyds.Prelude.Dict.{get, set, get-set-same, get-set-other, get-set_cases}
use neo_lloyds.Errors.{ok, ok_injective}
use neo_lloyds.Double.Signed.{abs}
use neo_lloyds.Money.{Money, sum_money}
use neo_lloyds.Money.Sums.{IsMoney}
use neo_lloyds.Syndication.{Allocation, bind_allocations}
use neo_lloyds.Syndication.Proposals.{IsSyndicate}
use neo_lloyds.Syndication.Binding.{amounts_of, bind_allocations-exact, bind_allocations-keeps}
use neo_lloyds.Capital
use neo_lloyds.Market.Store.{Store, StoredSyndication}
use neo_lloyds.Market.Repositories.{or_nil, list_at, bound_syndication}
use neo_lloyds.Market.Reads.{list_at-set}
use neo_lloyds.Market.Changes.{Change, same, opened, placed, withdrawn, bound, IsOpenAt}
use neo_lloyds.Market.Valid.{AllValid}

-- Money of which the shares are computed exactly.
pub record IsSplittable (m : Money) : Type 0 where
  pub valid : IsMoney m
  pub small : abs m.amount_minor * 10000 < 2 ^ 53

abbrev pub AddsUp : StoredSyndication → List Allocation → Type 0
AddsUp y l = sum_money (amounts_of l) y.capacity.currency ≡ ok y.capacity

abbrev pub AllExact : Store → Type 0
AllExact s =
    (i : ℕ) (y : StoredSyndication)
    → get i s.syndications ≡ some y
    → y.status ≡ Capital.bound
    → IsSplittable y.capacity
    → AddsUp y (list_at i s.allocations)

final-AddsUp :
    (current final : List Allocation) (y : StoredSyndication)
    → IsSyndicate current
    → bind_allocations current y.capacity ≡ ok final
    → IsSplittable y.capacity
    → AddsUp y final
final-AddsUp current final y valid bound_ can =
    let (full, _) = bind_allocations-keeps current y.capacity final bound_ in
    let (l, done, _, exact) =
      bind_allocations-exact current y.capacity valid full can.valid can.small in
    let is : l ≡ final = ok_injective (sym done ∙ bound_) in subst (AddsUp y) is exact

-- What was bound before, in another syndication than the one that is written.
kept :
    (s : Store) (k i : ℕ) (y z : StoredSyndication) (l : List Allocation)
    → AllExact s
    → get i s.syndications ≡ some y
    → y.status ≡ Capital.bound
    → IsSplittable y.capacity
    → IsOpenAt k z s
    → AddsUp y (list_at i (set k l s.allocations))
kept s k i y z l all found shut can at = elim (Bool-cases (k == i)) [
  | inl hit ↦
      let same_one = ap (λ (j : ℕ). get j s.syndications) ((==_iff k i).0 hit) in
      absurd (ground arith)
  | inr miss ↦ rw (list_at-set k i l s.allocations, miss) (all i y found shut can)
]

elsewhere :
    (s : Store) (k i : ℕ) (y : StoredSyndication) (l : List Allocation)
    → AllExact s
    → k ≢ i
    → get i s.syndications ≡ some y
    → y.status ≡ Capital.bound
    → IsSplittable y.capacity
    → AddsUp y (list_at i (set k l s.allocations))
elsewhere s k i y l all ne found shut can =
    subst (AddsUp y) (sym (ap or_nil (get-set-other k i l s.allocations ne)))
      (all i y found shut can)

-- What is bound now.
here :
    (s : Store) (k i : ℕ) (y z : StoredSyndication) (now : ℕ) (final : List Allocation)
    → k ≡ i
    → bound_syndication now z ≡ y
    → IsSyndicate (list_at k s.allocations)
    → bind_allocations (list_at k s.allocations) z.capacity ≡ ok final
    → IsSplittable y.capacity
    → AddsUp y (list_at i (set k final s.allocations))
here s k i y z now final is new valid done can =
    let capacity = ap (λ (x : StoredSyndication). x.capacity) new in
    let exact =
      final-AddsUp (list_at k s.allocations) final z valid done
        (subst IsSplittable (sym capacity) can) in
    let read : list_at i (set k final s.allocations) ≡ final =
      ap (λ (j : ℕ). list_at j (set k final s.allocations)) (sym is)
      ∙ ap or_nil (get-set-same k final s.allocations) in
    subst (AddsUp y) (sym read)
      (subst (λ (c : Money). sum_money (amounts_of final) c.currency ≡ ok c) capacity exact)

pub Change-AllExact : (s t : Store) → AllValid s → AllExact s → Change s t → AllExact t
Change-AllExact s t valid all (same b) i y found shut can =
    rw b.allocations (all i y (rw b.syndications at found) shut can)
Change-AllExact s t valid all (opened z b) i y found shut can =
    rw b.allocations
      (elim (get-set_cases z.id i z s.syndications
        (subst (λ d. get i d ≡ some y) b.syndications found)) [
          | inl (_, new) ↦ absurd (ground arith)
          | inr (ne, old) ↦ elsewhere s z.id i y [] all ne old shut can
        ])
Change-AllExact s t valid all (placed k z actor p limit a updated b) i y found shut can =
    rw b.allocations (kept s k i y z _ all (rw b.syndications at found) shut can b.at)
Change-AllExact s t valid all (withdrawn k z actor o rest b) i y found shut can =
    rw b.allocations (kept s k i y z _ all (rw b.syndications at found) shut can b.at)
Change-AllExact s t valid all (bound k z actor now final b) i y found shut can =
    rw b.allocations
      (elim (get-set_cases k i (bound_syndication now z) s.syndications
        (subst (λ d. get i d ≡ some y) b.syndications found)) [
          | inl (is, new) ↦ here s k i y z now final is new (valid k) b.exact can
          | inr (ne, old) ↦ elsewhere s k i y final all ne old shut can
        ])
