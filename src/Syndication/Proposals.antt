-- ===== src/Syndication/Proposals.antt =====
-- Proposals come and go while the syndication keeps its invariant: valid shares, at most 100 %
-- together, and one allocation for each organisation.
use neo_lloyds.Prelude.{
  ℕ, ◌≡◌, refl, true, false, Option, some, List, [], ◌∷◌, ◌++◌, arith, All, ◌==◌,
}
use neo_lloyds.Prelude.Int.{ℤ, pos, ◌+ℤ◌, ◌≤ℤ◌, ltb_ℤ, int_laws}
use neo_lloyds.Errors.{Result, ok, >>=-eq-ok, throw_if, over_allocation, duplicate_allocation}
use neo_lloyds.Double.Signed.{of_int, divide}
use neo_lloyds.Money.{Money, scale_money, compare_money, assert_same_currency, same_currency}
use neo_lloyds.Syndication.{
  AllocationProposal, Allocation, full_allocation_bps, assert_valid_share, total_share_bps,
  has_allocation, propose_allocation, without, remove_allocation, check_exposure,
}

abbrev pub IsValidShare : Allocation → Type 0
IsValidShare a = (pos 1 ≤ℤ a.share_bps) × (a.share_bps ≤ℤ full_allocation_bps)

abbrev pub IsDistinct : List Allocation → Type 0
IsDistinct [] = Unit
IsDistinct (a ∷ rest) = (has_allocation a.organisation_id rest ≡ false) × IsDistinct rest

pub record IsSyndicate (l : List Allocation) : Type 0 where
  pub shares : All IsValidShare l
  pub ceiling : total_share_bps l ≤ℤ full_allocation_bps
  pub distinct : IsDistinct l

pub total-append :
    (l : List Allocation) (a : Allocation)
    → total_share_bps (l ++ a ∷ []) ≡ total_share_bps l +ℤ a.share_bps
unfolding total_share_bps
total-append [] a = omega int_laws
total-append (x ∷ l) a = rw (total-append l a) (omega int_laws)

has_allocation-append :
    (o : ℕ) (l : List Allocation) (a : Allocation)
    → has_allocation o l ≡ false
    → has_allocation o (l ++ a ∷ []) ≡ (a.organisation_id == o)
unfolding has_allocation
has_allocation-append o [] a h = ground arith
has_allocation-append o (x ∷ l) a h = ground (arith, has_allocation-append o l a)

IsDistinct-append :
    (l : List Allocation) (a : Allocation)
    → has_allocation a.organisation_id l ≡ false
    → IsDistinct l
    → IsDistinct (l ++ a ∷ [])
unfolding has_allocation
IsDistinct-append [] a h d = (refl, tt)
IsDistinct-append (x ∷ l) a h d =
    ground (arith, IsDistinct-append l a, has_allocation-append x.organisation_id l a)

All-append-valid :
    (l : List Allocation) (a : Allocation)
    → All IsValidShare l
    → IsValidShare a
    → All IsValidShare (l ++ a ∷ [])
All-append-valid [] a h v = (v, tt)
All-append-valid (x ∷ l) a h v = (h.0, All-append-valid l a h.1 v)

share_in_range :
    (share : ℤ) {u : Unit {0}}
    → assert_valid_share share ≡ ok u
    → (pos 1 ≤ℤ share) × (share ≤ℤ full_allocation_bps)
unfolding assert_valid_share
share_in_range share h = ground arith

below_ceiling :
    (total : ℤ) {u : Unit {0}}
    → throw_if (ltb_ℤ full_allocation_bps total) over_allocation ≡ ok u
    → total ≤ℤ full_allocation_bps
below_ceiling total h = ground arith

-- The indicative amount of a share.
abbrev indicative : Money → ℤ → Result Money
indicative capacity share =
    scale_money capacity (divide (of_int share) (of_int full_allocation_bps))

-- What a proposal that does not throw has checked, and what it returns.
pub record Accepted (current : List Allocation) (p : AllocationProposal) (limit : Option Money)
    (next : List Allocation) : Type 0 where
  pub lower : pos 1 ≤ℤ p.share_bps
  pub upper : p.share_bps ≤ℤ full_allocation_bps
  pub fresh : has_allocation p.organisation_id current ≡ false
  pub fits : total_share_bps current +ℤ p.share_bps ≤ℤ full_allocation_bps
  pub amount : Money
  pub exposure : check_exposure amount limit ≡ ok tt
  pub result : next ≡ current ++ record { proposal = p; amount = amount } ∷ []

pub propose_allocation-Accepted :
    (current : List Allocation) (p : AllocationProposal) (capacity : Money) (limit : Option Money)
    {next : List Allocation}
    → propose_allocation current p capacity limit ≡ ok next
    → Accepted current p limit next
unfolding propose_allocation
propose_allocation-Accepted current p capacity limit h =
    let (_, valid, h₁) = >>=-eq-ok (assert_valid_share p.share_bps) _ h in
    let (_, new, h₂) =
      >>=-eq-ok (throw_if (has_allocation p.organisation_id current) duplicate_allocation) _ h₁ in
    let (_, fits, h₃) =
      >>=-eq-ok
        (throw_if (ltb_ℤ full_allocation_bps (total_share_bps current +ℤ p.share_bps))
          over_allocation)
        _ h₂ in
    let (amount, _, h₄) = >>=-eq-ok (indicative capacity p.share_bps) _ h₃ in
    let (done, exposed, h₅) = >>=-eq-ok (check_exposure amount limit) _ h₄ in
    record {
      lower = (share_in_range p.share_bps valid).0;
      upper = (share_in_range p.share_bps valid).1;
      fresh = ground (arith, new);
      fits = below_ceiling (total_share_bps current +ℤ p.share_bps) fits;
      amount = amount;
      exposure = exposed;
      result = cc h₅;
    }

within_limit :
    (amount limit : Money)
    → check_exposure amount (some limit) ≡ ok tt
    → (same_currency amount limit ≡ true) × (amount.amount_minor ≤ℤ limit.amount_minor)
unfolding check_exposure compare_money assert_same_currency
within_limit amount limit h = ground arith

-- A proposal keeps the invariant, and raises the total by its share.
pub propose_allocation-IsSyndicate :
    (current : List Allocation) (p : AllocationProposal) (capacity : Money) (limit : Option Money)
    (next : List Allocation)
    → IsSyndicate current
    → propose_allocation current p capacity limit ≡ ok next
    → IsSyndicate next × (total_share_bps next ≡ total_share_bps current +ℤ p.share_bps)
propose_allocation-IsSyndicate current p capacity limit next valid h =
    let accepted = propose_allocation-Accepted current p capacity limit h in
    let a : Allocation = record { proposal = p; amount = accepted.amount } in
    rw accepted.result (
      record {
        shares = All-append-valid current a valid.shares (accepted.lower, accepted.upper);
        ceiling = rw (total-append current a) accepted.fits;
        distinct = IsDistinct-append current a accepted.fresh valid.distinct;
      },
      total-append current a,
    )

pub without-absent : (o : ℕ) (l : List Allocation) → has_allocation o l ≡ false → without o l ≡ l
unfolding has_allocation without
without-absent o [] h = refl
without-absent o (x ∷ l) h = ground (arith, without-absent o l)

without-append :
    (o : ℕ) (l : List Allocation) (a : Allocation)
    → has_allocation o l ≡ false
    → a.organisation_id ≡ o
    → (without o (l ++ a ∷ []) ≡ l) × (has_allocation o (l ++ a ∷ []) ≡ true)
unfolding has_allocation without
without-append o [] a h e = ground arith
without-append o (x ∷ l) a h e = ground (arith, without-append o l a)

-- A provider that proposes and withdraws leaves the syndication as it found it.
pub remove_allocation-propose_allocation :
    (current : List Allocation) (p : AllocationProposal) (capacity : Money) (limit : Option Money)
    (next : List Allocation)
    → propose_allocation current p capacity limit ≡ ok next
    → remove_allocation next p.organisation_id ≡ ok current
unfolding remove_allocation
remove_allocation-propose_allocation current p capacity limit next h =
    let accepted = propose_allocation-Accepted current p capacity limit h in
    let a : Allocation = record { proposal = p; amount = accepted.amount } in
    let (back, held) = without-append p.organisation_id current a accepted.fresh refl in
    rw (accepted.result, held, back) refl

-- With a declared maximum exposure, the proposal is the last entry of the result, and its
-- indicative amount is in the limit's currency and not above the limit.
pub propose_allocation-exposure :
    (current : List Allocation) (p : AllocationProposal) (capacity limit : Money)
    (next : List Allocation)
    → propose_allocation current p capacity (some limit) ≡ ok next
    → (a : Allocation) × (next ≡ current ++ a ∷ [])
      × (a.proposal ≡ p)
      × (same_currency a.amount limit ≡ true)
      × (a.amount.amount_minor ≤ℤ limit.amount_minor)
propose_allocation-exposure current p capacity limit next h =
    let accepted = propose_allocation-Accepted current p capacity (some limit) h in
    let (currency, amount) = within_limit accepted.amount limit accepted.exposure in
    (record { proposal = p; amount = accepted.amount }, accepted.result, refl, currency, amount)
