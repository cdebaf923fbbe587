-- ===== src/Syndication.antt =====
-- packages/domain/src/syndication.ts: proposed allocations of a syndication and their binding.
-- Identifiers are compared for equality only, so they are numbers. A share in basis points is an
-- integer, as the request's schema demands (apps/api/src/syndication/syndication.controller.ts).
pub mod Proposals
pub mod Withdrawals
pub mod Binding
pub mod Shares
use neo_lloyds.Prelude.{
  ℕ, ◌+◌, ◌*◌, Bool, true, false, not, ◌&&◌, ◌||◌, Option, none, some, List, [], ◌∷◌, ◌++◌, map,
  ◌==◌, if◌then◌else◌,
}
use neo_lloyds.Prelude.Int.{ℤ, pos, ◌+ℤ◌, ltb_ℤ, leb_ℤ}
use neo_lloyds.Errors.{
  Result, ok, err, throw_if, ◌>>=◌, ◌>>◌, invalid_share, duplicate_allocation, over_allocation,
  exposure_limit_exceeded, allocation_not_found, incomplete_allocation,
}
use neo_lloyds.Double.Signed.{of_int, divide}
use neo_lloyds.Money.{Money, scale_money, compare_money, is_more}
use neo_lloyds.Money.Allocate.{allocate_money}

abbrev pub full_allocation_bps : ℤ
full_allocation_bps = pos 10000

pub record AllocationProposal : Type 0 where
  pub organisation_id : ℕ
  pub share_bps : ℤ

pub record Allocation : Type 0 where
  pub proposal : AllocationProposal
  pub open proposal use *
  pub amount : Money

unfoldable pub assert_valid_share : ℤ → Result (Unit {0})
assert_valid_share share_bps =
    throw_if (leb_ℤ share_bps (pos 0) || ltb_ℤ full_allocation_bps share_bps) invalid_share

-- Integers below 2 ^ 53 add exactly, in any order.
unfoldable pub total_share_bps : List Allocation → ℤ
total_share_bps [] = pos 0
total_share_bps (a ∷ rest) = a.share_bps +ℤ total_share_bps rest

-- `current.some((a) => a.organisationId === organisationId)`
unfoldable pub has_allocation : ℕ → List Allocation → Bool
has_allocation o [] = false
has_allocation o (a ∷ rest) = (a.organisation_id == o) || has_allocation o rest

-- The limit of the provider's appetite, where there is one.
unfoldable pub check_exposure : Money → Option Money → Result (Unit {0})
check_exposure amount none = ok tt
check_exposure amount (some limit) = do
  comparison ← compare_money amount limit
  throw_if (is_more comparison) exposure_limit_exceeded

unfoldable pub propose_allocation :
    List Allocation → AllocationProposal → Money → Option Money → Result (List Allocation)
unfolding assert_valid_share check_exposure
propose_allocation current proposal capacity provider_max_exposure = do
  assert_valid_share proposal.share_bps
  throw_if (has_allocation proposal.organisation_id current) duplicate_allocation
  let prospective_total = total_share_bps current +ℤ proposal.share_bps
  throw_if (ltb_ℤ full_allocation_bps prospective_total) over_allocation
  amount ← scale_money capacity (divide (of_int proposal.share_bps) (of_int full_allocation_bps))
  check_exposure amount provider_max_exposure
  ok (current ++ record { proposal = proposal; amount = amount } ∷ [])

unfoldable pub without : ℕ → List Allocation → List Allocation
without o [] = []
without o (a ∷ rest) = if a.organisation_id == o then without o rest else a ∷ without o rest

unfoldable pub remove_allocation : List Allocation → ℕ → Result (List Allocation)
remove_allocation current organisation_id = do
  throw_if (not (has_allocation organisation_id current)) allocation_not_found
  ok (without organisation_id current)

unfoldable pub require_fully_allocated : List Allocation → Result (Unit {0})
require_fully_allocated current =
    let total = total_share_bps current in
    throw_if (ltb_ℤ total full_allocation_bps || ltb_ℤ full_allocation_bps total)
      incomplete_allocation

-- The exact amounts stand in the order of the proposals, one for each.
unfoldable pub with_amounts : List Allocation → List Money → List Allocation
with_amounts (p ∷ ps) (m ∷ ms) = record p { amount = m } ∷ with_amounts ps ms
with_amounts _ _ = []

unfoldable pub bind_allocations : List Allocation → Money → Result (List Allocation)
unfolding require_fully_allocated
bind_allocations proposals capacity = do
  require_fully_allocated proposals
  exact_amounts ← allocate_money capacity (map (λ p. of_int p.share_bps) proposals)
  ok (with_amounts proposals exact_amounts)
