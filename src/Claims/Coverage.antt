-- ===== src/Claims/Coverage.antt =====
-- The coverage test: a loss that passes it fits into what earlier claims have left.
use neo_lloyds.Prelude.{◌≡◌, ap, not, arith}
use neo_lloyds.Prelude.Int.{◌+ℤ◌, ◌-ℤ◌, ◌≤ℤ◌, +ℤ_parts, -ℤ_parts}
use neo_lloyds.Errors.{
  ok, >>=-eq-ok, throw_if, syndication_not_bound, loss_exceeds_remaining_capacity, ◌>>=◌,
}
use neo_lloyds.Money.{Money, subtract_money, compare_money, is_more, assert_same_currency}
use neo_lloyds.Money.Sums.{subtract_money-eq-ok}
use neo_lloyds.Capital.{SyndicationStatus, bound}
use neo_lloyds.Claims.{require_coverage, is_bound}

fits_remaining :
    (loss remaining : Money) {r : Unit {0}}
    → (do c ← compare_money loss remaining; throw_if (is_more c) loss_exceeds_remaining_capacity)
      ≡ ok r
    → loss.amount_minor ≤ℤ remaining.amount_minor
unfolding compare_money assert_same_currency
fits_remaining loss remaining h = ground arith

within :
    (status : SyndicationStatus) (capacity prior loss remaining : Money)
    → throw_if (not (is_bound status)) syndication_not_bound ≡ ok tt
    → remaining.amount_minor ≡ capacity.amount_minor -ℤ prior.amount_minor
    → loss.amount_minor ≤ℤ remaining.amount_minor
    → (status ≡ bound) × (prior.amount_minor +ℤ loss.amount_minor ≤ℤ capacity.amount_minor)
within status capacity prior loss remaining b e le = ground (
  arith,
  e,
  le,
  +ℤ_parts prior.amount_minor loss.amount_minor,
  -ℤ_parts capacity.amount_minor prior.amount_minor,
)

-- A claimed loss that passes the test is held against a bound syndication, and together with all
-- that is approved already it is at most the capacity.
pub require_coverage-within :
    (status : SyndicationStatus) (capacity prior loss : Money)
    → require_coverage status capacity prior loss ≡ ok tt
    → (status ≡ bound) × (prior.amount_minor +ℤ loss.amount_minor ≤ℤ capacity.amount_minor)
unfolding require_coverage
require_coverage-within status capacity prior loss h =
    let (_, is_open, h₁) = >>=-eq-ok (throw_if (not (is_bound status)) syndication_not_bound) _ h in
    let (remaining, left, h₂) = >>=-eq-ok (subtract_money capacity prior) _ h₁ in
    within status capacity prior loss remaining is_open
      (ap (λ m. m.amount_minor) (subtract_money-eq-ok capacity prior left))
      (fits_remaining loss remaining h₂)
