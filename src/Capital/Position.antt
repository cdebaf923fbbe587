-- ===== src/Capital/Position.antt =====
-- A position is the sums of the bound and of the open contributions, and what is available is what
-- they leave of the commitment; the check before a proposal keeps a provider within it.
use neo_lloyds.Prelude.{ℕ, ◌≡◌, ap, sym, ◌∙◌, if◌then◌else◌, List, [], ◌∷◌, arith}
use neo_lloyds.Prelude.Int.{
  ltb_ℤ, +ℤ_parts, -ℤ_parts, +ℤ-zero, +ℤ_assoc, zero-+ℤ, ℤ, pos, ◌+ℤ◌, ◌-ℤ◌, ◌≤ℤ◌,
}
use neo_lloyds.Errors.{ok, >>=-eq-ok, ok_injective}
use neo_lloyds.Money.{
  Money, Comparison, less, same, more, money, add_money, compare_money, compare_amounts,
  subtract_money,
}
use neo_lloyds.Money.Sums.{
  of_amount, money-eq-ok, add_money-eq-ok, subtract_money-eq-ok, compare_money-eq-ok,
}
use neo_lloyds.Capital.{
  CapitalCommitment, SyndicationStatus, open_status, bound, cancelled, AllocationContribution,
  CapitalPosition, Totals, add_contribution, add_contributions, available_of, compute_position,
  require_capacity_for_proposal, assert_same_currency,
}

abbrev pub bound_amount : SyndicationStatus → ℤ → ℤ
bound_amount bound a = a
bound_amount _ a = pos 0

abbrev pub open_amount : SyndicationStatus → ℤ → ℤ
open_amount open_status a = a
open_amount _ a = pos 0

-- The capital at risk, and the soft holds, as plain sums.
unfoldable pub bound_sum : List AllocationContribution → ℤ
bound_sum [] = pos 0
bound_sum (c ∷ cs) = bound_amount c.status c.amount.amount_minor +ℤ bound_sum cs

unfoldable pub open_sum : List AllocationContribution → ℤ
open_sum [] = pos 0
open_sum (c ∷ cs) = open_amount c.status c.amount.amount_minor +ℤ open_sum cs

add_contribution-eq-ok :
    (t : Totals) (status : SyndicationStatus) (amount : Money) (t' : Totals)
    → add_contribution t status amount ≡ ok t'
    → (t'.allocated.amount_minor
        ≡ t.allocated.amount_minor +ℤ bound_amount status amount.amount_minor)
      × (t'.reserved.amount_minor
          ≡ t.reserved.amount_minor +ℤ open_amount status amount.amount_minor)
unfolding add_contribution
add_contribution-eq-ok t bound amount t' h =
    let (sum, added, h₁) = >>=-eq-ok (add_money t.allocated amount) _ h in
    ground (arith, add_money-eq-ok t.allocated amount added, +ℤ-zero t.reserved.amount_minor)
add_contribution-eq-ok t open_status amount t' h =
    let (sum, added, h₁) = >>=-eq-ok (add_money t.reserved amount) _ h in
    ground (arith, add_money-eq-ok t.reserved amount added, +ℤ-zero t.allocated.amount_minor)
add_contribution-eq-ok t cancelled amount t' h =
    ground (arith, +ℤ-zero t.allocated.amount_minor, +ℤ-zero t.reserved.amount_minor)

add_contributions-eq-ok :
    (committed : Money) (t : Totals) (cs : List AllocationContribution) (t' : Totals)
    → add_contributions committed t cs ≡ ok t'
    → (t'.allocated.amount_minor ≡ t.allocated.amount_minor +ℤ bound_sum cs)
      × (t'.reserved.amount_minor ≡ t.reserved.amount_minor +ℤ open_sum cs)
unfolding add_contributions bound_sum open_sum
add_contributions-eq-ok committed t [] t' h =
    ground (arith, +ℤ-zero t.allocated.amount_minor, +ℤ-zero t.reserved.amount_minor)
add_contributions-eq-ok committed t (c ∷ cs) t' h =
    let (_, _, h₁) = >>=-eq-ok (assert_same_currency committed c.amount) _ h in
    let (t₁, step, h₂) = >>=-eq-ok (add_contribution t c.status c.amount) _ h₁ in
    let (a, r) = add_contribution-eq-ok t c.status c.amount t₁ step in
    let (later, later') = add_contributions-eq-ok committed t₁ cs t' h₂ in
    (
      later ∙ ap (λ z. z +ℤ bound_sum cs) a ∙ +ℤ_assoc t.allocated.amount_minor _ _,
      later' ∙ ap (λ z. z +ℤ open_sum cs) r ∙ +ℤ_assoc t.reserved.amount_minor _ _,
    )

-- What is left of the commitment, and nothing where it is used up.
abbrev pub remaining : ℤ → ℤ → ℤ
remaining committed used = if ltb_ℤ used committed then committed -ℤ used else pos 0

available_of-eq-ok :
    (committed used a : Money)
    → available_of committed used ≡ ok a
    → a.amount_minor ≡ remaining committed.amount_minor used.amount_minor
unfolding available_of
available_of-eq-ok committed used a h =
    let (comparison, compared, h₁) = >>=-eq-ok (compare_money used committed) _ h in
    go comparison (compare_money-eq-ok used committed compared) h₁
  where
    go :
        (c : Comparison)
        → c ≡ compare_amounts used.amount_minor committed.amount_minor
        → elim c [
          | less ↦ subtract_money committed used
          | same ↦ money (pos 0) committed.currency
          | more ↦ money (pos 0) committed.currency
        ]
          ≡ ok a
        → a.amount_minor ≡ remaining committed.amount_minor used.amount_minor
    go less e h' = ground (arith, subtract_money-eq-ok committed used h')
    go same e h' = ground (arith, money-eq-ok (pos 0) committed.currency h')
    go more e h' = ground (arith, money-eq-ok (pos 0) committed.currency h')

-- The steps of the computation together.
computed :
    (c nothing : Money) (t : Totals) (used : Money) (cs : List AllocationContribution)
    → nothing ≡ of_amount (pos 0) c.currency
    → (t.allocated.amount_minor ≡ nothing.amount_minor +ℤ bound_sum cs)
      × (t.reserved.amount_minor ≡ nothing.amount_minor +ℤ open_sum cs)
    → used ≡ of_amount (t.allocated.amount_minor +ℤ t.reserved.amount_minor) t.allocated.currency
    → (a : Money) → a.amount_minor ≡ remaining c.amount_minor used.amount_minor
    → (p : CapitalPosition) {o : ℕ} {u : ℤ}
    → p ≡ record {
      organisation_id = o;
      committed = c;
      allocated = t.allocated;
      reserved = t.reserved;
      available = a;
      utilisation_bps = u;
    }
    → (p.committed ≡ c)
      × (p.allocated.amount_minor ≡ bound_sum cs)
      × (p.reserved.amount_minor ≡ open_sum cs)
      × (p.available.amount_minor ≡ remaining c.amount_minor (bound_sum cs +ℤ open_sum cs))
computed c nothing t used cs hn ht hu a ha p hp =
    ground (arith, zero-+ℤ (bound_sum cs), zero-+ℤ (open_sum cs))

-- The position of a provider, wherever the computation returns one: allocated is the sum of its
-- bound contributions, reserved that of its open ones, cancelled ones count nowhere, and available
-- is the rest of the commitment, or zero where nothing is left.
pub compute_position-sums :
    (commitment : CapitalCommitment) (cs : List AllocationContribution) (p : CapitalPosition)
    → compute_position commitment cs ≡ ok p
    → (p.committed ≡ commitment.committed)
      × (p.allocated.amount_minor ≡ bound_sum cs)
      × (p.reserved.amount_minor ≡ open_sum cs)
      × (p.available.amount_minor
          ≡ remaining commitment.committed.amount_minor (bound_sum cs +ℤ open_sum cs))
unfolding compute_position
compute_position-sums commitment cs p h =
    let c = commitment.committed in
    let (nothing, none_yet, h₁) = >>=-eq-ok (money (pos 0) c.currency) _ h in
    let (t, added, h₂) =
      >>=-eq-ok (add_contributions c (record { allocated = nothing; reserved = nothing }) cs) _
        h₁ in
    let (used, summed, h₃) = >>=-eq-ok (add_money t.allocated t.reserved) _ h₂ in
    let (a, left, h₄) = >>=-eq-ok (available_of c used) _ h₃ in
    computed c nothing t used cs (money-eq-ok (pos 0) c.currency none_yet)
      (add_contributions-eq-ok c _ cs t added) (add_money-eq-ok t.allocated t.reserved summed) a
      (available_of-eq-ok c used a left) p (sym (ok_injective h₄))

within_available :
    (p : CapitalPosition) (amount : Money)
    → require_capacity_for_proposal p amount ≡ ok tt
    → amount.amount_minor ≤ℤ p.available.amount_minor
unfolding require_capacity_for_proposal compare_money
within_available p amount h = ground arith

-- The check across syndications: a positive amount that passes it, on top of everything that the
-- provider holds bound or open anywhere, stays within the commitment.
pub require_capacity-within_commitment :
    (commitment : CapitalCommitment) (cs : List AllocationContribution) (p : CapitalPosition)
    (amount : Money)
    → compute_position commitment cs ≡ ok p
    → require_capacity_for_proposal p amount ≡ ok tt
    → pos 1 ≤ℤ amount.amount_minor
    → bound_sum cs +ℤ open_sum cs +ℤ amount.amount_minor ≤ℤ commitment.committed.amount_minor
require_capacity-within_commitment commitment cs p amount h checked positive =
    let (_, _, _, left) = compute_position-sums commitment cs p h in
    let used = bound_sum cs +ℤ open_sum cs in
    let le = within_available p amount checked in
    ground (
      arith,
      left,
      le,
      +ℤ_parts used amount.amount_minor,
      -ℤ_parts commitment.committed.amount_minor used,
    )
