-- ===== src/Syndication/Withdrawals.antt =====
-- A withdrawal keeps the invariant of a syndication.
use neo_lloyds.Prelude.{ℕ, ◌≡◌, refl, false, List, [], ◌∷◌, arith, All}
use neo_lloyds.Prelude.Int.{◌≤ℤ◌, int_laws}
use neo_lloyds.Errors.{ok}
use neo_lloyds.Syndication.{Allocation, total_share_bps, has_allocation, without, remove_allocation}
use neo_lloyds.Syndication.Proposals.{IsValidShare, IsDistinct, IsSyndicate}

-- What is left when one organisation's allocation goes.
has_allocation-without :
    (o k : ℕ) (l : List Allocation)
    → has_allocation k l ≡ false
    → has_allocation k (without o l) ≡ false
unfolding has_allocation without
has_allocation-without o k [] h = refl
has_allocation-without o k (x ∷ l) h = ground (arith, has_allocation-without o k l)

without-gone : (o : ℕ) (l : List Allocation) → has_allocation o (without o l) ≡ false
unfolding has_allocation without
without-gone o [] = refl
without-gone o (x ∷ l) = ground (arith, without-gone o l)

IsDistinct-without : (o : ℕ) (l : List Allocation) → IsDistinct l → IsDistinct (without o l)
unfolding without
IsDistinct-without o [] d = tt
IsDistinct-without o (x ∷ l) d =
    ground (arith, IsDistinct-without o l, has_allocation-without o x.organisation_id l)

shares-without : (o : ℕ) (l : List Allocation) → All IsValidShare l → All IsValidShare (without o l)
unfolding without
shares-without o [] h = tt
shares-without o (x ∷ l) h = ground (arith, shares-without o l)

total-without :
    (o : ℕ) (l : List Allocation)
    → All IsValidShare l
    → total_share_bps (without o l) ≤ℤ total_share_bps l
unfolding without total_share_bps
total-without o [] h = omega arith
total-without o (x ∷ l) h = grind (int_laws, total-without o l h.1)

pub removed :
    (current : List Allocation) (o : ℕ) {next : List Allocation}
    → remove_allocation current o ≡ ok next
    → next ≡ without o current
unfolding remove_allocation
removed current o h = ground arith

-- A withdrawal keeps the invariant; the organisation holds nothing afterwards, and the total has
-- not grown.
pub remove_allocation-IsSyndicate :
    (current : List Allocation) (o : ℕ) (next : List Allocation)
    → IsSyndicate current
    → remove_allocation current o ≡ ok next
    → IsSyndicate next
      × (has_allocation o next ≡ false)
      × (total_share_bps next ≤ℤ total_share_bps current)
remove_allocation-IsSyndicate current o next valid h =
    let total = total-without o current valid.shares in
    rw (removed current o h) (
      record {
        shares = shares-without o current valid.shares;
        ceiling = omega (arith, total, valid.ceiling);
        distinct = IsDistinct-without o current valid.distinct;
      },
      without-gone o current,
      total,
    )
