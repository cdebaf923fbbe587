-- ===== src/Syndication/Shares.antt =====
-- What depends on the proposals alone, and not on the amounts: the invariant of a syndicate, who
-- holds an allocation, and the share that an organisation holds.
use neo_lloyds.Prelude.{
  ℕ, ◌≡◌, refl, ap, sym, ◌∙◌, true, false, List, [], ◌∷◌, ◌++◌, arith, All, ◌==◌, ==_iff,
  Bool-cases, inl, inr, if◌then◌else◌,
}
use neo_lloyds.Prelude.Int.{ℤ, pos, ◌+ℤ◌, ◌≤ℤ◌, int_laws, +ℤ_assoc}
use neo_lloyds.Syndication.{Allocation, total_share_bps, has_allocation, without}
use neo_lloyds.Syndication.Proposals.{IsValidShare, IsDistinct, IsSyndicate, without-absent}
use neo_lloyds.Syndication.Binding.{proposals_of}

-- The two lists differ in amounts only.
abbrev pub SameProposals : List Allocation → List Allocation → Type 0
SameProposals a b = proposals_of a ≡ proposals_of b

pub same_head :
    (x y : Allocation) (a b : List Allocation)
    → SameProposals (x ∷ a) (y ∷ b)
    → (x.proposal ≡ y.proposal) × SameProposals a b
same_head x y a b h = (cc h, cc h)

pub has_allocation_congr :
    (o : ℕ) (a b : List Allocation) → SameProposals a b → has_allocation o a ≡ has_allocation o b
unfolding has_allocation
has_allocation_congr o [] [] h = refl
has_allocation_congr o [] (y ∷ b) h = cc h
has_allocation_congr o (x ∷ a) [] h = cc h
has_allocation_congr o (x ∷ a) (y ∷ b) h =
    let (head, tail) = same_head x y a b h in ground (arith, has_allocation_congr o a b tail)

pub total_congr :
    (a b : List Allocation) → SameProposals a b → total_share_bps a ≡ total_share_bps b
unfolding total_share_bps
total_congr [] [] h = refl
total_congr [] (y ∷ b) h = cc h
total_congr (x ∷ a) [] h = cc h
total_congr (x ∷ a) (y ∷ b) h =
    let (head, tail) = same_head x y a b h in ground (arith, total_congr a b tail)

shares_congr : (a b : List Allocation) → SameProposals a b → All IsValidShare b → All IsValidShare a
shares_congr [] b h v = tt
shares_congr (x ∷ a) [] h v = cc h
shares_congr (x ∷ a) (y ∷ b) h v =
    let (head, tail) = same_head x y a b h in (ground arith, shares_congr a b tail v.1)

IsDistinct-congr : (a b : List Allocation) → SameProposals a b → IsDistinct b → IsDistinct a
IsDistinct-congr [] b h v = tt
IsDistinct-congr (x ∷ a) [] h v = cc h
IsDistinct-congr (x ∷ a) (y ∷ b) h v =
    let (head, tail) = same_head x y a b h in
    (ground (arith, has_allocation_congr x.organisation_id a b tail), IsDistinct-congr a b tail v.1)

pub IsSyndicate-congr : (a b : List Allocation) → SameProposals a b → IsSyndicate b → IsSyndicate a
IsSyndicate-congr a b h v = record {
  shares = shares_congr a b h v.shares;
  ceiling = rw (total_congr a b h) v.ceiling;
  distinct = IsDistinct-congr a b h v.distinct;
}

-- The share of an organisation, and nothing for one that holds none.
unfoldable pub share_of : ℕ → List Allocation → ℤ
share_of o [] = pos 0
share_of o (a ∷ rest) = if a.organisation_id == o then a.share_bps else share_of o rest

pub share_of_congr :
    (o : ℕ) (a b : List Allocation) → SameProposals a b → share_of o a ≡ share_of o b
unfolding share_of
share_of_congr o [] [] h = refl
share_of_congr o [] (y ∷ b) h = cc h
share_of_congr o (x ∷ a) [] h = cc h
share_of_congr o (x ∷ a) (y ∷ b) h =
    let (head, tail) = same_head x y a b h in ground (arith, share_of_congr o a b tail)

pub share_of-absent :
    (o : ℕ) (l : List Allocation) → has_allocation o l ≡ false → share_of o l ≡ pos 0
unfolding share_of has_allocation
share_of-absent o [] h = refl
share_of-absent o (x ∷ l) h = ground (arith, share_of-absent o l)

-- A new allocation of an organisation that held none.
pub share_of-append :
    (k : ℕ) (l : List Allocation) (a : Allocation)
    → has_allocation a.organisation_id l ≡ false
    → share_of k (l ++ a ∷ []) ≡ (if a.organisation_id == k then a.share_bps else share_of k l)
unfolding share_of has_allocation
share_of-append k [] a h = ground arith
share_of-append k (x ∷ l) a h = ground (arith, share_of-append k l a)

pub share_of-without :
    (o k : ℕ) (l : List Allocation)
    → share_of k (without o l) ≡ (if o == k then pos 0 else share_of k l)
unfolding share_of without
share_of-without o k [] = ground arith
share_of-without o k (x ∷ l) = ground (arith, share_of-without o k l)

-- With one allocation for each organisation, a withdrawal takes its share from the total.
pub total-without_share :
    (o : ℕ) (l : List Allocation)
    → IsDistinct l
    → total_share_bps (without o l) +ℤ share_of o l ≡ total_share_bps l
unfolding share_of without total_share_bps
total-without_share o [] d = omega int_laws
total-without_share o (x ∷ l) d = elim (Bool-cases (x.organisation_id == o)) [
  | inl hit ↦
      let is = (==_iff x.organisation_id o).0 hit in
      let absent : without o l ≡ l =
        ap (λ (k : ℕ). without k l) (sym is) ∙ without-absent x.organisation_id l d.0 in
      rw (hit, absent) (omega int_laws)
  | inr miss ↦ rw miss (
      +ℤ_assoc x.share_bps (total_share_bps (without o l)) (share_of o l)
      ∙ ap (λ z. x.share_bps +ℤ z) (total-without_share o l d.1))
]

-- Who holds an allocation has a share.
pub share_of-held :
    (o : ℕ) (l : List Allocation)
    → has_allocation o l ≡ true
    → All IsValidShare l
    → pos 1 ≤ℤ share_of o l
unfolding has_allocation share_of
share_of-held o [] h v = cc h
share_of-held o (x ∷ l) h v = ground (arith, share_of-held o l)
