-- ===== src/Claims/Cycle.antt =====
-- The life cycle only moves forward, so it ends.
use neo_lloyds.Prelude.{ℕ, suc, ◌+◌, ◌≤◌, ◌<◌, ◌≡◌, subst, true, arith}
use neo_lloyds.Claims.{ClaimStatus, reported, approved, settled, claim_index, can_transition_claim}

-- Runs of legal transitions, by their length.
pub data Run : ℕ → ClaimStatus → ClaimStatus → Type 0 where
  here : (a : ClaimStatus) → Run 0 a a
  next :
      {n : ℕ} {a b c : ClaimStatus} → Run n a b → can_transition_claim b c ≡ true → Run (suc n) a c

transition-rises :
    (a b : ClaimStatus) → can_transition_claim a b ≡ true → claim_index a < claim_index b
unfolding can_transition_claim
transition-rises reported b h = ground arith
transition-rises _ b h = ground arith

index-le : (a : ClaimStatus) → claim_index a ≤ 8
index-le reported = omega arith
index-le _ = omega arith

before_settled : (b : ClaimStatus) → can_transition_claim b settled ≡ true → b ≡ approved
unfolding can_transition_claim
before_settled reported h = ground arith
before_settled _ h = ground arith

-- A run of n transitions from one status to another raises the place in the life cycle by at least
-- n, so no status comes twice and no run has more than eight transitions.
pub Run-rises :
    {n : ℕ} {a b : ClaimStatus} → Run n a b → (claim_index a + n ≤ claim_index b) × (n ≤ 8)
Run-rises (here a) = (omega arith, omega arith)
Run-rises (next {b = b} {c = c} r step) =
    let (risen, _) = Run-rises r in
    let up = transition-rises b c step in (omega arith, omega (arith, index-le c))

-- A settled claim was approved before: a run to the end leads through `approved`.
pub Run-settled : {n : ℕ} {a : ClaimStatus} → Run (suc n) a settled → Run n a approved
Run-settled {n} {a} (next {b = b} r step) = subst (Run n a) (before_settled b step) r
