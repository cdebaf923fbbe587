-- ===== src/Claims/Overcommit.antt =====
-- The running total of a syndication under the service's methods: an approval adds the claim's loss
-- with no second look at the capacity.
use neo_lloyds.Prelude.{
  ℕ, ==_iff, Bool-cases, inl, inr, ◌≡◌, ◌≢◌, refl, ap, sym, subst, ◌∙◌, true, false, Option, none,
  some, List, [], ◌∷◌, arith, ◌==◌,
}
use neo_lloyds.Prelude.Int.{ℤ, pos, ◌+ℤ◌, int_laws, +ℤ_assoc, +ℤ-zero}
use neo_lloyds.Errors.{ok}
use neo_lloyds.Money.{Money}
use neo_lloyds.Identity.{
  AuthContext, claims_administrator, read, includes, require_any_role, require_tenant_access,
}
use neo_lloyds.Claims.{
  awaiting_approval, approved, claim_transitions, can_transition_claim, require_claim_transition,
  approve,
}
use neo_lloyds.Claims.Store.{
  StoredClaim, Store, find_claim, set_claim, approved_loss, approved_total, loss_amount,
}
use neo_lloyds.Claims.Service.{decide, record_payouts}

set_claim-hit :
    (c x : StoredClaim) (xs : List StoredClaim)
    → x.id == c.id ≡ true
    → set_claim c (x ∷ xs) ≡ c ∷ xs
unfolding set_claim
set_claim-hit c x xs h = ground arith

set_claim-miss :
    (c x : StoredClaim) (xs : List StoredClaim)
    → x.id == c.id ≡ false
    → set_claim c (x ∷ xs) ≡ x ∷ set_claim c xs
unfolding set_claim
set_claim-miss c x xs h = ground arith

-- A claim in front adds the same to both sides.
add_front : (a s d t c : ℤ) → s +ℤ d ≡ t +ℤ c → (a +ℤ s) +ℤ d ≡ (a +ℤ t) +ℤ c
add_front a s d t c h = rw (+ℤ_assoc a s d, h, +ℤ_assoc a t c) refl

-- Replacing a stored claim changes the total by what the claim adds.
approved_total-set_claim :
    (i : ℕ) (c d : StoredClaim) (cs : List StoredClaim)
    → find_claim c.id cs ≡ some d
    → approved_total i (set_claim c cs) +ℤ approved_loss i d
      ≡ approved_total i cs +ℤ approved_loss i c
unfolding approved_total find_claim
approved_total-set_claim i c d [] h = cc
approved_total-set_claim i c d (x ∷ xs) h = elim (Bool-cases (x.id == c.id)) [
  | inl hit ↦
      let stored = set_claim-hit c x xs hit in
      let same : x ≡ d = ground arith in rw (stored, same) (omega int_laws)
  | inr miss ↦
      let stored = set_claim-miss c x xs miss in
      let rest = approved_total-set_claim i c d xs (ground arith) in
      rw stored (
        add_front (approved_loss i x) (approved_total i (set_claim c xs)) (approved_loss i d)
          (approved_total i xs) (approved_loss i c) rest)
]

record_payouts-claims :
    (ctx : AuthContext) (y : ℕ) (c : StoredClaim) (loss : Option Money) (s : Store)
    → (record_payouts ctx y c loss s).1.claims ≡ s.claims
unfolding record_payouts
record_payouts-claims ctx y c none s = refl
record_payouts-claims ctx y c (some loss) s = ground arith

-- What lets a claims administrator decide a claim.
pub record MayDecide (ctx : AuthContext) (s : Store) (i : ℕ) (c : StoredClaim) : Type 0 where
  pub administrator : require_any_role ctx (claims_administrator ∷ []) ≡ ok tt
  pub found : find_claim i s.claims ≡ some c
  pub reads : require_tenant_access ctx c.organisation_id read ≡ ok tt
  pub awaiting : c.status ≡ awaiting_approval

-- The claim as the decision stores it.
abbrev pub approved_claim : AuthContext → StoredClaim → StoredClaim
approved_claim ctx c = record c {
  approver_subject_id = some ctx.subject_id;
  approval_decision = some approve;
  status = approved;
}

pub awaiting-approved : require_claim_transition awaiting_approval approved ≡ ok tt
unfolding require_claim_transition can_transition_claim claim_transitions includes
awaiting-approved = refl

decide-claims :
    (ctx : AuthContext) (s : Store) (i : ℕ) (c : StoredClaim)
    → MayDecide ctx s i c
    → (decide ctx i approve s).1.claims ≡ set_claim (approved_claim ctx c) s.claims
unfolding decide
decide-claims ctx s i c may =
    let granted = awaiting-approved in
    let kept =
      record_payouts-claims ctx c.syndication_id (approved_claim ctx c) c.claimed_loss
        (record s { claims = set_claim (approved_claim ctx c) s.claims }) in
    ground arith

pub find_claim-id :
    (i : ℕ) (c : StoredClaim) (cs : List StoredClaim) → find_claim i cs ≡ some c → c.id ≡ i
unfolding find_claim
find_claim-id i c [] h = cc
find_claim-id i c (x ∷ xs) h = elim (Bool-cases (x.id == i)) [
  | inl hit ↦
      let same : x ≡ c = ground arith in
      ap (λ (z : StoredClaim). z.id) (sym same) ∙ (==_iff x.id i).0 hit
  | inr miss ↦ find_claim-id i c xs (ground arith)
]

add_zero : {a z b : ℤ} → z ≡ pos 0 → a +ℤ z ≡ b → a ≡ b
add_zero {a} {z} {b} e h = sym (ap (λ x. a +ℤ x) e ∙ +ℤ-zero a) ∙ h

-- A claim that awaits approval adds nothing yet.
approved_loss-awaiting :
    (y : ℕ) (c : StoredClaim) → c.status ≡ awaiting_approval → approved_loss y c ≡ pos 0
unfolding approved_loss
approved_loss-awaiting y c h = ground arith

approved_loss-approved :
    (u : StoredClaim)
    → u.status ≡ approved
    → approved_loss u.syndication_id u ≡ loss_amount u.claimed_loss
unfolding approved_loss
approved_loss-approved u h =
    let same = (==_iff u.syndication_id u.syndication_id).1 refl in ground arith

-- A claim that waits and is stored as approved adds its whole loss to the total.
pub approval-adds_loss :
    (u c : StoredClaim) (s s' : Store)
    → s'.claims ≡ set_claim u s.claims
    → find_claim u.id s.claims ≡ some c
    → c.status ≡ awaiting_approval
    → u.status ≡ approved
    → u.syndication_id ≡ c.syndication_id
    → u.claimed_loss ≡ c.claimed_loss
    → approved_total c.syndication_id s'.claims
      ≡ approved_total c.syndication_id s.claims +ℤ loss_amount c.claimed_loss
approval-adds_loss u c s s' stored found waits granted same loss =
    let changed = approved_total-set_claim c.syndication_id u c s.claims found in
    let before = approved_loss-awaiting c.syndication_id c waits in
    let after =
      ap (λ (y : ℕ). approved_loss y u) (sym same)
      ∙ approved_loss-approved u granted
      ∙ ap loss_amount loss in
    rw stored
      (add_zero before changed ∙ ap (λ z. approved_total c.syndication_id s.claims +ℤ z) after)

-- Where a claims administrator approves a claim that awaits approval, the running total of its
-- syndication grows by the whole claimed loss, whatever the capacity of that syndication is.
pub decide-adds_loss :
    (ctx : AuthContext) (s : Store) (i : ℕ) (c : StoredClaim)
    → MayDecide ctx s i c
    → approved_total c.syndication_id (decide ctx i approve s).1.claims
      ≡ approved_total c.syndication_id s.claims +ℤ loss_amount c.claimed_loss
decide-adds_loss ctx s i c may =
    approval-adds_loss (approved_claim ctx c) c s (decide ctx i approve s).1
      (decide-claims ctx s i c may)
      (ap (λ (k : ℕ). find_claim k s.claims) (find_claim-id i c s.claims may.found) ∙ may.found)
      may.awaiting refl refl refl

pub find_claim-set_claim-same :
    (u c : StoredClaim) (cs : List StoredClaim)
    → find_claim u.id cs ≡ some c
    → find_claim u.id (set_claim u cs) ≡ some u
unfolding find_claim set_claim
find_claim-set_claim-same u c [] h = cc
find_claim-set_claim-same u c (x ∷ xs) h = elim (Bool-cases (x.id == u.id)) [
  | inl hit ↦ let own = (==_iff u.id u.id).1 refl in rw (hit, own) refl
  | inr miss ↦ rw (miss, miss) (find_claim-set_claim-same u c xs (ground (arith, miss)))
]

find_claim-set_claim-other :
    (i : ℕ) (c : StoredClaim) (cs : List StoredClaim)
    → c.id ≢ i
    → find_claim i (set_claim c cs) ≡ find_claim i cs
unfolding find_claim set_claim
find_claim-set_claim-other i c [] h = refl
find_claim-set_claim-other i c (x ∷ xs) h =
    let rest = find_claim-set_claim-other i c xs h in
    elim (Bool-cases (x.id == c.id)) [
      | inl hit ↦ rw (set_claim-hit c x xs hit) (ground arith)
      | inr miss ↦ rw (set_claim-miss c x xs miss) (ground arith)
    ]

-- Of two claims on one syndication that both await approval, the approvals of a claims
-- administrator, one after the other, add both losses to the running total. Nothing relates their sum
-- to the capacity.
pub decide-adds_both :
    (ctx : AuthContext) (s : Store) (i j : ℕ) (c d : StoredClaim)
    → MayDecide ctx s i c
    → MayDecide ctx s j d
    → i ≢ j
    → c.syndication_id ≡ d.syndication_id
    → approved_total c.syndication_id (decide ctx j approve (decide ctx i approve s).1).1.claims
      ≡ approved_total c.syndication_id s.claims
        +ℤ loss_amount c.claimed_loss
        +ℤ loss_amount d.claimed_loss
decide-adds_both ctx s i j c d first second differ same =
    let stored = decide-claims ctx s i c first in
    let still =
      find_claim-set_claim-other j (approved_claim ctx c) s.claims
        (λ (e : c.id ≡ j). differ (sym (find_claim-id i c s.claims first.found) ∙ e)) in
    let ready : MayDecide ctx (decide ctx i approve s).1 j d = record {
      administrator = second.administrator;
      found = ap (find_claim j) stored ∙ still ∙ second.found;
      reads = second.reads;
      awaiting = second.awaiting;
    } in
    let added = decide-adds_loss ctx (decide ctx i approve s).1 j d ready in
    rw same (
      rw added (
        ap (λ z. z +ℤ loss_amount d.claimed_loss)
          (subst
            (λ (y : ℕ).
              approved_total y (decide ctx i approve s).1.claims
              ≡ approved_total y s.claims +ℤ loss_amount c.claimed_loss)
            same (decide-adds_loss ctx s i c first))))
