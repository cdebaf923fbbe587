-- ===== src/Market/Replay.antt =====
-- The event log of a syndication tells its allocations: to replay the events from nothing gives the
-- list that is stored.
use neo_lloyds.Prelude.{
  ℕ, ◌≡◌, refl, sym, ap, ◌∙◌, true, false, List, [], ◌∷◌, ◌++◌, map, arith, ◌==◌, ==_iff,
  if◌then◌else◌,
}
use neo_lloyds.Syndication.{Allocation, AllocationProposal, has_allocation, without}
use neo_lloyds.Syndication.Proposals.{IsDistinct}
use neo_lloyds.Syndication.Shares.{SameProposals, same_head, has_allocation_congr}
use neo_lloyds.Market.Store.{AllocationEvent, EventAction, proposed, removed, bound}
use neo_lloyds.Market.Repositories.{event_of}

abbrev allocation_in : AllocationEvent → Allocation
allocation_in e = record {
  proposal = record { organisation_id = e.organisation_id; share_bps = e.share_bps };
  amount = e.amount;
}

-- A final allocation takes the place of its proposal.
unfoldable pub settle : Allocation → List Allocation → List Allocation
settle a [] = []
settle a (x ∷ l) = if x.organisation_id == a.organisation_id then a ∷ settle a l else x ∷ settle a l

unfoldable pub tell : EventAction → Allocation → List Allocation → List Allocation
unfolding settle
tell proposed a l = l ++ a ∷ []
tell removed a l = without a.organisation_id l
tell bound a l = settle a l

unfoldable pub replay_onto : List Allocation → List AllocationEvent → List Allocation
unfolding tell
replay_onto l [] = l
replay_onto l (e ∷ es) = replay_onto (tell e.action (allocation_in e) l) es

-- What the log tells.
unfoldable pub replay : List AllocationEvent → List Allocation
unfolding replay_onto
replay = replay_onto []

pub replay_onto-append :
    (l : List Allocation) (xs ys : List AllocationEvent)
    → replay_onto l (xs ++ ys) ≡ replay_onto (replay_onto l xs) ys
unfolding replay_onto
replay_onto-append l [] ys = refl
replay_onto-append l (x ∷ xs) ys = replay_onto-append (tell x.action (allocation_in x) l) xs ys

settle-absent :
    (a : Allocation) (l : List Allocation)
    → has_allocation a.organisation_id l ≡ false
    → settle a l ≡ l
unfolding settle has_allocation
settle-absent a [] h = refl
settle-absent a (x ∷ l) h = ground (arith, settle-absent a l)

abbrev bound_events : ℕ → ℕ → List Allocation → List AllocationEvent
bound_events i actor = map (event_of i actor bound)

module _ (a x : Allocation) (l : List Allocation) where
  settle-miss : (x.organisation_id == a.organisation_id) ≡ false → settle a (x ∷ l) ≡ x ∷ settle a l
  unfolding settle
  settle-miss h = ground arith

  settle-hit : (x.organisation_id == a.organisation_id) ≡ true → settle a (x ∷ l) ≡ a ∷ settle a l
  unfolding settle
  settle-hit h = ground arith

-- The events of other organisations pass an allocation by.
replay_onto-pass :
    (i actor : ℕ) (x : Allocation) (l finals : List Allocation)
    → has_allocation x.organisation_id finals ≡ false
    → replay_onto (x ∷ l) (bound_events i actor finals)
      ≡ x ∷ replay_onto l (bound_events i actor finals)
unfolding replay_onto tell has_allocation
replay_onto-pass i actor x l [] h = refl
replay_onto-pass i actor x l (f ∷ finals) h =
    let miss : (x.organisation_id == f.organisation_id) ≡ false = ground arith in
    let later : has_allocation x.organisation_id finals ≡ false = ground arith in
    ap (λ (m : List Allocation). replay_onto m (bound_events i actor finals))
      (settle-miss f x l miss)
    ∙ replay_onto-pass i actor x (settle f l) finals later

pub replay-bound :
    (i actor : ℕ) (current finals : List Allocation)
    → SameProposals finals current
    → IsDistinct current
    → replay_onto current (bound_events i actor finals) ≡ finals
unfolding replay_onto tell
replay-bound i actor [] [] same d = refl
replay-bound i actor [] (f ∷ finals) same d = cc same
replay-bound i actor (x ∷ current) [] same d = cc same
replay-bound i actor (x ∷ current) (f ∷ finals) same d =
    let (head, tail) = same_head f x finals current same in
    let o = ap (λ (p : AllocationProposal). p.organisation_id) head in
    let hit : (x.organisation_id == f.organisation_id) ≡ true = (==_iff _ _).1 (sym o) in
    let absent : has_allocation f.organisation_id current ≡ false =
      ap (λ (k : ℕ). has_allocation k current) o ∙ d.0 in
    let apart = has_allocation_congr f.organisation_id finals current tail ∙ absent in
    let settled : settle f (x ∷ current) ≡ f ∷ current =
      settle-hit f x current hit
      ∙ ap (λ (l : List Allocation). f ∷ l) (settle-absent f current absent) in
    ap (λ (m : List Allocation). replay_onto m (bound_events i actor finals)) settled
    ∙ replay_onto-pass i actor f current finals apart
    ∙ ap (λ (l : List Allocation). f ∷ l) (replay-bound i actor current finals tail d.1)
