-- ===== src/Market/Log.antt =====
-- Every call keeps the event logs true: each replays to the allocations that are stored.
use neo_lloyds.Prelude.{
  ℕ, ◌≡◌, refl, sym, ap, ◌∙◌, false, Option, none, some, List, [], ◌∷◌, ◌++◌, map, arith, ◌==◌,
  ==_iff, Bool-cases, inl, inr,
}
use neo_lloyds.Prelude.Dict.{set}
use neo_lloyds.Errors.{ok}
use neo_lloyds.Syndication.{Allocation, has_allocation, without, bind_allocations}
use neo_lloyds.Syndication.Proposals.{without-absent}
use neo_lloyds.Syndication.Binding.{bind_allocations-keeps}
use neo_lloyds.Market.Store.{Store, AllocationEvent, StoredSyndication, proposed}
use neo_lloyds.Market.Store
use neo_lloyds.Market.Repositories.{
  list_at, find_allocation, event_of, append_event, record_removal, append_bound,
}
use neo_lloyds.Market.Reads.{
  list_at-set, list_at-append_event, list_at-append_bound-same, list_at-append_bound-other,
  list_at-record_removal-other, same_key,
}
use neo_lloyds.Market.Changes.{Change, same, opened, placed, withdrawn, bound}
use neo_lloyds.Market.Valid.{AllValid}
use neo_lloyds.Market.Replay.{replay, replay_onto, replay_onto-append, replay-bound, tell}

abbrev pub AllReplayed : Store → Type 0
AllReplayed s = (i : ℕ) → replay (list_at i s.events) ≡ list_at i s.allocations

-- One log and one list of allocations are written together.
logged :
    (s t : Store) (k : ℕ) (l : List Allocation)
    → t.allocations ≡ set k l s.allocations
    → ((i : ℕ) → (k == i) ≡ false → list_at i t.events ≡ list_at i s.events)
    → replay (list_at k t.events) ≡ l
    → AllReplayed s
    → AllReplayed t
logged s t k l e others told all i = elim (Bool-cases (k == i)) [
  | inl hit ↦
      let is = (==_iff k i).0 hit in
      ap (λ (j : ℕ). replay (list_at j t.events)) (sym is)
      ∙ told
      ∙ rw (e, list_at-set k i l s.allocations, hit) refl
  | inr miss ↦ rw (e, list_at-set k i l s.allocations, miss) (ap replay (others i miss) ∙ all i)
]

find_none : (o : ℕ) (l : List Allocation) → find_allocation o l ≡ none → has_allocation o l ≡ false
unfolding find_allocation has_allocation
find_none o [] h = refl
find_none o (x ∷ l) h = ground (arith, find_none o l)

find_some :
    (o : ℕ) (l : List Allocation) (a : Allocation)
    → find_allocation o l ≡ some a
    → a.organisation_id ≡ o
unfolding find_allocation
find_some o [] a h = cc h
find_some o (x ∷ l) a h = ground (arith, find_some o l a)

replay-event :
    (xs : List AllocationEvent) (e : AllocationEvent) {current : List Allocation}
    → replay xs ≡ current
    → replay (xs ++ e ∷ []) ≡ replay_onto current (e ∷ [])
unfolding replay
replay-event xs e h = replay_onto-append [] xs (e ∷ []) ∙ ap (λ l. replay_onto l (e ∷ [])) h

module _ (s : Store) (i : ℕ) (all : AllReplayed s) where
  told_placed :
      (actor : ℕ) (a : Allocation)
      → replay (list_at i (append_event i (event_of i actor proposed a) s.events))
        ≡ list_at i s.allocations ++ a ∷ []
  unfolding replay_onto tell
  told_placed actor a =
      let e = event_of i actor proposed a in
      ap replay (list_at-append_event i i s.events e ∙ rw (same_key i) refl)
      ∙ replay-event (list_at i s.events) e (all i)

  told_removed :
      (actor o : ℕ) (found : Option Allocation)
      → find_allocation o (list_at i s.allocations) ≡ found
      → replay (list_at i (record_removal i actor found s.events))
        ≡ without o (list_at i s.allocations)
  unfolding replay_onto tell
  told_removed actor o none missing =
      all i ∙ sym (without-absent o _ (find_none o (list_at i s.allocations) missing))
  told_removed actor o (some a) found =
      let e = event_of i actor Store.removed a in
      ap replay (list_at-append_event i i s.events e ∙ rw (same_key i) refl)
      ∙ replay-event (list_at i s.events) e (all i)
      ∙ ap (λ (k : ℕ). without k (list_at i s.allocations))
          (find_some o (list_at i s.allocations) a found)

  told_bound :
      (actor : ℕ) (y : StoredSyndication) (final : List Allocation)
      → AllValid s
      → bind_allocations (list_at i s.allocations) y.capacity ≡ ok final
      → replay (list_at i (append_bound i actor final s.events)) ≡ final
  unfolding replay
  told_bound actor y final valid exact =
      let current = list_at i s.allocations in
      let events = map (event_of i actor Store.bound) final in
      let (_, kept) = bind_allocations-keeps current y.capacity final exact in
      ap replay (list_at-append_bound-same i actor final s.events)
      ∙ replay_onto-append [] (list_at i s.events) events
      ∙ ap (λ l. replay_onto l events) (all i)
      ∙ replay-bound i actor current final kept (valid i).distinct

pub Change-AllReplayed : (s t : Store) → AllValid s → AllReplayed s → Change s t → AllReplayed t
unfolding replay replay_onto
Change-AllReplayed s t valid all (same b) i = rw (b.events, b.allocations) (all i)
Change-AllReplayed s t valid all (opened y b) i =
    logged s t y.id [] b.allocations
      (λ j miss. rw (b.events, list_at-set y.id j [] s.events, miss) refl)
      (rw (b.events, list_at-set y.id y.id [] s.events, same_key y.id) refl) all i
Change-AllReplayed s t valid all (placed k y actor p limit a updated b) i =
    logged s t k _ b.allocations
      (λ j miss. rw (b.events, list_at-append_event k j s.events _, miss) refl)
      (rw b.events (told_placed s k all actor a)) all i
Change-AllReplayed s t valid all (withdrawn k y actor o rest b) i =
    logged s t k _ b.allocations
      (λ j miss. rw (b.events, list_at-record_removal-other k j actor _ s.events miss) refl)
      (rw b.events (told_removed s k all actor o _ refl)) all i
Change-AllReplayed s t valid all (bound k y actor now final b) i =
    logged s t k final b.allocations
      (λ j miss. rw (b.events, list_at-append_bound-other k j actor final s.events miss) refl)
      (rw b.events (told_bound s k all actor y final valid b.exact)) all i
