-- ===== src/Market/Refinement.antt =====
-- Every call of the services is at most one step of the abstract machine of each syndication.
use neo_lloyds.Prelude.{
  ℕ, ◌≡◌, refl, ap, subst, ◌∙◌, true, false, Option, none, some, List, [], ◌==◌, ==_iff, Bool-cases,
  inl, inr,
}
use mathlib.Core.Path.{ap₂}
use neo_lloyds.Prelude.Dict.{get, set, get-set, get-set-same}
use neo_lloyds.Syndication.{Allocation}
use neo_lloyds.Market.Store.{Store, StoredSyndication}
use neo_lloyds.Market.Repositories.{list_at, bound_syndication}
use neo_lloyds.Market.Reads.{list_at-set, same_key}
use neo_lloyds.Market.Changes.{
  Change, same, opened, placed, withdrawn, bound, run-Change, OpenedBook,
}
use neo_lloyds.Market.Valid.{added_entry}
use neo_lloyds.Market.Invariant.{IsMarket}
use neo_lloyds.Market.Calls.{Call, run, IsFresh}
use neo_lloyds.Market.Spec.{BookStep, Refines, stutter, created, moves, book_of, book_from, book_at}
use neo_lloyds.Market.Moves.{BookStep-placed, BookStep-withdrawn, BookStep-bound, book_of-empty}

-- How a book reads after one of its two parts was written.
module _ (i k : ℕ) (s t : Store) (found : Option StoredSyndication) (l : List Allocation)
    (records : get i t.syndications ≡ found) (lists : t.allocations ≡ set k l s.allocations) where
  book_at-miss : found ≡ get i s.syndications → (k == i) ≡ false → book_at i t ≡ book_at i s
  unfolding book_at
  book_at-miss same_one miss =
      ap₂ book_from (records ∙ same_one)
        (ap (list_at i) lists ∙ list_at-set k i l s.allocations ∙ rw miss refl)

  book_at-hit : (k == i) ≡ true → book_at i t ≡ book_from found l
  unfolding book_at
  book_at-hit hit =
      ap₂ book_from records (ap (list_at i) lists ∙ list_at-set k i l s.allocations ∙ rw hit refl)

book_at-found :
    (k : ℕ) (y : StoredSyndication) (s : Store)
    → get k s.syndications ≡ some y
    → book_at k s ≡ some (book_of y (list_at k s.allocations))
unfolding book_at book_from
book_at-found k y s found = ap (λ o. book_from o (list_at k s.allocations)) found

book_at-none : (k : ℕ) (s : Store) → get k s.syndications ≡ none → book_at k s ≡ none
unfolding book_at book_from
book_at-none k s missing = ap (λ o. book_from o (list_at k s.allocations)) missing

-- The book that is written moves, and the others stand still.
module _ (s t : Store) (k : ℕ) (l : List Allocation) (y z : StoredSyndication)
    (found : get k s.syndications ≡ some y) (lists : t.allocations ≡ set k l s.allocations)
    (own : get k t.syndications ≡ some z)
    (others : (i : ℕ) → (k == i) ≡ false → get i t.syndications ≡ get i s.syndications)
    (step : BookStep (book_of y (list_at k s.allocations)) (book_of z l)) where
  written-Refines : (i : ℕ) → Refines (book_at i s) (book_at i t)
  unfolding book_from
  written-Refines i = elim (Bool-cases (k == i)) [
    | inl hit ↦
        subst (λ (j : ℕ). Refines (book_at j s) (book_at j t)) ((==_iff k i).0 hit)
          (moves (book_of y (list_at k s.allocations)) (book_of z l) (book_at-found k y s found)
            (book_at-hit k k s t (some z) l own lists (same_key k)) step)
    | inr miss ↦
        stutter (book_at-miss i k s t (get i t.syndications) l refl lists (others i miss) miss)
  ]

opened-Refines :
    (s t : Store) (y : StoredSyndication)
    → OpenedBook y s t
    → (i : ℕ) → Refines (book_at i s) (book_at i t)
unfolding book_from
opened-Refines s t y b i = elim (Bool-cases (y.id == i)) [
  | inl hit ↦
      let own = ap (get y.id) b.syndications ∙ get-set-same y.id y s.syndications in
      subst (λ (j : ℕ). Refines (book_at j s) (book_at j t)) ((==_iff y.id i).0 hit)
        (created y.capacity (book_at-none y.id s b.fresh) (
          book_at-hit y.id y.id s t (some y) [] own b.allocations (same_key y.id)
          ∙ ap some (book_of-empty y b.opened)))
  | inr miss ↦
      let other = ap (get i) b.syndications ∙ get-set y.id i y s.syndications ∙ rw miss refl in
      stutter (book_at-miss i y.id s t (get i t.syndications) [] refl b.allocations other miss)
]

Change-Refines :
    (s t : Store) → IsMarket s → Change s t → (i : ℕ) → Refines (book_at i s) (book_at i t)
unfolding book_at
Change-Refines s t m (same b) i =
    stutter (ap₂ book_from (ap (get i) b.syndications) (ap (list_at i) b.allocations))
Change-Refines s t m (opened y b) i = opened-Refines s t y b i
Change-Refines s t m (placed k y actor p limit a updated b) i =
    let (_, is) =
      added_entry (list_at k s.allocations) p y.capacity limit updated a b.accepted b.is_own in
    written-Refines s t k _ y y b.at.found b.allocations (ap (get k) b.syndications ∙ b.at.found)
      (λ j miss. ap (get j) b.syndications)
      (BookStep-placed y _ p limit updated a b.at.opened b.accepted is) i
Change-Refines s t m (withdrawn k y actor o rest b) i =
    written-Refines s t k _ y y b.at.found b.allocations (ap (get k) b.syndications ∙ b.at.found)
      (λ j miss. ap (get j) b.syndications)
      (BookStep-withdrawn y _ o rest b.at.opened (m.valid k) b.held) i
Change-Refines s t m (bound k y actor now final b) i =
    written-Refines s t k final y (bound_syndication now y) b.at.found b.allocations
      (ap (get k) b.syndications ∙ get-set-same k _ s.syndications)
      (λ j miss. ap (get j) b.syndications ∙ get-set k j _ s.syndications ∙ rw miss refl)
      (BookStep-bound y now _ final b.at.opened b.exact) i

-- The services implement the abstract machine: from a store with the invariant, each call of any of
-- them leaves the book of a syndication alone, creates it empty where there was none, or makes one
-- legal step of it (an organisation without a share takes one that fits, one gives its share back, or
-- a book of exactly 100 % is bound), and only while it is open. An identifier that `open` draws is new.
pub run-Refines :
    (s : Store) (c : Call)
    → IsFresh c s
    → IsMarket s
    → (i : ℕ) → Refines (book_at i s) (book_at i (run c s).1)
run-Refines s c fresh m i = Change-Refines s (run c s).1 m (run-Change c s fresh) i
