-- ===== src/Market/Frozen.antt =====
-- The binding boundary: what is bound stays as it is, whatever is called later.
use neo_lloyds.Prelude.{
  ℕ, ◌≡◌, refl, ap, ◌∙◌, false, none, some, [], arith, ◌==◌, ==_iff, Bool-cases, inl, inr,
}
use neo_lloyds.Prelude.Dict.{get, get-set}
use neo_lloyds.Market.Store.{Store, StoredSyndication, is_open}
use neo_lloyds.Market.Repositories.{list_at}
use neo_lloyds.Market.Reads.{
  list_at-set, list_at-append_event, list_at-append_bound-other, list_at-record_removal-other,
}
use neo_lloyds.Market.Calls.{Reach, Reach-induction}
use neo_lloyds.Market.Changes.{Change, same, opened, placed, withdrawn, bound, IsOpenAt, run-Change}

-- The record of a syndication with its allocations and its events.
pub record IsBook (i : ℕ) (y : StoredSyndication) (s t : Store) : Type 0 where
  pub found : get i t.syndications ≡ some y
  pub allocations : list_at i t.allocations ≡ list_at i s.allocations
  pub events : list_at i t.events ≡ list_at i s.events

-- A key that reads otherwise is another key.
apart : (i j : ℕ) (s : Store) → ¬ (get j s.syndications ≡ get i s.syndications) → (j == i) ≡ false
apart i j s h = elim (Bool-cases (j == i)) [
  | inr miss ↦ miss
  | inl hit ↦ absurd (h (ap (λ (k : ℕ). get k s.syndications) ((==_iff j i).0 hit)))
]

module _ (i : ℕ) (y : StoredSyndication) (s : Store) (found : get i s.syndications ≡ some y)
    (shut : is_open y.status ≡ false) where
  apart_from_missing : (j : ℕ) → get j s.syndications ≡ none → (j == i) ≡ false
  apart_from_missing j missing = apart i j s (λ e. ground arith)

  apart_from_open : (j : ℕ) (z : StoredSyndication) → IsOpenAt j z s → (j == i) ≡ false
  apart_from_open j z at = apart i j s (λ e. ground arith)

  Change-IsBook : (t : Store) → Change s t → IsBook i y s t
  Change-IsBook t (same b) = record {
    found = rw b.syndications found;
    allocations = rw b.allocations refl;
    events = rw b.events refl;
  }
  Change-IsBook t (opened z b) =
      let other = apart_from_missing z.id b.fresh in
      record {
        found = rw (b.syndications, get-set z.id i z s.syndications, other) found;
        allocations = rw (b.allocations, list_at-set z.id i [] s.allocations, other) refl;
        events = rw (b.events, list_at-set z.id i [] s.events, other) refl;
      }
  Change-IsBook t (placed j z actor p limit a updated b) =
      let other = apart_from_open j z b.at in
      record {
        found = rw b.syndications found;
        allocations = rw (b.allocations, list_at-set j i _ s.allocations, other) refl;
        events = rw (b.events, list_at-append_event j i s.events _, other) refl;
      }
  Change-IsBook t (withdrawn j z actor o rest b) =
      let other = apart_from_open j z b.at in
      record {
        found = rw b.syndications found;
        allocations = rw (b.allocations, list_at-set j i _ s.allocations, other) refl;
        events = rw (b.events, list_at-record_removal-other j i actor _ s.events other) refl;
      }
  Change-IsBook t (bound j z actor now final b) =
      let other = apart_from_open j z b.at in
      record {
        found = rw (b.syndications, get-set j i _ s.syndications, other) found;
        allocations = rw (b.allocations, list_at-set j i final s.allocations, other) refl;
        events = rw (b.events, list_at-append_bound-other j i actor final s.events other) refl;
      }

-- A syndication that is not open is final: after any calls of the market's services, by whomever and in
-- any order, its record, its allocations and its event log are what they were.
pub Reach-IsBook :
    (i : ℕ) (y : StoredSyndication) (s t : Store)
    → get i s.syndications ≡ some y
    → is_open y.status ≡ false
    → Reach s t
    → IsBook i y s t
Reach-IsBook i y s t found shut r =
    Reach-induction (IsBook i y s)
      (λ u c fresh b.
        let one = Change-IsBook i y u b.found shut _ (run-Change c u fresh) in
        record {
          found = one.found;
          allocations = one.allocations ∙ b.allocations;
          events = one.events ∙ b.events;
        })
      r (record { found = found; allocations = refl; events = refl })
