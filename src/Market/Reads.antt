-- ===== src/Market/Reads.antt =====
-- What is read back from the maps of lists after a write.
use neo_lloyds.Prelude.{
  ℕ, ◌≡◌, refl, sym, ap, ◌∙◌, true, false, Option, none, some, List, [], ◌∷◌, ◌++◌, map, ◌==◌,
  ==_iff, Bool-cases, inl, inr, if◌then◌else◌,
}
use mathlib.Core.List.{append-nil, append_assoc}
use neo_lloyds.Prelude.Dict.{Dict, set, get-set}
use neo_lloyds.Syndication.{Allocation}
use neo_lloyds.Market.Store.{AllocationEvent, bound}
use neo_lloyds.Market.Repositories.{
  or_nil, list_at, append_event, record_removal, append_bound, event_of,
}

pub list_at-set {ℓ} :
    {A : Type ℓ} (k i : ℕ) (l : List A) (d : Dict (List A))
    → list_at i (set k l d) ≡ (if k == i then l else list_at i d)
list_at-set k i l d =
    ap or_nil (get-set k i l d)
    ∙ elim (Bool-cases (k == i)) [ inl hit ↦ rw hit refl | inr miss ↦ rw miss refl ]

module _ (i j : ℕ) (events : Dict (List AllocationEvent)) where
  pub list_at-append_event :
      (e : AllocationEvent)
      → list_at j (append_event i e events)
        ≡ (if i == j then list_at i events ++ e ∷ [] else list_at j events)
  unfolding append_event
  list_at-append_event e = list_at-set i j (list_at i events ++ e ∷ []) events

pub same_key : (i : ℕ) → (i == i) ≡ true
same_key i = (==_iff i i).1 refl

pub list_at-append_bound-same :
    (i actor : ℕ) (final : List Allocation) (events : Dict (List AllocationEvent))
    → list_at i (append_bound i actor final events)
      ≡ list_at i events ++ map (event_of i actor bound) final
unfolding append_bound
list_at-append_bound-same i actor [] events = sym (append-nil (list_at i events))
list_at-append_bound-same i actor (a ∷ rest) events =
    let e = event_of i actor bound a in
    list_at-append_bound-same i actor rest (append_event i e events)
    ∙ ap (λ (l : List AllocationEvent). l ++ map (event_of i actor bound) rest)
        (list_at-append_event i i events e ∙ rw (same_key i) refl)
    ∙ append_assoc (list_at i events) (e ∷ []) (map (event_of i actor bound) rest)

pub list_at-append_bound-other :
    (i j actor : ℕ) (final : List Allocation) (events : Dict (List AllocationEvent))
    → (i == j) ≡ false
    → list_at j (append_bound i actor final events) ≡ list_at j events
unfolding append_bound
list_at-append_bound-other i j actor [] events h = refl
list_at-append_bound-other i j actor (a ∷ rest) events h =
    let e = event_of i actor bound a in
    list_at-append_bound-other i j actor rest (append_event i e events) h
    ∙ list_at-append_event i j events e
    ∙ rw h refl

pub list_at-record_removal-other :
    (i j actor : ℕ) (found : Option Allocation) (events : Dict (List AllocationEvent))
    → (i == j) ≡ false
    → list_at j (record_removal i actor found events) ≡ list_at j events
list_at-record_removal-other i j actor none events h = refl
list_at-record_removal-other i j actor (some a) events h =
    list_at-append_event i j events _ ∙ rw h refl
