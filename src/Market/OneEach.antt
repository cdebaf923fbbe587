-- ===== src/Market/OneEach.antt =====
-- Every call keeps one syndication for each listing.
use neo_lloyds.Prelude.{
  ℕ, ◌≡◌, ◌≢◌, refl, sym, ap, subst, ◌∙◌, none, some, [], ◌∷◌, ◌⊎◌, inl, inr, arith,
}
use neo_lloyds.Prelude.Dict.{Dict, get, set, get-set_cases}
use neo_lloyds.Market.Store.{Store, StoredSyndication}
use neo_lloyds.Market.Repositories.{find_by_listing, bound_syndication}
use neo_lloyds.Market.Changes.{Change, same, opened, placed, withdrawn, bound}

abbrev pub OneEach : Store → Type 0
OneEach s =
    (i j : ℕ) (y z : StoredSyndication)
    → get i s.syndications ≡ some y
    → get j s.syndications ≡ some z
    → y.listing_id ≡ z.listing_id
    → i ≡ j

find_by_listing-none :
    (l i : ℕ) (d : Dict StoredSyndication) (y : StoredSyndication)
    → find_by_listing l d ≡ none
    → get i d ≡ some y
    → ¬ (y.listing_id ≡ l)
unfolding find_by_listing get
find_by_listing-none l i [] y h found e = cc found
find_by_listing-none l i ((k, x) ∷ d) y h found e = ground (arith, find_by_listing-none l i d y)

-- An entry after a write has an entry before of the same listing under its key, or is the written one.
listed_before :
    (s t : Store) (k i : ℕ) (w y : StoredSyndication)
    → t.syndications ≡ set k w s.syndications
    → get i t.syndications ≡ some y
    → ((k ≡ i) × (w ≡ y)) ⊎ ((k ≢ i) × (get i s.syndications ≡ some y))
listed_before s t k i w y e found =
    get-set_cases k i w s.syndications (subst (λ d. get i d ≡ some y) e found)

-- The entry of the same listing that stood at a key before `bind`.
before_bound :
    (s t : Store) (k i now : ℕ) (z y : StoredSyndication)
    → t.syndications ≡ set k (bound_syndication now z) s.syndications
    → get k s.syndications ≡ some z
    → get i t.syndications ≡ some y
    → (x : StoredSyndication) × (get i s.syndications ≡ some x) × (x.listing_id ≡ y.listing_id)
before_bound s t k i now z y e open_ found =
    elim (listed_before s t k i (bound_syndication now z) y e found) [
      | inl (is, new) ↦ (
        z,
        ap (λ (j : ℕ). get j s.syndications) (sym is) ∙ open_,
        ap (λ (x : StoredSyndication). x.listing_id) new,
      )
      | inr (_, old) ↦ (y, old, refl)
    ]

pub Change-OneEach : (s t : Store) → OneEach s → Change s t → OneEach t
Change-OneEach s t one (same b) i j y z p q e =
    one i j y z (rw b.syndications at p) (rw b.syndications at q) e
Change-OneEach s t one (placed k x actor o limit a updated b) i j y z p q e =
    one i j y z (rw b.syndications at p) (rw b.syndications at q) e
Change-OneEach s t one (withdrawn k x actor o rest b) i j y z p q e =
    one i j y z (rw b.syndications at p) (rw b.syndications at q) e
Change-OneEach s t one (bound k x actor now final b) i j y z p q e =
    let (y', p', ey) = before_bound s t k i now x y b.syndications b.at.found p in
    let (z', q', ez) = before_bound s t k j now x z b.syndications b.at.found q in
    one i j y' z' p' q' (ey ∙ e ∙ sym ez)
Change-OneEach s t one (opened x b) i j y z p q e =
    elim (listed_before s t x.id i x y b.syndications p) [
      | inl (is, new) ↦ elim (listed_before s t x.id j x z b.syndications q) [
        | inl (is', _) ↦ sym is ∙ is'
        | inr (_, old) ↦ absurd (
            find_by_listing-none x.listing_id j s.syndications z b.free old
              (sym e ∙ sym (ap (λ (w : StoredSyndication). w.listing_id) new)))
      ]
      | inr (_, old) ↦ elim (listed_before s t x.id j x z b.syndications q) [
        | inl (_, new) ↦ absurd (
            find_by_listing-none x.listing_id i s.syndications y b.free old
              (e ∙ sym (ap (λ (w : StoredSyndication). w.listing_id) new)))
        | inr (_, old') ↦ one i j y z old old' e
      ]
    ]
