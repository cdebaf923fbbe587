-- ===== src/Market/Exposure.antt =====
-- The check across syndications: what a provider holds anywhere, after a proposal of its own.
use neo_lloyds.Prelude.{
  ℕ, ◌≡◌, refl, sym, ap, ◌∙◌, true, false, Option, none, some, List, [], ◌∷◌, ◌++◌, arith, ◌==◌,
  ==_iff, Bool-cases, Option-cases, inl, inr,
}
use neo_lloyds.Prelude.Dict.{Dict, get, set}
use neo_lloyds.Prelude.Int.{ℤ, pos, ◌+ℤ◌, int_laws, +ℤ_assoc, zero-+ℤ}
use neo_lloyds.Syndication.{Allocation}
use neo_lloyds.Capital.{AllocationContribution}
use neo_lloyds.Market.Store.{StoredSyndication}
use neo_lloyds.Market.Repositories.{list_at, contributions_from, allocations_for_organisation}

-- The sum of a figure of the contributions.
unfoldable pub total : (AllocationContribution → ℤ) → List AllocationContribution → ℤ
total f [] = pos 0
total f (c ∷ cs) = f c +ℤ total f cs

abbrev pub contribution : ℕ → StoredSyndication → Allocation → AllocationContribution
contribution i y a = record {
  syndication_id = i;
  status = y.status;
  listing_id = y.listing_id;
  risk_class = 0;
  jurisdiction = 0;
  counterparty_organisation_id = 0;
  amount = a.amount;
}

total-append :
    (f : AllocationContribution → ℤ) (xs ys : List AllocationContribution)
    → total f (xs ++ ys) ≡ total f xs +ℤ total f ys
unfolding total
total-append f [] ys = omega int_laws
total-append f (x ∷ xs) ys =
    ap (λ z. f x +ℤ z) (total-append f xs ys) ∙ sym (+ℤ_assoc (f x) (total f xs) (total f ys))

module _ (f : AllocationContribution → ℤ) (o i : ℕ) (y : StoredSyndication) (a : Allocation)
    (mine : a.organisation_id ≡ o) where
  total-contributions_from :
      (l : List Allocation)
      → total f (contributions_from o i y (l ++ a ∷ []))
        ≡ total f (contributions_from o i y l) +ℤ f (contribution i y a)
  unfolding total contributions_from
  total-contributions_from [] = rw ((==_iff a.organisation_id o).1 mine) (omega int_laws)
  total-contributions_from (x ∷ l) = elim (Bool-cases (x.organisation_id == o)) [
    | inl hit ↦ rw hit (
        ap (λ z. f (contribution i y x) +ℤ z) (total-contributions_from l)
        ∙ sym (+ℤ_assoc (f (contribution i y x)) _ _))
    | inr miss ↦ rw miss (total-contributions_from l)
  ]

-- What one entry of the map contributes.
of_entry : ℕ → ℕ → Option StoredSyndication → List Allocation → List AllocationContribution
of_entry o i none l = []
of_entry o i (some y) l = contributions_from o i y l

for_organisation-cons :
    (o i : ℕ) (l : List Allocation) (syns : Dict StoredSyndication) (d : Dict (List Allocation))
    → allocations_for_organisation o syns ((i, l) ∷ d)
      ≡ of_entry o i (get i syns) l ++ allocations_for_organisation o syns d
unfolding allocations_for_organisation of_entry
for_organisation-cons o i l syns d = elim (Option-cases (get i syns)) [
  | inl missing ↦ ground arith
  | inr (y, found) ↦ ground arith
]

module _ (i j : ℕ) (l v : List Allocation) (d : Dict (List Allocation)) where
  set-hit : (j == i) ≡ true → set i v ((j, l) ∷ d) ≡ (i, v) ∷ d
  unfolding set
  set-hit hit = rw hit refl

  set-miss : (j == i) ≡ false → set i v ((j, l) ∷ d) ≡ (j, l) ∷ set i v d
  unfolding set
  set-miss miss = rw miss refl

module _ (i j : ℕ) (l : List Allocation) (d : Dict (List Allocation)) where
  list_at-hit : (j == i) ≡ true → list_at i ((j, l) ∷ d) ≡ l
  unfolding get
  list_at-hit hit = rw hit refl

  list_at-miss : (j == i) ≡ false → list_at i ((j, l) ∷ d) ≡ list_at i d
  unfolding get
  list_at-miss miss = rw miss refl

later : (x y z : ℤ) → x +ℤ z +ℤ y ≡ x +ℤ y +ℤ z
later x y z = omega int_laws

module _ (f : AllocationContribution → ℤ) (o : ℕ) (syns : Dict StoredSyndication) where
  abbrev pub held : Dict (List Allocation) → ℤ
  held d = total f (allocations_for_organisation o syns d)

  held-cons :
      (i : ℕ) (l : List Allocation) (d : Dict (List Allocation))
      → held ((i, l) ∷ d) ≡ total f (of_entry o i (get i syns) l) +ℤ held d
  held-cons i l d =
      ap (total f) (for_organisation-cons o i l syns d)
      ∙ total-append f (of_entry o i (get i syns) l) (allocations_for_organisation o syns d)

  -- An own allocation more in an entry of the map.
  module _ (i : ℕ) (y : StoredSyndication) (a : Allocation) (mine : a.organisation_id ≡ o)
      (found : get i syns ≡ some y) where
    held-added_here :
        (l : List Allocation) (d : Dict (List Allocation))
        → held ((i, l ++ a ∷ []) ∷ d) ≡ held ((i, l) ∷ d) +ℤ f (contribution i y a)
    unfolding of_entry
    held-added_here l d =
        held-cons i (l ++ a ∷ []) d
        ∙ ap (λ e. total f (of_entry o i e (l ++ a ∷ [])) +ℤ held d) found
        ∙ ap (λ z. z +ℤ held d) (total-contributions_from f o i y a mine l)
        ∙ later (total f (contributions_from o i y l)) (held d) (f (contribution i y a))
        ∙ ap (λ z. z +ℤ f (contribution i y a))
            (sym (held-cons i l d ∙ ap (λ e. total f (of_entry o i e l) +ℤ held d) found))

    pub held-added :
        (d : Dict (List Allocation))
        → held (set i (list_at i d ++ a ∷ []) d) ≡ held d +ℤ f (contribution i y a)
    unfolding set get of_entry contributions_from total
    held-added [] =
        held-added_here [] []
        ∙ ap (λ z. z +ℤ f (contribution i y a))
            (held-cons i [] []
              ∙ ap (λ e. total f (of_entry o i e []) +ℤ held []) found
              ∙ zero-+ℤ (held []))
    held-added ((j, l) ∷ d) = elim (Bool-cases (j == i)) [
      | inl hit ↦
          ap (λ v. held (set i (v ++ a ∷ []) ((j, l) ∷ d))) (list_at-hit i j l d hit)
          ∙ ap held (set-hit i j l (l ++ a ∷ []) d hit)
          ∙ held-added_here l d
          ∙ ap (λ (k : ℕ). held ((k, l) ∷ d) +ℤ f (contribution i y a)) (sym ((==_iff j i).0 hit))
      | inr miss ↦
          ap (λ v. held (set i (v ++ a ∷ []) ((j, l) ∷ d))) (list_at-miss i j l d miss)
          ∙ ap held (set-miss i j l (list_at i d ++ a ∷ []) d miss)
          ∙ held-cons j l (set i (list_at i d ++ a ∷ []) d)
          ∙ ap (λ z. total f (of_entry o j (get j syns) l) +ℤ z) (held-added d)
          ∙ sym (+ℤ_assoc (total f (of_entry o j (get j syns) l)) (held d) _)
          ∙ ap (λ z. z +ℤ f (contribution i y a)) (sym (held-cons j l d))
    ]
