-- ===== src/Prelude/Sorting.antt =====
-- JavaScript's `Array.prototype.sort`, which is stable, by a strict order of the elements.
use mathlib.Core.Path.{◌≡◌, refl, ap, ◌∙◌}
use Prim.Native.Nat.{suc}
use mathlib.Core.Bool.{Bool, true, false}
use mathlib.Core.List.{List, [], ◌∷◌, map, Perm}
use mathlib.Core.List.Perm
use neo_lloyds.Prelude.Tests.{if◌then◌else◌, Bool-cases}
use neo_lloyds.Prelude.Lists.{length, All, All-map}
use mathlib.Core.Logic.{inl, inr}

module _ {ℓ} {A : Type ℓ} (before : A → A → Bool) where
  -- The new element stood in front of those in the list, and stays there unless it must not.
  unfoldable pub insert_sorted : A → List A → List A
  insert_sorted a [] = a ∷ []
  insert_sorted a (x ∷ xs) =
      let rest = x ∷ insert_sorted a xs in if before x a then rest else a ∷ x ∷ xs

  unfoldable pub sort : List A → List A
  unfolding insert_sorted
  sort [] = []
  sort (x ∷ xs) = insert_sorted x (sort xs)

  length-insert_sorted : (a : A) (xs : List A) → length (insert_sorted a xs) ≡ suc (length xs)
  unfolding insert_sorted
  length-insert_sorted a [] = refl
  length-insert_sorted a (x ∷ xs) = elim (Bool-cases (before x a)) [
    | inl after ↦ rw after (ap suc (length-insert_sorted a xs))
    | inr front ↦ rw front refl
  ]

  pub length-sort : (xs : List A) → length (sort xs) ≡ length xs
  unfolding sort
  length-sort [] = refl
  length-sort (x ∷ xs) = length-insert_sorted x (sort xs) ∙ ap suc (length-sort xs)

  All-insert_sorted {κ} :
      (P : A → Type κ) (a : A) (xs : List A) → P a → All P xs → All P (insert_sorted a xs)
  unfolding insert_sorted
  All-insert_sorted P a [] ha hs = (ha, tt)
  All-insert_sorted P a (x ∷ xs) ha hs = elim (Bool-cases (before x a)) [
    | inl after ↦ rw after (hs.0, All-insert_sorted P a xs ha hs.1)
    | inr front ↦ rw front (ha, hs)
  ]

  -- Sorting keeps what holds of every element.
  pub All-sort {κ} : (P : A → Type κ) (xs : List A) → All P xs → All P (sort xs)
  unfolding sort
  All-sort P [] h = tt
  All-sort P (x ∷ xs) h = All-insert_sorted P x (sort xs) h.0 (All-sort P xs h.1)

  -- No element has one in front of it that it must precede.
  abbrev pub Sorted : List A → Type 0
  Sorted [] = Unit
  Sorted (x ∷ xs) = All (λ y. before y x ≡ false) xs × Sorted xs

  module _ (asym : (a b : A) → before a b ≡ true → before b a ≡ false)
      (neg_trans : (a b c : A) → before a b ≡ false → before b c ≡ false → before a c ≡ false) where
    insert_sorted-Sorted : (a : A) (xs : List A) → Sorted xs → Sorted (insert_sorted a xs)
    unfolding insert_sorted
    insert_sorted-Sorted a [] h = (tt, tt)
    insert_sorted-Sorted a (x ∷ xs) h = elim (Bool-cases (before x a)) [
      | inl after ↦ rw after (
        All-insert_sorted (λ y. before y x ≡ false) a xs (asym x a after) h.0,
        insert_sorted-Sorted a xs h.1,
      )
      | inr front ↦ rw front ((front, All-map xs (λ y e. neg_trans y x a e front) h.0), h)
    ]

    -- By a strict weak order the result is in order.
    pub sort-Sorted : (xs : List A) → Sorted (sort xs)
    unfolding sort
    sort-Sorted [] = tt
    sort-Sorted (x ∷ xs) = insert_sorted-Sorted x (sort xs) (sort-Sorted xs)

-- Sorting rearranges, seen through any function of the elements.
module _ {ℓ κ} {A : Type ℓ} {B : Type κ} (before : A → A → Bool) (f : A → B) where
  insert_sorted-Perm :
      (a : A) (xs : List A) → Perm (map f (insert_sorted before a xs)) (map f (a ∷ xs))
  unfolding insert_sorted
  insert_sorted-Perm a [] = Perm.refl (f a ∷ [])
  insert_sorted-Perm a (x ∷ xs) = elim (Bool-cases (before x a)) [
    | inl after ↦
        rw after (
          Perm.trans (Perm.cons (f x) (insert_sorted-Perm a xs)) (Perm.swap (f a) (f x) (map f xs)))
    | inr front ↦ rw front (Perm.refl (f a ∷ f x ∷ map f xs))
  ]

  pub sort-Perm : (xs : List A) → Perm (map f (sort before xs)) (map f xs)
  unfolding sort
  sort-Perm [] = Perm.refl []
  sort-Perm (x ∷ xs) =
      Perm.trans (insert_sorted-Perm x (sort before xs)) (Perm.cons (f x) (sort-Perm xs))
