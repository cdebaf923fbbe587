-- ===== src/Money/Allocate/Loop.antt =====
-- The loop of `allocateMoney` that hands out the remainder, one unit a round.
use neo_lloyds.Prelude.{
  ℕ, zero, suc, ◌+◌, ◌%◌, ◌<◌, ◌≡◌, refl, ap, ◌∙◌, Option, none, some, List, [], ◌∷◌, arith, length,
  get_elem?, All, sum,
}
use native.Mathlib.Nat.{mod-lt}
use neo_lloyds.Money.Allocate.{Entry, increment, give_one, distribute}

pub sum-increment : (i : ℕ) (xs : List ℕ) → i < length xs → sum (increment i xs) ≡ suc (sum xs)
unfolding increment
sum-increment i [] h = absurd (omega arith)
sum-increment zero (x ∷ xs) h = omega arith
sum-increment (suc i) (x ∷ xs) h = omega (arith, sum-increment i xs)

pub length-increment : (i : ℕ) (xs : List ℕ) → length (increment i xs) ≡ length xs
unfolding increment
length-increment i [] = refl
length-increment zero (x ∷ xs) = refl
length-increment (suc i) (x ∷ xs) = ap suc (length-increment i xs)

abbrev pub Below : ℕ → List Entry → Type 0
Below n = All (λ e. e.index < n)

-- An index below the length reads an entry.
pub get_elem?-Below :
    (n i : ℕ) (order : List Entry)
    → Below n order
    → i < length order
    → (e : Entry) × (get_elem? order i ≡ some e) × (e.index < n)
get_elem?-Below n i [] b h = absurd (omega arith)
get_elem?-Below n zero (e ∷ order) b h = (e, refl, b.0)
get_elem?-Below n (suc i) (e ∷ order) b h = get_elem?-Below n i order b.1 (omega arith)

pub length-distribute :
    (r i : ℕ) (order : List Entry) (result : List ℕ)
    → length (distribute r i order result) ≡ length result
unfolding distribute
length-distribute zero i order result = refl
length-distribute (suc r) i order result =
    length-distribute r (suc i) order _ ∙ kept (get_elem? order (i % length order))
  where
    kept : (o : Option Entry) → length (give_one o result) ≡ length result
    kept none = refl
    kept (some e) = length-increment e.index result

-- Each round adds one: the parts grow by the remainder.
pub sum-distribute :
    (r i : ℕ) (order : List Entry) (result : List ℕ)
    → Below (length result) order
    → 0 < length order
    → sum (distribute r i order result) ≡ sum result + r
unfolding distribute
sum-distribute zero i order result b h = omega arith
sum-distribute (suc r) i order result b h =
    let (e, found, valid) =
      get_elem?-Below (length result) (i % length order) order b (mod-lt i h) in
    rw found (
      sum-distribute r (suc i) order (increment e.index result)
        (rw (length-increment e.index result) b) h
      ∙ omega (arith, sum-increment e.index result valid))
