-- ===== src/Money/Allocate/Exact.antt =====
-- `allocateMoney` at whole weights, where the products fit into 53 bits: no unit is lost or made.
use neo_lloyds.Prelude.{
  ℕ, suc, ◌+◌, ◌-◌, ◌*◌, ◌/◌, ◌^◌, ◌≤◌, ◌<◌, ◌≡◌, refl, ap, subst, ◌∙◌, List, [], ◌∷◌, map, arith,
  length, length-map, sum,
}
use neo_lloyds.Prelude.Int.{pos, pos_part}
use neo_lloyds.Prelude.Sorting.{sort, length-sort, All-sort}
use mathlib.Core.Path.{ap₂}
use native.Mathlib.Nat.{div-mul-le_self, lt-div-mul-add, le_of_mul-le-mul_right, mul-div_cancel}
use neo_lloyds.Double.Signed.{Double, floor}
use neo_lloyds.Double.Whole.{
  whole_double, of_int-pos, subtract-whole_double, multiply-whole_double, floor-divide-whole_double,
  foldl-add-zero, map-of_int-pos, units-pos,
}
use neo_lloyds.Money.Allocate.{
  Entry, comes_before, exact_share, whole, numbered, remainder_of, split_magnitude, distribute,
}
use neo_lloyds.Money.Allocate.Loop.{Below, sum-distribute, length-distribute}

-- The whole share of each weight.
abbrev pub shares : ℕ → ℕ → List ℕ → List ℕ
shares m total ws = map (λ w. m * w / total) ws

sum-shares-le : (m total : ℕ) (ws : List ℕ) → sum (shares m total ws) * total ≤ m * sum ws
sum-shares-le m total [] = omega arith
sum-shares-le m total (w ∷ ws) =
    omega (arith, sum-shares-le m total ws, div-mul-le_self (m * w) total)

sum-shares-gt :
    (m total : ℕ)
    → 0 < total
    → (w : ℕ) (ws : List ℕ)
    → m * sum (w ∷ ws) < (sum (shares m total (w ∷ ws)) + length (w ∷ ws)) * total
sum-shares-gt m total h w [] = omega (arith, lt-div-mul-add {a = m * w} h)
sum-shares-gt m total h w (v ∷ ws) =
    omega (arith, sum-shares-gt m total h v ws, lt-div-mul-add {a = m * w} h)

length-pos_of_sum : (ws : List ℕ) → 0 < sum ws → 0 < length ws
length-pos_of_sum [] h = h
length-pos_of_sum (w ∷ ws) h = omega arith

-- A product with one weight is at most that with all.
product-lt : (m w rest : ℕ) → m * (w + rest) < 2 ^ 53 → m * w < 2 ^ 53
product-lt m w rest h = grind arith

abbrev pub exacts : ℕ → ℕ → List ℕ → List Double
exacts m total ws = map (exact_share m (whole_double total)) (map whole_double ws)

module _ (m total : ℕ) (hm : m < 2 ^ 53) (positive : 0 < total) (ht : total < 2 ^ 53) where
  floors-eq-shares :
      (ws : List ℕ) → m * sum ws < 2 ^ 53 → map whole (exacts m total ws) ≡ shares m total ws
  unfolding exact_share whole
  floors-eq-shares [] h = refl
  floors-eq-shares (w ∷ ws) h =
      ap₂ ◌∷◌
        (rw (of_int-pos m hm, multiply-whole_double m w (product-lt m w (sum ws) h))
          (ap pos_part
            (floor-divide-whole_double (m * w) total (product-lt m w (sum ws) h) positive ht)))
        (floors-eq-shares ws (grind arith))

numbered-Below : (i : ℕ) (vs : List Double) → Below (i + length vs) (numbered i vs)
unfolding numbered
numbered-Below i [] = tt
numbered-Below i (v ∷ vs) = (
  omega arith,
  subst (λ n. Below n (numbered (suc i) vs)) (omega arith) (numbered-Below (suc i) vs),
)

length-numbered : (i : ℕ) (vs : List Double) → length (numbered i vs) ≡ length vs
unfolding numbered
length-numbered i [] = refl
length-numbered i (v ∷ vs) = ap suc (length-numbered (suc i) vs)

floor-whole_double : (n : ℕ) → floor (whole_double n) ≡ pos n
unfolding floor
floor-whole_double n = ap pos (mul-div_cancel n units-pos)

remainder_of_lem :
    (m : ℕ) (floors : List ℕ) → m < 2 ^ 53 → sum floors ≤ m → remainder_of m floors ≡ m - sum floors
unfolding remainder_of
remainder_of_lem m floors hm h =
    rw
      (
        map-of_int-pos floors (omega arith),
        of_int-pos m hm,
        foldl-add-zero floors (omega arith),
        subtract-whole_double m (sum floors) hm h,
        floor-whole_double (m - sum floors),
      )
      refl

module _ (m : ℕ) (ws : List ℕ) (hm : m < 2 ^ 53) (positive : 0 < sum ws) (hw : sum ws < 2 ^ 53)
    (product : m * sum ws < 2 ^ 53) where
  abbrev parts : List ℕ
  parts = split_magnitude m (map whole_double ws) (whole_double (sum ws))

  shares-le : sum (shares m (sum ws) ws) ≤ m
  shares-le = le_of_mul-le-mul_right (sum-shares-le m (sum ws) ws) positive

  abbrev order : List Entry
  order = sort comes_before (numbered 0 (exacts m (sum ws) ws))

  length-exacts : length (exacts m (sum ws) ws) ≡ length ws
  length-exacts = length-map _ (map whole_double ws) ∙ length-map whole_double ws

  length-order : length order ≡ length ws
  length-order =
      length-sort comes_before (numbered 0 (exacts m (sum ws) ws))
      ∙ length-numbered 0 (exacts m (sum ws) ws)
      ∙ length-exacts

  order-Below : Below (length (shares m (sum ws) ws)) order
  order-Below =
      subst (λ n. Below n order)
        (omega (arith, length-exacts, length-map (λ (w : ℕ). m * w / sum ws) ws))
        (All-sort comes_before _ (numbered 0 (exacts m (sum ws) ws))
          (numbered-Below 0 (exacts m (sum ws) ws)))

  -- The split, with the doubles computed: the whole shares, and a round for each missing unit.
  pub split_magnitude_lem :
      parts ≡ distribute (m - sum (shares m (sum ws) ws)) 0 order (shares m (sum ws) ws)
  unfolding split_magnitude
  split_magnitude_lem =
      rw
        (
          floors-eq-shares m (sum ws) hm positive hw ws product,
          remainder_of_lem m (shares m (sum ws) ws) hm shares-le,
        )
        refl

  pub sum-split_magnitude : sum parts ≡ m
  sum-split_magnitude = rw split_magnitude_lem (
      sum-distribute _ 0 order (shares m (sum ws) ws) order-Below
        (omega (arith, length-order, length-pos_of_sum ws positive))
      ∙ omega (arith, shares-le))

  pub length-split_magnitude : length parts ≡ length ws
  length-split_magnitude = rw split_magnitude_lem (
      length-distribute _ 0 order (shares m (sum ws) ws)
      ∙ length-map (λ (w : ℕ). m * w / sum ws) ws)
