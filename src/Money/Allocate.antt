-- ===== src/Money/Allocate.antt =====
-- `allocateMoney` of packages/domain/src/money.ts: the largest-remainder split of an amount.
pub mod Loop
pub mod Exact
pub mod Conserve
pub mod Length
use neo_lloyds.Prelude.{
  ℕ, zero, suc, ◌%◌, Bool, true, false, not, ◌&&◌, ◌||◌, Option, none, some, List, [], ◌∷◌, map,
  foldl, ltb, ◌==◌, length, get_elem?,
}
use neo_lloyds.Prelude.Int.{pos, pos_part}
use neo_lloyds.Prelude.Sorting.{sort}
use neo_lloyds.Errors.{Result, ok, invalid_money, throw_if, ◌>>=◌, ◌>>◌}
use neo_lloyds.Double.{units}
use neo_lloyds.Double.Signed.{
  Double, abs, is_negative, with_sign, of_int, add, subtract, multiply, divide, floor, ltb_double,
}
use neo_lloyds.Money.{Money, money}

abbrev pub is_empty {ℓ} : {A : Type ℓ} → List A → Bool
is_empty [] = true
is_empty (_ ∷ _) = false

pub any_negative : List Double → Bool
any_negative [] = false
any_negative (w ∷ ws) = is_negative w || any_negative ws

-- A weight that is not negative has a share that is not negative.
pub exact_share : ℕ → Double → Double → Double
exact_share magnitude total_weight w = divide (multiply (of_int (pos magnitude)) w) total_weight

pub whole : Double → ℕ
whole v = pos_part (floor v)

-- `value - Math.floor(value)`, which is exact, in units.
pub fraction : Double → ℕ
fraction v = pos_part v % units

pub record Entry : Type 0 where
  pub index : ℕ
  pub part : ℕ

-- The larger fraction first, and of equal ones the lower index.
abbrev pub comes_before : Entry → Entry → Bool
comes_before a b = ltb b.part a.part || (a.part == b.part && ltb a.index b.index)

pub numbered : ℕ → List Double → List Entry
unfolding fraction
numbered i [] = []
numbered i (v ∷ vs) = record { index = i; part = fraction v } ∷ numbered (suc i) vs

-- `result[index] + 1`; every index of the order is one of the result.
pub increment : ℕ → List ℕ → List ℕ
increment i [] = []
increment zero (x ∷ xs) = suc x ∷ xs
increment (suc i) (x ∷ xs) = x ∷ increment i xs

abbrev pub give_one : Option Entry → List ℕ → List ℕ
give_one none result = result
give_one (some e) result = increment e.index result

-- The loop on `remainder`, by the rounds that are left.
pub distribute : ℕ → ℕ → List Entry → List ℕ → List ℕ
unfolding increment
distribute zero i order result = result
distribute (suc remainder) i order result =
    distribute remainder (suc i) order (give_one (get_elem? order (i % length order)) result)

-- A remainder below zero, like zero, makes no round.
pub remainder_of : ℕ → List ℕ → ℕ
remainder_of magnitude floors = pos_part (
    floor
      (subtract (of_int (pos magnitude)) (foldl add (pos 0) (map (λ n. of_int (pos n)) floors))))

pub split_magnitude : ℕ → List Double → Double → List ℕ
unfolding exact_share whole numbered distribute remainder_of
split_magnitude magnitude weights total_weight =
    let exact = map (exact_share magnitude total_weight) weights in
    let floors = map whole exact in
    distribute (remainder_of magnitude floors) 0 (sort comes_before (numbered 0 exact)) floors

-- `result.map((amount) => money(sign * amount, total.currency))`
pub priced : Bool → Money → List ℕ → Result (List Money)
priced negative total [] = ok []
priced negative total (n ∷ ns) = do
  m ← money (with_sign negative n) total.currency
  ms ← priced negative total ns
  ok (m ∷ ms)

unfoldable pub allocate_money : Money → List Double → Result (List Money)
unfolding any_negative split_magnitude priced
allocate_money total weights = do
  throw_if (is_empty weights) invalid_money
  throw_if (any_negative weights) invalid_money
  let total_weight = foldl add (pos 0) weights
  throw_if (not (ltb_double (pos 0) total_weight)) invalid_money
  priced (is_negative total.amount_minor) total
      (split_magnitude (abs total.amount_minor) weights total_weight)
