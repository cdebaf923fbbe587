-- ===== src/Money/Sums.antt =====
-- Sums and differences of money: when they throw, and that a difference undoes a sum.
use neo_lloyds.Prelude.{
  ℕ, ◌+◌, ◌^◌, ◌<◌, ◌≡◌, refl, ap, sym, ◌∙◌, Bool, true, false, List, [], ◌∷◌, map, arith, sum,
  lt→ltb,
}
use neo_lloyds.Prelude.Int.{ℤ, pos, negsuc, ◌+ℤ◌, ◌-ℤ◌, +ℤ_cancel}
use text.Mathlib.TextPositions.{eq_refl}
use Prim.Native.String.{String}
use neo_lloyds.Errors.{ok}
use neo_lloyds.Double.Signed.{abs, with_sign, is_negative}
use neo_lloyds.Money.{
  Money, money, is_safe_integer, matches_currency_pattern, assert_same_currency, add_money,
  subtract_money, add_all, sum_money, compare_money, compare_amounts, Comparison,
}

-- What `money` promises of the values that it returns.
pub record IsMoney (m : Money) : Type 0 where
  pub safe : is_safe_integer m.amount_minor ≡ true
  pub coded : matches_currency_pattern m.currency ≡ true

abbrev pub of_amount : ℤ → String → Money
of_amount a c = record { amount_minor = a; currency = c }

pub money-IsMoney : (a : ℤ) (c : String) {m : Money} → money a c ≡ ok m → IsMoney m
unfolding money
money-IsMoney a c h = ground arith

pub money-eq-ok : (a : ℤ) (c : String) {m : Money} → money a c ≡ ok m → m ≡ of_amount a c
unfolding money
money-eq-ok a c h = ground arith

pub money_ok :
    (a : ℤ) (c : String)
    → is_safe_integer a ≡ true
    → matches_currency_pattern c ≡ true
    → money a c ≡ ok (of_amount a c)
unfolding money
money_ok a c s p = ground arith

pub add_money_lem :
    (a b : ℤ) (c : String) → add_money (of_amount a c) (of_amount b c) ≡ money (a +ℤ b) c
unfolding add_money assert_same_currency
add_money_lem a b c = rw (eq_refl c) refl

pub subtract_money_lem :
    (a b : ℤ) (c : String) → subtract_money (of_amount a c) (of_amount b c) ≡ money (a -ℤ b) c
unfolding subtract_money assert_same_currency
subtract_money_lem a b c = rw (eq_refl c) refl

pub abs-with_sign : (negative : Bool) (n : ℕ) → abs (with_sign negative n) ≡ n
abs-with_sign true n = ground arith
abs-with_sign false n = refl

pub with_sign-is_negative : (a : ℤ) → with_sign (is_negative a) (abs a) ≡ a
with_sign-is_negative (pos n) = refl
with_sign-is_negative (negsuc n) = ground arith

with_sign-zero : (negative : Bool) → with_sign negative 0 ≡ pos 0
with_sign-zero true = refl
with_sign-zero false = refl

pub with_sign-+ℤ :
    (negative : Bool) (k n : ℕ)
    → with_sign negative k +ℤ with_sign negative n ≡ with_sign negative (k + n)
unfolding ◌+ℤ◌
with_sign-+ℤ true k n = ground arith
with_sign-+ℤ false k n = ground arith

-- The amounts of one sign, in the currency `c`.
abbrev pub signed_amounts : Bool → String → List ℕ → List Money
signed_amounts negative c ns = map (λ n. of_amount (with_sign negative n) c) ns

module _ (negative : Bool) (c : String) (coded : matches_currency_pattern c ≡ true) where
  pub money-with_sign :
      (n : ℕ)
      → n < 2 ^ 53
      → money (with_sign negative n) c ≡ ok (of_amount (with_sign negative n) c)
  money-with_sign n h = money_ok _ c (rw (abs-with_sign negative n) (lt→ltb n (2 ^ 53) h)) coded

  add_all-with_sign :
      (k : ℕ) (ns : List ℕ)
      → k + sum ns < 2 ^ 53
      → add_all (of_amount (with_sign negative k) c) (signed_amounts negative c ns)
        ≡ ok (of_amount (with_sign negative (k + sum ns)) c)
  unfolding add_all
  add_all-with_sign k [] h = ap (λ (m : ℕ). ok (of_amount (with_sign negative m) c)) (omega arith)
  add_all-with_sign k (n ∷ ns) h =
      rw
        (
          add_money_lem (with_sign negative k) (with_sign negative n) c,
          with_sign-+ℤ negative k n,
          money-with_sign (k + n) (omega arith),
        )
        (add_all-with_sign (k + n) ns (omega arith)
          ∙ ap (λ (m : ℕ). ok (of_amount (with_sign negative m) c)) (omega arith))

  -- The sum of amounts of one sign, while it is below 2 ^ 53.
  pub sum_money-with_sign :
      (ns : List ℕ)
      → sum ns < 2 ^ 53
      → sum_money (signed_amounts negative c ns) c ≡ ok (of_amount (with_sign negative (sum ns)) c)
  unfolding sum_money
  sum_money-with_sign ns h = rw (money_ok (pos 0) c refl coded) (
      ap (λ a. add_all (of_amount a c) (signed_amounts negative c ns))
        (sym (with_sign-zero negative))
      ∙ add_all-with_sign 0 ns (omega arith)
      ∙ ap (λ (m : ℕ). ok (of_amount (with_sign negative m) c)) (omega arith))

-- Subtracting what was added gives the amount back: a sum that does not throw loses nothing, and
-- the difference does not throw.
pub subtract_money-add_money :
    (a b s : Money) → IsMoney a → add_money a b ≡ ok s → subtract_money s b ≡ ok a
unfolding add_money subtract_money assert_same_currency money
subtract_money-add_money a b s h e = ground (arith, +ℤ_cancel a.amount_minor b.amount_minor)

-- A sum or a difference that does not throw.
pub add_money-eq-ok :
    (a b : Money) {s : Money}
    → add_money a b ≡ ok s
    → s ≡ of_amount (a.amount_minor +ℤ b.amount_minor) a.currency
unfolding add_money assert_same_currency money
add_money-eq-ok a b h = ground arith

pub subtract_money-eq-ok :
    (a b : Money) {s : Money}
    → subtract_money a b ≡ ok s
    → s ≡ of_amount (a.amount_minor -ℤ b.amount_minor) a.currency
unfolding subtract_money assert_same_currency money
subtract_money-eq-ok a b h = ground arith

pub compare_money-eq-ok :
    (a b : Money) {c : Comparison}
    → compare_money a b ≡ ok c
    → c ≡ compare_amounts a.amount_minor b.amount_minor
unfolding compare_money assert_same_currency
compare_money-eq-ok a b h = ground arith
