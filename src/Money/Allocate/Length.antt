-- ===== src/Money/Allocate/Length.antt =====
-- A split has one part for each weight, whatever the amount.
use neo_lloyds.Prelude.{
  ℕ, suc, ◌≡◌, sym, ap, ◌∙◌, Bool, not, List, [], ◌∷◌, map, foldl, length, length-map,
}
use neo_lloyds.Prelude.Int.{pos}
use neo_lloyds.Prelude.Sorting.{sort}
use neo_lloyds.Errors.{ok, >>=-eq-ok, ok_injective, throw_if, invalid_money}
use neo_lloyds.Double.Signed.{Double, abs, is_negative, with_sign, add, ltb_double}
use neo_lloyds.Money.{Money, money}
use neo_lloyds.Money.Allocate.{
  is_empty, any_negative, exact_share, whole, comes_before, numbered, remainder_of, split_magnitude,
  priced, allocate_money,
}
use neo_lloyds.Money.Allocate.Loop.{length-distribute}

length-priced :
    (negative : Bool) (total : Money) (ns : List ℕ) (ms : List Money)
    → priced negative total ns ≡ ok ms
    → length ms ≡ length ns
unfolding priced
length-priced negative total [] ms h = ap length (sym (ok_injective h))
length-priced negative total (n ∷ ns) ms h =
    let (m, _, h₁) = >>=-eq-ok (money (with_sign negative n) total.currency) _ h in
    let (rest, priced_, h₂) = >>=-eq-ok (priced negative total ns) _ h₁ in
    let later = length-priced negative total ns rest priced_ in
    ap length (sym (ok_injective h₂)) ∙ ap suc later

length-split :
    (magnitude : ℕ) (weights : List Double) (total_weight : Double)
    → length (split_magnitude magnitude weights total_weight) ≡ length weights
unfolding split_magnitude
length-split magnitude weights total_weight =
    let exact = map (exact_share magnitude total_weight) weights in
    let floors = map whole exact in
    length-distribute (remainder_of magnitude floors) 0 (sort comes_before (numbered 0 exact))
      floors
    ∙ length-map whole exact
    ∙ length-map (exact_share magnitude total_weight) weights

pub length-allocate_money :
    (total : Money) (weights : List Double) (parts : List Money)
    → allocate_money total weights ≡ ok parts
    → length parts ≡ length weights
unfolding allocate_money
length-allocate_money total ws parts h =
    let (_, _, h₁) = >>=-eq-ok (throw_if (is_empty ws) invalid_money) _ h in
    let (_, _, h₂) = >>=-eq-ok (throw_if (any_negative ws) invalid_money) _ h₁ in
    let (_, _, h₃) =
      >>=-eq-ok (throw_if (not (ltb_double (pos 0) (foldl add (pos 0) ws))) invalid_money) _ h₂ in
    length-priced (is_negative total.amount_minor) total _ parts h₃
    ∙ length-split (abs total.amount_minor) ws (foldl add (pos 0) ws)
