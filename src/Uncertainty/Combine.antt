-- ===== src/Uncertainty/Combine.antt =====
-- Combined evidence: its confidence is that of the weakest part, and lies between 0 and 1.
use neo_lloyds.Prelude.{◌≡◌, sym, subst, List, [], ◌∷◌, arith, All}
use neo_lloyds.Prelude.Int.{pos, ◌≤ℤ◌}
use neo_lloyds.Errors.{ok}
use neo_lloyds.Double.Signed.{Double}
use neo_lloyds.Uncertainty.{
  one, Confidence, confidence, min_double, least, combine_confidence, Estimate, EstimateBasis,
  estimate, RangeEstimate, range_estimate,
}

-- A value of the unit interval.
abbrev pub InUnit : Double → Type 0
InUnit x = (pos 0 ≤ℤ x) × (x ≤ℤ one)

pub confidence-InUnit : (x c : Double) → confidence x ≡ ok c → (c ≡ x) × InUnit c
unfolding confidence
confidence-InUnit x c h = ground arith

-- `b` is at most every element.
abbrev pub AtMostAll : Double → List Double → Type 0
AtMostAll b = All (λ (x : Double). b ≤ℤ x)

weaken : (a b : Double) (l : List Double) → a ≤ℤ b → AtMostAll b l → AtMostAll a l
weaken a b [] h all = tt
weaken a b (x ∷ l) h all = (omega (arith, all.0), weaken a b l h all.1)

least-AtMostAll : (a : Double) (l : List Double) → (least a l ≤ℤ a) × AtMostAll (least a l) l
unfolding least
least-AtMostAll a [] = (omega arith, tt)
least-AtMostAll a (b ∷ l) =
    let (first, others) = least-AtMostAll (min_double a b) l in
    (ground (arith, first), (ground (arith, first), others))

-- A combined confidence lies between 0 and 1, and is at most each of the confidences that it combines:
-- an aggregate is never surer than its weakest part.
pub combine_confidence-weakest :
    (values : List Confidence) (c : Confidence)
    → combine_confidence values ≡ ok c
    → InUnit c × AtMostAll c values
unfolding combine_confidence
combine_confidence-weakest [] c h = ((confidence-InUnit (pos 0) c h).1, tt)
combine_confidence-weakest (a ∷ l) c h =
    let (is, inside) = confidence-InUnit (least a l) c h in
    (inside, subst (λ x. AtMostAll x (a ∷ l)) (sym is) (least-AtMostAll a l))

pub estimate-eq-ok :
    (expected conf : Double) (basis : EstimateBasis) (e : Estimate)
    → estimate expected conf basis ≡ ok e
    → (e.expected ≡ expected) × (e.confidence_in ≡ conf) × InUnit e.confidence_in
unfolding estimate confidence
estimate-eq-ok expected conf basis e h = ground arith

-- A range that was built holds its expected value between its ends.
pub range_estimate-eq-ok :
    (low expected high conf : Double) (basis : EstimateBasis) (r : RangeEstimate)
    → range_estimate low expected high conf basis ≡ ok r
    → (r.range_low ≡ low)
      × (r.expected ≡ expected)
      × (r.range_high ≡ high)
      × (low ≤ℤ expected)
      × (expected ≤ℤ high)
unfolding range_estimate confidence
range_estimate-eq-ok low expected high conf basis r h = ground arith
