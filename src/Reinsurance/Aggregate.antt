-- ===== src/Reinsurance/Aggregate.antt =====
-- An aggregate layer over a period: its state is carried from one loss to the next.
use mathlib.Core.Path.{ap₂}
use neo_lloyds.Prelude.{ℕ, ◌+◌, ◌-◌, ◌≡◌, refl, ap, subst, ◌∙◌, List, [], ◌∷◌, map, arith, sum, min}
use neo_lloyds.Prelude.Int.{ℤ, pos, ◌+ℤ◌, ◌-ℤ◌, pos-+ℤ, pos--ℤ, max_ℤ, min_ℤ}
use Prim.Native.String.{String}
use neo_lloyds.Errors.{Result, ok, ◌>>=◌, >>=-eq-ok, ok_injective}
use neo_lloyds.Money.{Money}
use neo_lloyds.Money.Sums.{of_amount}
use neo_lloyds.Reinsurance.{BandParams, LayerState, above, aggregate_cession, apply_aggregate}
use neo_lloyds.Reinsurance.Layers.{initial_state, apply_aggregate-eq-ok}

-- The state after a list of losses, each with the state that the one before has left.
unfoldable pub apply_losses : BandParams → LayerState → List Money → Result LayerState
unfolding apply_aggregate
apply_losses band state [] = ok state
apply_losses band state (loss ∷ losses) = do
  (ceded, retained, next) ← apply_aggregate loss band state
  apply_losses band next losses

-- The part of a total that lies between the attachment point and the limit above it.
abbrev pub in_band : ℕ → ℕ → ℕ → ℕ
in_band attachment limit total = min (total - attachment) limit

-- The state of a layer that has seen losses of the total `t`.
pub record HasSeen (a l t : ℕ) (state : LayerState) : Type 0 where
  pub gross : state.consumed_gross.amount_minor ≡ pos t
  pub ceded : state.consumed_ceded.amount_minor ≡ pos (in_band a l t)

above-pos : (x a : ℕ) → above (pos x) (pos a) ≡ pos (x - a)
unfolding ◌-ℤ◌
above-pos x a = ground arith

max_min-pos : (x y : ℕ) → max_ℤ (pos 0) (min_ℤ (pos x) (pos y)) ≡ pos (min x y)
max_min-pos x y = ground arith

-- What is ceded is what the new loss moves the total within the band.
moved :
    (a l t n : ℕ)
    → min (t + n - a - (t - a)) (l - min (t - a) l) ≡ min (t + n - a) l - min (t - a) l
moved a l t n = ground arith

cession :
    (a l t n : ℕ)
    → max_ℤ (pos 0) (
        min_ℤ
          (above (pos t +ℤ pos n) (pos a) -ℤ above (pos t) (pos a))
          (pos l -ℤ pos (in_band a l t)))
      ≡ pos (in_band a l (t + n) - in_band a l t)
cession a l t n =
    rw
      (
        pos-+ℤ t n,
        above-pos (t + n) a,
        above-pos t a,
        pos--ℤ (t + n - a) (t - a) (omega arith),
        pos--ℤ l (in_band a l t) (ground arith),
        max_min-pos (t + n - a - (t - a)) (l - in_band a l t),
        moved a l t n,
      )
      refl

module _ (band : BandParams) (a l : ℕ) (attached : band.attachment_point.amount_minor ≡ pos a)
    (limited : band.limit.amount_minor ≡ pos l) where
  HasSeen-cession :
      (t n : ℕ) (state : LayerState)
      → HasSeen a l t state
      → aggregate_cession (pos n) band state ≡ pos (in_band a l (t + n) - in_band a l t)
  unfolding aggregate_cession
  HasSeen-cession t n state seen = rw (attached, limited, seen.gross, seen.ceded) (cession a l t n)

  -- A loss of n that is applied brings the total to t + n.
  pub HasSeen-apply_aggregate :
      (t n : ℕ) (loss : Money) (state : LayerState) {r : Money × Money × LayerState}
      → HasSeen a l t state
      → loss.amount_minor ≡ pos n
      → apply_aggregate loss band state ≡ ok r
      → HasSeen a l (t + n) r.2
  HasSeen-apply_aggregate t n loss state seen is h =
      let done = apply_aggregate-eq-ok loss band state h in
      let amount =
        ap (λ (k : ℤ). aggregate_cession k band state) is ∙ HasSeen-cession t n state seen in
      record {
        gross = done.gross_next ∙ ap₂ (◌+ℤ◌) seen.gross is ∙ pos-+ℤ t n;
        ceded = done.ceded_next ∙ ap₂ (◌+ℤ◌) seen.ceded amount ∙ pos-+ℤ _ _ ∙ ap pos (ground arith);
      }

  HasSeen-apply_losses :
      (t : ℕ) (state : LayerState) (c : String) (ns : List ℕ) (after : LayerState)
      → HasSeen a l t state
      → apply_losses band state (map (λ n. of_amount (pos n) c) ns) ≡ ok after
      → HasSeen a l (t + sum ns) after
  unfolding apply_losses
  HasSeen-apply_losses t state c [] after seen h =
      subst (λ (k : ℕ). HasSeen a l k after) (omega arith)
        (subst (HasSeen a l t) (ok_injective h) seen)
  HasSeen-apply_losses t state c (n ∷ ns) after seen h =
      let (r, applied, h₁) = >>=-eq-ok (apply_aggregate (of_amount (pos n) c) band state) _ h in
      subst (λ (k : ℕ). HasSeen a l k after) (omega arith)
        (HasSeen-apply_losses (t + n) r.2 c ns after
          (HasSeen-apply_aggregate t n (of_amount (pos n) c) state seen refl applied) h₁)

-- Where an aggregate layer applies to a list of losses from its initial state, it has ceded exactly the
-- part of their total that lies above the attachment point, up to the limit: nothing depends on how
-- the total came about.
pub apply_losses-in_band :
    (band : BandParams) (a l : ℕ) (c : String) (ns : List ℕ) {after : LayerState}
    → band.attachment_point.amount_minor ≡ pos a
    → band.limit.amount_minor ≡ pos l
    → apply_losses band (initial_state c) (map (λ n. of_amount (pos n) c) ns) ≡ ok after
    → (after.consumed_gross.amount_minor ≡ pos (sum ns))
      × (after.consumed_ceded.amount_minor ≡ pos (min (sum ns - a) l))
apply_losses-in_band band a l c ns {after} attached limited h =
    let from_start =
      HasSeen-apply_losses band a l attached limited 0 (initial_state c) c ns after
        (record { gross = refl; ceded = ap pos (ground arith) }) h in
    let seen : HasSeen a l (sum ns) after =
      subst (λ (k : ℕ). HasSeen a l k after) (omega arith) from_start in
    (seen.gross, seen.ceded)
