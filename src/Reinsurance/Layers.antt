-- ===== src/Reinsurance/Layers.antt =====
-- One layer: what it cedes, and that the two parts make up the loss that it was presented with.
use neo_lloyds.Prelude.{
  ℕ, ◌*◌, ◌^◌, ◌≤◌, ◌<◌, ◌≡◌, refl, ap, sym, subst, ◌∙◌, Option, none, some, arith,
}
use neo_lloyds.Prelude.Int.{ℤ, pos, negsuc, ◌+ℤ◌, ◌-ℤ◌, ◌≤ℤ◌, min_ℤ, max_ℤ}
use Prim.Native.String.{String}
use neo_lloyds.Errors.{ok, >>=-eq-ok, ok_injective}
use neo_lloyds.Money.{Money, money, subtract_money, add_money, proportion}
use neo_lloyds.Money.Sums.{of_amount, money-eq-ok, subtract_money-eq-ok, add_money-eq-ok}
use neo_lloyds.Money.Proportion.{rounded_share, proportion-pos, rounded_share-le}
use neo_lloyds.Reinsurance.{
  BandParams, LayerParams, quota_share, excess_of_loss, aggregate, LayerState,
  require_valid_layer_params, capped, above, apply_quota_share, apply_excess_of_loss,
  apply_aggregate, aggregate_cession, state_of, cut_off, require_valid_band,
  require_limit_non_negative, apply_params,
}

abbrev pub initial_state : String → LayerState
initial_state c = record {
  consumed_gross = of_amount (pos 0) c;
  consumed_ceded = of_amount (pos 0) c;
}

abbrev pub current_state : String → Option LayerState → LayerState
current_state c none = initial_state c
current_state c (some state) = state

-- The amount that a layer cedes.
abbrev pub ceded_amount : String → ℤ → LayerParams → Option LayerState → ℤ
ceded_amount c amount (quota_share p) state =
    capped (proportion amount p.ceded_bps) p.per_loss_limit
ceded_amount c amount (excess_of_loss p) state =
    min_ℤ (above amount p.attachment_point.amount_minor) p.limit.amount_minor
ceded_amount c amount (aggregate p) state = aggregate_cession amount p (current_state c state)

-- The two parts of a loss of which `k` is ceded.
pub record IsCut (loss ceded retained : Money) (k : ℤ) : Type 0 where
  pub ceded_is : ceded ≡ of_amount k loss.currency
  pub retained_is : retained ≡ of_amount (loss.amount_minor -ℤ k) loss.currency

cut :
    (loss : Money) (k : ℤ) {ceded retained : Money}
    → money k loss.currency ≡ ok ceded
    → subtract_money loss ceded ≡ ok retained
    → IsCut loss ceded retained k
cut loss k {ceded} {retained} priced left =
    let ceded_is = money-eq-ok k loss.currency priced in
    record {
      ceded_is = ceded_is;
      retained_is = rw (subtract_money-eq-ok loss ceded left, ceded_is) refl;
    }

cut_pair :
    (loss : Money) (k : ℤ) {parts : Money × Money}
    → cut_off loss k ≡ ok parts
    → IsCut loss parts.0 parts.1 k
cut_pair loss k h =
    let (ceded, priced, h₁) = >>=-eq-ok (money k loss.currency) _ h in
    let (retained, left, h₂) = >>=-eq-ok (subtract_money loss ceded) _ h₁ in
    subst (λ (parts : Money × Money). IsCut loss parts.0 parts.1 k) (ok_injective h₂)
      (cut loss k priced left)

-- The same of an aggregate layer, which also carries its state forward.
pub record IsAggregateCut (loss : Money) (state : LayerState) (k : ℤ)
    (r : Money × Money × LayerState) : Type 0 where
  pub parts : IsCut loss r.0 r.1 k
  pub gross_next :
      r.2.consumed_gross.amount_minor ≡ state.consumed_gross.amount_minor +ℤ loss.amount_minor
  pub ceded_next : r.2.consumed_ceded.amount_minor ≡ state.consumed_ceded.amount_minor +ℤ k

pub apply_aggregate-eq-ok :
    (loss : Money) (band : BandParams) (state : LayerState) {r : Money × Money × LayerState}
    → apply_aggregate loss band state ≡ ok r
    → IsAggregateCut loss state (aggregate_cession loss.amount_minor band state) r
unfolding apply_aggregate
apply_aggregate-eq-ok loss band state h =
    let k = aggregate_cession loss.amount_minor band state in
    let (ceded, priced, h₁) = >>=-eq-ok (money k loss.currency) _ h in
    let (retained, left, h₂) = >>=-eq-ok (subtract_money loss ceded) _ h₁ in
    let (gross, summed, h₃) =
      >>=-eq-ok (money (state.consumed_gross.amount_minor +ℤ loss.amount_minor) loss.currency) _
        h₂ in
    let (total, added, h₄) = >>=-eq-ok (add_money state.consumed_ceded ceded) _ h₃ in
    let is_cut = cut loss k priced left in
    subst (IsAggregateCut loss state k) (ok_injective h₄) (record {
      parts = is_cut;
      gross_next = ap (λ (m : Money). m.amount_minor) (money-eq-ok _ loss.currency summed);
      ceded_next =
          ap (λ (m : Money). m.amount_minor) (add_money-eq-ok state.consumed_ceded ceded added)
          ∙ ap (λ (m : Money). state.consumed_ceded.amount_minor +ℤ m.amount_minor) is_cut.ceded_is;
    })

pub state_of_lem :
    (c : String) (state : Option LayerState) {r : LayerState}
    → state_of c state ≡ ok r
    → r ≡ current_state c state
state_of_lem c none h =
    let (nothing, priced, h₁) = >>=-eq-ok (money (pos 0) c) _ h in
    sym (ok_injective h₁)
    ∙ ap (λ m. record { consumed_gross = m; consumed_ceded = m }) (money-eq-ok (pos 0) c priced)
state_of_lem c (some state) h = sym (ok_injective h)

pub apply_params-IsCut :
    (c : String) (loss : Money) (params : LayerParams) (state : Option LayerState)
    {r : Money × Money × Option LayerState}
    → apply_params c loss params state ≡ ok r
    → IsCut loss r.0 r.1 (ceded_amount c loss.amount_minor params state)
unfolding apply_params apply_quota_share apply_excess_of_loss
apply_params-IsCut c loss (quota_share p) state {r} h =
    let (parts, shared, h₁) = >>=-eq-ok (apply_quota_share loss p) _ h in
    subst
      (λ (r : Money × Money × Option LayerState).
        IsCut loss r.0 r.1 (ceded_amount c loss.amount_minor (quota_share p) state))
      (ok_injective h₁) (cut_pair loss _ shared)
apply_params-IsCut c loss (excess_of_loss p) state h =
    let (parts, shared, h₁) = >>=-eq-ok (apply_excess_of_loss loss p) _ h in
    subst
      (λ (r : Money × Money × Option LayerState).
        IsCut loss r.0 r.1 (ceded_amount c loss.amount_minor (excess_of_loss p) state))
      (ok_injective h₁) (cut_pair loss _ shared)
apply_params-IsCut c loss (aggregate p) state h =
    let (current, known, h₁) = >>=-eq-ok (state_of c state) _ h in
    let (r, shared, h₂) = >>=-eq-ok (apply_aggregate loss p current) _ h₁ in
    let is_cut = (apply_aggregate-eq-ok loss p current shared).parts in
    subst
      (λ (r : Money × Money × Option LayerState).
        IsCut loss r.0 r.1 (ceded_amount c loss.amount_minor (aggregate p) state))
      (ok_injective h₂)
      (subst (λ (z : LayerState). IsCut loss r.0 r.1 (aggregate_cession loss.amount_minor p z))
        (state_of_lem c state known) is_cut)

abbrev Within : ℤ → ℕ → Type 0
Within k n = (pos 0 ≤ℤ k) × (k ≤ℤ pos n)

capped-Within :
    (n share : ℕ) (limit : Option Money)
    → share ≤ n
    → require_limit_non_negative limit ≡ ok tt
    → Within (capped (pos share) limit) n
capped-Within n share none le valid = (omega arith, omega arith)
capped-Within n share (some m) le valid = (ground arith, ground arith)

above-Within : (n : ℕ) (point : ℤ) → pos 0 ≤ℤ point → Within (above (pos n) point) n
unfolding ◌-ℤ◌
above-Within n point h = (ground arith, ground arith)

min-Within : (n : ℕ) (k limit : ℤ) → Within k n → pos 0 ≤ℤ limit → Within (min_ℤ k limit) n
min-Within n k limit h h' = (ground arith, ground arith)

-- A point cuts no more out of a rise than the rise.
above-rise :
    (before point : ℤ) (n : ℕ) → above (before +ℤ pos n) point -ℤ above before point ≤ℤ pos n
unfolding ◌+ℤ◌ ◌-ℤ◌
above-rise before point n = ground arith

from_zero : (n : ℕ) (a b : ℤ) → a ≤ℤ pos n → Within (max_ℤ (pos 0) (min_ℤ a b)) n
from_zero n a b h = (ground arith, ground arith)

pub valid_band :
    (p : BandParams)
    → require_valid_band p ≡ ok tt
    → (pos 0 ≤ℤ p.attachment_point.amount_minor) × (pos 0 ≤ℤ p.limit.amount_minor)
valid_band p h = (ground arith, ground arith)

share_of :
    (bps : ℤ) (limit : Option Money)
    → require_valid_layer_params (quota_share (record { ceded_bps = bps; per_loss_limit = limit }))
      ≡ ok tt
    → (m : ℕ) × (bps ≡ pos m) × (m ≤ 10000) × (require_limit_non_negative limit ≡ ok tt)
unfolding require_valid_layer_params
share_of (pos m) limit h = (m, refl, ground arith, ground arith)
share_of (negsuc m) limit h = ground arith

-- What a valid layer cedes of a loss is no less than nothing and no more than the loss, where 10000
-- times the loss is below 2 ^ 52.
pub ceded_amount-within :
    (c : String) (n : ℕ) (params : LayerParams) (state : Option LayerState)
    → n * 10000 < 2 ^ 52
    → require_valid_layer_params params ≡ ok tt
    → (pos 0 ≤ℤ ceded_amount c (pos n) params state)
      × (ceded_amount c (pos n) params state ≤ℤ pos n)
unfolding require_valid_layer_params aggregate_cession
ceded_amount-within c n (quota_share p) state small valid =
    let (m, is, le, limited) = share_of p.ceded_bps p.per_loss_limit valid in
    rw (is, proportion-pos n m le small)
      (capped-Within n (rounded_share n m) p.per_loss_limit (rounded_share-le n m le) limited)
ceded_amount-within c n (excess_of_loss p) state small valid =
    let (point, limit) = valid_band p valid in
    min-Within n (above (pos n) p.attachment_point.amount_minor) p.limit.amount_minor
      (above-Within n p.attachment_point.amount_minor point) limit
ceded_amount-within c n (aggregate p) state small valid =
    let current = current_state c state in
    from_zero n _ (p.limit.amount_minor -ℤ current.consumed_ceded.amount_minor)
      (above-rise current.consumed_gross.amount_minor p.attachment_point.amount_minor n)
