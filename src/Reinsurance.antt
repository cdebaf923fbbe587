-- ===== src/Reinsurance.antt =====
-- packages/domain/src/reinsurance.ts: how the layers of a program share a loss with the cedant. A
-- share or an order that is no integer is refused by `requireValidLayerParams`, or is not used, so
-- the model has integers.
pub mod Layers
pub mod Aggregate
pub mod Program
pub mod Stored
pub mod Consumption
pub mod Carried
pub mod Treaty
pub mod Cessions
pub mod Creation
pub mod History
pub mod Service
use Prim.Native.String.{String}
use neo_lloyds.Prelude.{ℕ, Bool, true, false, not, ◌||◌, Option, none, some, List, [], ◌∷◌}
use neo_lloyds.Prelude.Int.{ℤ, pos, ◌+ℤ◌, ◌-ℤ◌, leb_ℤ, ltb_ℤ, min_ℤ, max_ℤ}
use neo_lloyds.Prelude.Sorting.{sort}
use neo_lloyds.Errors.{Result, ok, throw_if, ◌>>=◌, ◌>>◌, invalid_reinsurance_parameter}
use neo_lloyds.Money.{
  Money, money, is_zero, add_money, subtract_money, compare_money, Comparison, same, proportion,
}

pub record QuotaShareParams : Type 0 where
  pub ceded_bps : ℤ
  pub per_loss_limit : Option Money

-- The parameters of an excess of loss, and of an aggregate protection.
pub record BandParams : Type 0 where
  pub attachment_point : Money
  pub limit : Money

pub data LayerParams : Type 0 where
  quota_share : QuotaShareParams → LayerParams
  excess_of_loss : BandParams → LayerParams
  aggregate : BandParams → LayerParams

pub record LayerState : Type 0 where
  pub consumed_gross : Money
  pub consumed_ceded : Money

pub record ReinsuranceLayer : Type 0 where
  pub id : ℕ
  pub order : ℤ
  pub params : LayerParams
  pub state : Option LayerState

-- The kind of a layer is that of the layer with its identifier.
pub record LayerCession : Type 0 where
  pub layer_id : ℕ
  pub loss_presented : Money
  pub ceded : Money
  pub retained : Money
  pub next_state : Option LayerState

pub record ProgramCession : Type 0 where
  pub gross_loss : Money
  pub per_layer : List LayerCession
  pub total_ceded : Money
  pub net_retained : Money

abbrev pub require_non_negative : Money → Result (Unit {0})
require_non_negative m = throw_if (ltb_ℤ m.amount_minor (pos 0)) invalid_reinsurance_parameter

abbrev pub require_limit_non_negative : Option Money → Result (Unit {0})
require_limit_non_negative none = ok tt
require_limit_non_negative (some m) = require_non_negative m

abbrev pub require_valid_band : BandParams → Result (Unit {0})
require_valid_band band = do
  require_non_negative band.attachment_point
  require_non_negative band.limit
  throw_if (is_zero band.limit) invalid_reinsurance_parameter

unfoldable pub require_valid_layer_params : LayerParams → Result (Unit {0})
unfolding is_zero
require_valid_layer_params (quota_share p) = do
  throw_if (leb_ℤ p.ceded_bps (pos 0) || ltb_ℤ (pos 10000) p.ceded_bps)
      invalid_reinsurance_parameter
  require_limit_non_negative p.per_loss_limit
require_valid_layer_params (excess_of_loss band) = require_valid_band band
require_valid_layer_params (aggregate band) = require_valid_band band

-- A missing limit is an infinity.
abbrev pub capped : ℤ → Option Money → ℤ
capped raw none = raw
capped raw (some cap) = min_ℤ raw cap.amount_minor

-- The lines with which a quota share and an excess of loss end.
abbrev pub cut_off : Money → ℤ → Result (Money × Money)
cut_off loss amount = do
  ceded ← money amount loss.currency
  retained ← subtract_money loss ceded
  ok (ceded, retained)

unfoldable pub apply_quota_share : Money → QuotaShareParams → Result (Money × Money)
apply_quota_share loss params =
    cut_off loss (capped (proportion loss.amount_minor params.ceded_bps) params.per_loss_limit)

-- The amount above a point, and zero below it.
abbrev pub above : ℤ → ℤ → ℤ
above amount point = max_ℤ (pos 0) (amount -ℤ point)

unfoldable pub apply_excess_of_loss : Money → BandParams → Result (Money × Money)
apply_excess_of_loss loss params =
    let excess = above loss.amount_minor params.attachment_point.amount_minor in
    cut_off loss (min_ℤ excess params.limit.amount_minor)

-- What an aggregate layer cedes of a loss, in minor units.
unfoldable pub aggregate_cession : ℤ → BandParams → LayerState → ℤ
aggregate_cession amount params state =
    let before = state.consumed_gross.amount_minor in
    let above_before = above before params.attachment_point.amount_minor in
    let above_after = above (before +ℤ amount) params.attachment_point.amount_minor in
    let remaining_limit = params.limit.amount_minor -ℤ state.consumed_ceded.amount_minor in
    max_ℤ (pos 0) (min_ℤ (above_after -ℤ above_before) remaining_limit)

unfoldable pub apply_aggregate :
    Money → BandParams → LayerState → Result (Money × Money × LayerState)
unfolding aggregate_cession
apply_aggregate loss params state = do
  ceded ← money (aggregate_cession loss.amount_minor params state) loss.currency
  retained ← subtract_money loss ceded
  consumed_gross ← money (state.consumed_gross.amount_minor +ℤ loss.amount_minor) loss.currency
  consumed_ceded ← add_money state.consumed_ceded ceded
  ok (ceded, retained, record { consumed_gross = consumed_gross; consumed_ceded = consumed_ceded })

-- `layer.state ?? {…}`
abbrev pub state_of : String → Option LayerState → Result LayerState
state_of currency (some state) = ok state
state_of currency none = do
  nothing ← money (pos 0) currency
  ok (record { consumed_gross = nothing; consumed_ceded = nothing })

-- What is ceded and retained of the remaining loss, and the next state of an aggregate layer.
unfoldable pub apply_params :
    String → Money → LayerParams → Option LayerState → Result (Money × Money × Option LayerState)
unfolding apply_quota_share apply_excess_of_loss apply_aggregate
apply_params currency remaining (quota_share p) state = do
  (ceded, retained) ← apply_quota_share remaining p
  ok (ceded, retained, none)
apply_params currency remaining (excess_of_loss p) state = do
  (ceded, retained) ← apply_excess_of_loss remaining p
  ok (ceded, retained, none)
apply_params currency remaining (aggregate p) state = do
  current ← state_of currency state
  (ceded, retained, next) ← apply_aggregate remaining p current
  ok (ceded, retained, some next)

-- One round of the loop.
unfoldable pub apply_layer : String → Money → ReinsuranceLayer → Result LayerCession
unfolding apply_params require_valid_layer_params
apply_layer currency remaining layer = do
  require_valid_layer_params layer.params
  (ceded, retained, next) ← apply_params currency remaining layer.params layer.state
  ok (record {
    layer_id = layer.id;
    loss_presented = remaining;
    ceded = ceded;
    retained = retained;
    next_state = next;
  })

-- The loop: each layer gets what the one before has left.
unfoldable pub apply_layers :
    String → Money → List ReinsuranceLayer → Result (List LayerCession × Money)
unfolding apply_layer
apply_layers currency remaining [] = ok ([], remaining)
apply_layers currency remaining (layer ∷ layers) = do
  cession ← apply_layer currency remaining layer
  (cessions, net) ← apply_layers currency cession.retained layers
  ok (cession ∷ cessions, net)

abbrev pub comes_first : ReinsuranceLayer → ReinsuranceLayer → Bool
comes_first a b = ltb_ℤ a.order b.order

unfoldable pub apply_reinsurance_program : Money → List ReinsuranceLayer → Result ProgramCession
unfolding apply_layers
apply_reinsurance_program gross_loss layers = do
  require_non_negative gross_loss
  (per_layer, remaining) ← apply_layers gross_loss.currency gross_loss (sort comes_first layers)
  total_ceded ← subtract_money gross_loss remaining
  ok (record {
    gross_loss = gross_loss;
    per_layer = per_layer;
    total_ceded = total_ceded;
    net_retained = remaining;
  })

abbrev is_same : Comparison → Bool
is_same same = true
is_same _ = false

unfoldable pub is_fully_ceded : ProgramCession → Result Bool
is_fully_ceded result = do
  nothing ← money (pos 0) result.net_retained.currency
  comparison ← compare_money result.net_retained nothing
  ok (is_same comparison)
