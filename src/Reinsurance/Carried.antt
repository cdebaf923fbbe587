-- ===== src/Reinsurance/Carried.antt =====
-- One cession: the next state of every aggregate layer of the program.
use neo_lloyds.Prelude.{
  ℕ, ◌+◌, ◌*◌, ◌^◌, ◌<◌, ◌≤◌, ◌≡◌, refl, ap, subst, ◌∙◌, Option, none, some, List, [], ◌∷◌, All,
  arith,
}
use mathlib.Core.Path.{ap₂}
use neo_lloyds.Prelude.Int.{ℤ, pos, ◌-ℤ◌}
use Prim.Native.String.{String}
use neo_lloyds.Errors.{ok, >>=-eq-ok, ok_injective}
use neo_lloyds.Money.{Money}
use neo_lloyds.Reinsurance.{
  BandParams, LayerParams, quota_share, excess_of_loss, aggregate, LayerState, ReinsuranceLayer,
  LayerCession, require_valid_layer_params, apply_quota_share, apply_excess_of_loss,
  apply_aggregate, apply_params, apply_layer, apply_layers,
}
use neo_lloyds.Reinsurance.Layers.{ceded_amount, ceded_amount-within}
use neo_lloyds.Reinsurance.Aggregate.{in_band, HasSeen-apply_aggregate}
use neo_lloyds.Reinsurance.Program.{apply_layer-IsCession, retained_of}

-- What a layer has ceded of what it has seen: an aggregate layer exactly the part in its band.
pub record HasCededBand (band : BandParams) (gross ceded : ℤ) : Type 0 where
  pub a : ℕ
  pub l : ℕ
  pub t : ℕ
  pub attached : band.attachment_point.amount_minor ≡ pos a
  pub limited : band.limit.amount_minor ≡ pos l
  pub seen : gross ≡ pos t
  pub ceded_is : ceded ≡ pos (in_band a l t)

abbrev pub HasCeded : LayerParams → ℤ → ℤ → Type 0
HasCeded (aggregate band) gross ceded = HasCededBand band gross ceded
HasCeded _ gross ceded = Unit

abbrev pub StateHasCeded : LayerParams → LayerState → Type 0
StateHasCeded params state =
    HasCeded params state.consumed_gross.amount_minor state.consumed_ceded.amount_minor

-- An aggregate layer comes with its state.
abbrev pub HasState : LayerParams → Option LayerState → Type 0
HasState (aggregate band) none = ⊥
HasState params none = Unit
HasState params (some state) = StateHasCeded params state

abbrev pub IsNext : LayerParams → Option LayerState → Type 0
IsNext params none = Unit
IsNext params (some state) = StateHasCeded params state

apply_params-IsNext :
    (c : String) (n : ℕ) (loss : Money) (params : LayerParams) (state : Option LayerState)
    {r : Money × Money × Option LayerState}
    → loss.amount_minor ≡ pos n
    → HasState params state
    → apply_params c loss params state ≡ ok r
    → IsNext params r.2
unfolding apply_params
apply_params-IsNext c n loss (quota_share p) state is has h =
    let (parts, shared, h₁) = >>=-eq-ok (apply_quota_share loss p) _ h in
    subst (λ (r : Money × Money × Option LayerState). IsNext (quota_share p) r.2) (ok_injective h₁)
      tt
apply_params-IsNext c n loss (excess_of_loss p) state is has h =
    let (parts, shared, h₁) = >>=-eq-ok (apply_excess_of_loss loss p) _ h in
    subst (λ (r : Money × Money × Option LayerState). IsNext (excess_of_loss p) r.2)
      (ok_injective h₁) tt
apply_params-IsNext c n loss (aggregate p) none is has h = absurd has
apply_params-IsNext c n loss (aggregate p) (some state) is has h =
    let (r, shared, h₁) = >>=-eq-ok (apply_aggregate loss p state) _ h in
    let next =
      HasSeen-apply_aggregate p has.a has.l has.attached has.limited has.t n loss state
        (record { gross = has.seen; ceded = has.ceded_is }) is shared in
    subst (λ (r : Money × Money × Option LayerState). IsNext (aggregate p) r.2) (ok_injective h₁)
      (record {
        a = has.a;
        l = has.l;
        t = has.t + n;
        attached = has.attached;
        limited = has.limited;
        seen = next.gross;
        ceded_is = next.ceded;
      })

-- A layer that goes into a cession, and what comes out for it.
abbrev pub IsReady : ReinsuranceLayer → Type 0
IsReady l = HasState l.params l.state

pub record IsCarried (l : ReinsuranceLayer) (x : LayerCession) : Type 0 where
  pub of_layer : x.layer_id ≡ l.id
  pub next : IsNext l.params x.next_state

apply_layer-IsCarried :
    (c : String) (n : ℕ) (loss : Money) (l : ReinsuranceLayer) {x : LayerCession}
    → loss.amount_minor ≡ pos n
    → IsReady l
    → apply_layer c loss l ≡ ok x
    → IsCarried l x
unfolding apply_layer
apply_layer-IsCarried c n loss l is ready h =
    let (_, valid, h₁) = >>=-eq-ok (require_valid_layer_params l.params) _ h in
    let (r, cut, h₂) = >>=-eq-ok (apply_params c loss l.params l.state) _ h₁ in
    subst (IsCarried l) (ok_injective h₂) (record {
      of_layer = refl;
      next = apply_params-IsNext c n loss l.params l.state is ready cut;
    })

-- What a layer retains of a loss that is not negative is not negative, and no more than the loss.
apply_layer-retains :
    (c : String) (n : ℕ) (loss : Money) (l : ReinsuranceLayer) {x : LayerCession}
    → loss.amount_minor ≡ pos n
    → n * 10000 < 2 ^ 52
    → apply_layer c loss l ≡ ok x
    → (m : ℕ) × (x.retained.amount_minor ≡ pos m) × (m ≤ n)
apply_layer-retains c n loss l is small h =
    let one = apply_layer-IsCession c loss l h in
    let (k, cut) = one.is_cut in
    let within = ceded_amount-within k n l.params l.state small one.valid in
    let (m, left, le) = retained_of n (ceded_amount k (pos n) l.params l.state) within.0 within.1 in
    let same = ap (λ (a : ℤ). ceded_amount k a l.params l.state) is in
    (m, ap (λ (y : Money). y.amount_minor) cut.retained_is ∙ ap₂ (◌-ℤ◌) is same ∙ left, le)

-- Every entry of a cession comes from a layer of the program with a property P, and carries it on.
abbrev pub Carries {ℓ} : (ReinsuranceLayer → Type ℓ) → LayerCession → Type ℓ
Carries P x = (l : ReinsuranceLayer) × P l × IsCarried l x

pub apply_layers-Carries {ℓ} :
    (P : ReinsuranceLayer → Type ℓ) (c : String) (n : ℕ) (loss : Money) (ls : List ReinsuranceLayer)
    {r : List LayerCession × Money}
    → loss.amount_minor ≡ pos n
    → n * 10000 < 2 ^ 52
    → All (λ l. P l × IsReady l) ls
    → apply_layers c loss ls ≡ ok r
    → All (Carries P) r.0
unfolding apply_layers
apply_layers-Carries P c n loss [] is small ready h =
    subst (λ (r : List LayerCession × Money). All (Carries P) r.0) (ok_injective h) tt
apply_layers-Carries P c n loss (l ∷ ls) is small ready h =
    let (x, one, h₁) = >>=-eq-ok (apply_layer c loss l) _ h in
    let (r, rest, h₂) = >>=-eq-ok (apply_layers c x.retained ls) _ h₁ in
    let (m, left, le) = apply_layer-retains c n loss l is small one in
    let first : Carries P x = (l, ready.0.0, apply_layer-IsCarried c n loss l is ready.0.1 one) in
    subst (λ (r : List LayerCession × Money). All (Carries P) r.0) (ok_injective h₂)
      (first, apply_layers-Carries P c m x.retained ls left (omega arith) ready.1 rest)
