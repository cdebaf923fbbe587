-- ===== src/Reinsurance/Program.antt =====
-- A whole program: what its layers cede and what the cedant retains make up the gross loss.
use mathlib.Core.Path.{ap₂}
use neo_lloyds.Prelude.{
  ℕ, suc, ◌-◌, ◌*◌, ◌^◌, ◌≤◌, ◌<◌, ◌≡◌, refl, ap, sym, subst, ◌∙◌, List, [], ◌∷◌, arith, length,
  All,
}
use neo_lloyds.Prelude.Int.{
  ℤ, pos, negsuc, pos_part, neg_part, ◌+ℤ◌, ◌-ℤ◌, ◌≤ℤ◌, int_laws, pos--ℤ, -ℤ+ℤ_cancel, +ℤ_assoc,
  zero-+ℤ,
}
use neo_lloyds.Prelude.Sorting.{sort, length-sort}
use Prim.Native.String.{String}
use neo_lloyds.Errors.{ok, >>=-eq-ok, ok_injective}
use neo_lloyds.Money.{Money, money, subtract_money, add_money}
use neo_lloyds.Money.Sums.{IsMoney, of_amount, money_ok, add_money_lem, subtract_money-eq-ok}
use neo_lloyds.Reinsurance.{
  ReinsuranceLayer, LayerCession, ProgramCession, require_valid_layer_params, apply_params,
  apply_layer, apply_layers, apply_reinsurance_program, comes_first, require_non_negative,
}
use neo_lloyds.Reinsurance.Layers.{IsCut, ceded_amount, apply_params-IsCut, ceded_amount-within}

-- One layer's entry in the result, for the loss that it was presented with.
pub record IsCession (loss : Money) (layer : ReinsuranceLayer) (x : LayerCession) : Type 0 where
  pub of_layer : x.layer_id ≡ layer.id
  pub presented : x.loss_presented ≡ loss
  pub valid : require_valid_layer_params layer.params ≡ ok tt
  pub is_cut :
      (c : String) × IsCut loss x.ceded x.retained
        (ceded_amount c loss.amount_minor layer.params layer.state)

-- The entries of the layers in their order: each is presented with what the one before retained.
pub data Chain : Money → List ReinsuranceLayer → List LayerCession → Money → Type 0 where
  done : (loss : Money) → Chain loss [] [] loss
  next_layer :
      {loss net : Money} {l : ReinsuranceLayer} {ls : List ReinsuranceLayer} {x : LayerCession}
      {xs : List LayerCession}
      → IsCession loss l x
      → Chain x.retained ls xs net
      → Chain loss (l ∷ ls) (x ∷ xs) net

pub apply_layer-IsCession :
    (c : String) (loss : Money) (l : ReinsuranceLayer) {x : LayerCession}
    → apply_layer c loss l ≡ ok x
    → IsCession loss l x
unfolding apply_layer
apply_layer-IsCession c loss l h =
    let (_, valid, h₁) = >>=-eq-ok (require_valid_layer_params l.params) _ h in
    let (r, cut, h₂) = >>=-eq-ok (apply_params c loss l.params l.state) _ h₁ in
    subst (IsCession loss l) (ok_injective h₂) (record {
      of_layer = refl;
      presented = refl;
      valid = valid;
      is_cut = (c, apply_params-IsCut c loss l.params l.state cut);
    })

apply_layers-Chain :
    (c : String) (loss : Money) (ls : List ReinsuranceLayer) {r : List LayerCession × Money}
    → apply_layers c loss ls ≡ ok r
    → Chain loss ls r.0 r.1
unfolding apply_layers
apply_layers-Chain c loss [] h =
    subst (λ (r : List LayerCession × Money). Chain loss [] r.0 r.1) (ok_injective h) (done loss)
apply_layers-Chain c loss (l ∷ ls) h =
    let (x, one, h₁) = >>=-eq-ok (apply_layer c loss l) _ h in
    let (r, rest, h₂) = >>=-eq-ok (apply_layers c x.retained ls) _ h₁ in
    subst (λ (r : List LayerCession × Money). Chain loss (l ∷ ls) r.0 r.1) (ok_injective h₂)
      (next_layer (apply_layer-IsCession c loss l one) (apply_layers-Chain c x.retained ls rest))

unfoldable pub ceded_sum : List LayerCession → ℤ
ceded_sum [] = pos 0
ceded_sum (x ∷ xs) = x.ceded.amount_minor +ℤ ceded_sum xs

step_sum : (k s net a : ℤ) → s +ℤ net ≡ a -ℤ k → (k +ℤ s) +ℤ net ≡ a
step_sum k s net a h = +ℤ_assoc k s net ∙ ap (λ z. k +ℤ z) h ∙ -ℤ+ℤ_cancel a k

-- What all the layers cede, and the net retained, add up to the loss, in its currency.
Chain-sum :
    {loss net : Money} {ls : List ReinsuranceLayer} {xs : List LayerCession}
    → Chain loss ls xs net
    → (ceded_sum xs +ℤ net.amount_minor ≡ loss.amount_minor)
      × (net.currency ≡ loss.currency)
      × (length xs ≡ length ls)
unfolding ceded_sum
Chain-sum (done loss) = (zero-+ℤ loss.amount_minor, refl, refl)
Chain-sum (next_layer {loss} {net} {l} {ls} {x} {xs} one rest) =
    let (sum, same, count) = Chain-sum rest in
    let (_, is_cut) = one.is_cut in
    let ceded_is = ap (λ (m : Money). m.amount_minor) is_cut.ceded_is in
    let retained_is = ap (λ (m : Money). m.amount_minor) is_cut.retained_is in
    (
      step_sum x.ceded.amount_minor (ceded_sum xs) net.amount_minor loss.amount_minor
          (sum ∙ retained_is ∙ ap (λ k. loss.amount_minor -ℤ k) (sym ceded_is)),
      same ∙ ap (λ (m : Money). m.currency) is_cut.retained_is,
      ap (λ (n : ℕ). suc n) count,
    )

-- What a program's result promises of a gross loss.
pub record IsConserved (gross : Money) (layers : List ReinsuranceLayer) (r : ProgramCession)
    : Type 0 where
  pub kept : r.gross_loss ≡ gross
  pub chain : Chain gross (sort comes_first layers) r.per_layer r.net_retained
  pub one_each : length r.per_layer ≡ length layers
  pub total : r.total_ceded.amount_minor ≡ ceded_sum r.per_layer
  pub adds_up : add_money r.total_ceded r.net_retained ≡ ok gross

rest_of : (s net a : ℤ) → s +ℤ net ≡ a → (a -ℤ net ≡ s) × ((a -ℤ net) +ℤ net ≡ a)
rest_of s net a h =
    let parts = ap pos_part h in let others = ap neg_part h in (omega int_laws, omega int_laws)

add_money_of :
    (total net : Money) (gross : Money) (a b : ℤ)
    → total ≡ of_amount a gross.currency
    → net.amount_minor ≡ b
    → net.currency ≡ gross.currency
    → a +ℤ b ≡ gross.amount_minor
    → IsMoney gross
    → add_money total net ≡ ok gross
add_money_of total net gross a b is amount currency sum valid =
    let is_net : net ≡ of_amount b gross.currency = cc in
    rw (is, is_net)
      (add_money_lem a b gross.currency
        ∙ ap (λ z. money z gross.currency) sum
        ∙ money_ok gross.amount_minor gross.currency valid.safe valid.coded)

-- Where a program applies to valid money, every layer has one entry, in the order of the layers; each is
-- presented with what the one before has retained; the total ceded is the sum of what the layers
-- cede; and the total and the net retained add up to exactly the gross loss.
pub apply_reinsurance_program-conserves :
    (gross : Money) (layers : List ReinsuranceLayer) {r : ProgramCession}
    → IsMoney gross
    → apply_reinsurance_program gross layers ≡ ok r
    → IsConserved gross layers r
unfolding apply_reinsurance_program
apply_reinsurance_program-conserves gross layers valid h =
    let ordered = sort comes_first layers in
    let (_, _, h₁) = >>=-eq-ok (require_non_negative gross) _ h in
    let (p, applied, h₂) = >>=-eq-ok (apply_layers gross.currency gross ordered) _ h₁ in
    let (total, left, h₃) = >>=-eq-ok (subtract_money gross p.1) _ h₂ in
    let chain = apply_layers-Chain gross.currency gross ordered applied in
    let (sum, same, count) = Chain-sum chain in
    let total_is = subtract_money-eq-ok gross p.1 left in
    let (rest, back) = rest_of (ceded_sum p.0) p.1.amount_minor gross.amount_minor sum in
    subst (IsConserved gross layers) (ok_injective h₃) (record {
      kept = refl;
      chain = chain;
      one_each = count ∙ length-sort comes_first layers;
      total = ap (λ (m : Money). m.amount_minor) total_is ∙ rest;
      adds_up = add_money_of total p.1 gross _ _ total_is refl same back valid;
    })

pub record IsBounded (n : ℕ) (xs : List LayerCession) (net : Money) : Type 0 where
  pub ceded : All (λ (x : LayerCession). pos 0 ≤ℤ x.ceded.amount_minor) xs
  pub retained : (pos 0 ≤ℤ net.amount_minor) × (net.amount_minor ≤ℤ pos n)

pub retained_of :
    (n : ℕ) (k : ℤ) → pos 0 ≤ℤ k → k ≤ℤ pos n → (m : ℕ) × (pos n -ℤ k ≡ pos m) × (m ≤ n)
retained_of n (pos k) h h' = (n - k, pos--ℤ n k (omega arith), omega arith)
retained_of n (negsuc k) h h' = absurd (omega arith)

at_most : (a : ℤ) {m n : ℕ} → a ≤ℤ pos m → m ≤ n → a ≤ℤ pos n
at_most a h le = omega arith

Chain-IsBounded :
    {loss net : Money} {ls : List ReinsuranceLayer} {xs : List LayerCession} (n : ℕ)
    → Chain loss ls xs net
    → loss.amount_minor ≡ pos n
    → n * 10000 < 2 ^ 52
    → IsBounded n xs net
Chain-IsBounded n (done loss) e small = record {
  ceded = tt;
  retained = rw e (omega arith, omega arith);
}
Chain-IsBounded n (next_layer {loss} {net} {l} {ls} {x} {xs} one rest) e small =
    let (c, is_cut) = one.is_cut in
    let within = ceded_amount-within c n l.params l.state small one.valid in
    let k = ceded_amount c (pos n) l.params l.state in
    let (m, left, le) = retained_of n k within.0 within.1 in
    let same_amount = ap (λ (a : ℤ). ceded_amount c a l.params l.state) e in
    let ceded_is : x.ceded.amount_minor ≡ k =
      ap (λ (m : Money). m.amount_minor) is_cut.ceded_is ∙ same_amount in
    let retained_is : x.retained.amount_minor ≡ pos m =
      ap (λ (m : Money). m.amount_minor) is_cut.retained_is ∙ ap₂ (◌-ℤ◌) e same_amount ∙ left in
    let bounded = Chain-IsBounded m rest retained_is (omega arith) in
    let below : net.amount_minor ≤ℤ pos n = at_most net.amount_minor bounded.retained.1 le in
    record { ceded = (rw ceded_is within.0, bounded.ceded); retained = (bounded.retained.0, below) }

-- Where 10000 times the gross loss is below 2 ^ 52 and the program applies, no layer cedes less than
-- nothing, and the cedant retains no less than nothing and no more than the gross loss.
pub apply_reinsurance_program-bounds :
    (n : ℕ) (c : String) (layers : List ReinsuranceLayer) {r : ProgramCession}
    → IsMoney (of_amount (pos n) c)
    → n * 10000 < 2 ^ 52
    → apply_reinsurance_program (of_amount (pos n) c) layers ≡ ok r
    → IsBounded n r.per_layer r.net_retained
apply_reinsurance_program-bounds n c layers valid small h =
    Chain-IsBounded n
      (apply_reinsurance_program-conserves (of_amount (pos n) c) layers valid h).chain refl small
