-- ===== src/Reinsurance/Treaty.antt =====
-- The invariant of the stored programs: every aggregate layer has ceded exactly the part in its
-- band of what it has seen.
use neo_lloyds.Prelude.{
  ℕ, ◌≡◌, ◌≢◌, refl, sym, ap, subst, ◌∙◌, Option, none, some, List, [], ◌∷◌, map, All, All-map,
  All-zip, All-of_map, if◌then◌else◌,
}
use neo_lloyds.Prelude.Dict.{Dict}
use Prim.Native.String.{String}
use neo_lloyds.Errors.{Result, ok, >>=-eq-ok, ok_injective}
use neo_lloyds.Money.{Money, money}
use neo_lloyds.Money.Sums.{money-eq-ok}
use neo_lloyds.Reinsurance.{
  LayerParams, quota_share, excess_of_loss, aggregate, LayerState, ReinsuranceLayer, LayerCession,
}
use neo_lloyds.Reinsurance.Stored.{
  LayerKind, quota_share_kind, excess_of_loss_kind, aggregate_kind, is_aggregate, StoredLayer,
  StoredProgram, carried_state, to_layer, to_layers, consumed, update_programs, update_state,
  update_states,
}
use neo_lloyds.Reinsurance.Consumption.{
  layers_of, layers_of-update_programs, signature, signatures-consume, All-consume,
}
use neo_lloyds.Reinsurance.Carried.{HasCeded, HasState, IsReady, IsNext, Carries}

abbrev pub kind_of : LayerParams → LayerKind
kind_of (quota_share p) = quota_share_kind
kind_of (excess_of_loss p) = excess_of_loss_kind
kind_of (aggregate p) = aggregate_kind

-- A stored layer is of the kind of its parameters, and an aggregate one has ceded what is in its band.
pub record IsBalanced (l : StoredLayer) : Type 0 where
  pub same_kind : l.kind ≡ kind_of l.params
  pub ceded : HasCeded l.params l.aggregate_consumed_gross_minor l.aggregate_consumed_ceded_minor

abbrev pub Distinct : List (ℕ × LayerParams) → Type 0
Distinct [] = Unit
Distinct (e ∷ es) = All (λ (f : ℕ × LayerParams). f.0 ≢ e.0) es × Distinct es

abbrev pub signatures : Dict StoredProgram → List (ℕ × LayerParams)
signatures d = map signature (layers_of d)

pub record IsTreaty (d : Dict StoredProgram) : Type 0 where
  pub balanced : All IsBalanced (layers_of d)
  pub distinct : Distinct (signatures d)

-- The identifier stands for these parameters.
pub record Owns (es : List (ℕ × LayerParams)) (id : ℕ) (params : LayerParams) : Type 0 where
  pub owns : All (λ (e : ℕ × LayerParams). e.0 ≡ id → e.1 ≡ params) es

pub Distinct-Owns :
    (es : List (ℕ × LayerParams)) → Distinct es → All (λ (e : ℕ × LayerParams). Owns es e.0 e.1) es
Distinct-Owns [] d = tt
Distinct-Owns (e ∷ es) d =
    let first : Owns (e ∷ es) e.0 e.1 = record {
      owns = (λ _. refl, All-map es (λ f ne is. absurd (ne is)) d.0);
    } in
    let others : All (λ (f : ℕ × LayerParams). (f.0 ≢ e.0) × Owns es f.0 f.1) es =
      All-zip _ _ es d.0 (Distinct-Owns es d.1) in
    (first, All-map es (λ f h. record { owns = (λ is. absurd (h.0 (sym is)), h.1.owns) }) others)

abbrev state_if : String → LayerKind → StoredLayer → Result (Option LayerState)
state_if c kind l = if is_aggregate kind then carried_state c l else ok none

carried-HasState :
    (c : String) (params : LayerParams) (l : StoredLayer) {state : Option LayerState}
    → HasCeded params l.aggregate_consumed_gross_minor l.aggregate_consumed_ceded_minor
    → state_if c (kind_of params) l ≡ ok state
    → HasState params state
carried-HasState c (quota_share p) l has h = subst (HasState (quota_share p)) (ok_injective h) tt
carried-HasState c (excess_of_loss p) l has h =
    subst (HasState (excess_of_loss p)) (ok_injective h) tt
carried-HasState c (aggregate p) l {state} has h =
    let (gross, got, h₁) = >>=-eq-ok (money l.aggregate_consumed_gross_minor c) _ h in
    let (total, got', h₂) = >>=-eq-ok (money l.aggregate_consumed_ceded_minor c) _ h₁ in
    subst (HasState (aggregate p)) (ok_injective h₂) (record {
      a = has.a;
      l = has.l;
      t = has.t;
      attached = has.attached;
      limited = has.limited;
      seen = ap (λ (m : Money). m.amount_minor) (money-eq-ok _ c got) ∙ has.seen;
      ceded_is = ap (λ (m : Money). m.amount_minor) (money-eq-ok _ c got') ∙ has.ceded_is;
    })

-- A stored layer that is balanced goes into a cession with its state.
record IsRead (l : StoredLayer) (r : ReinsuranceLayer) : Type 0 where
  id_is : r.id ≡ l.id
  params_is : r.params ≡ l.params
  ready : IsReady r

to_layer-IsRead :
    (c : String) (l : StoredLayer) {r : ReinsuranceLayer}
    → IsBalanced l
    → to_layer c l ≡ ok r
    → IsRead l r
unfolding to_layer
to_layer-IsRead c l good h =
    let (state, got, h₁) = >>=-eq-ok (state_if c l.kind l) _ h in
    let known = sym (ap (λ (k : LayerKind). state_if c k l) good.same_kind) ∙ got in
    subst (IsRead l) (ok_injective h₁) (record {
      id_is = refl;
      params_is = refl;
      ready = carried-HasState c l.params l good.ceded known;
    })

pub to_layers-IsReady :
    (es : List (ℕ × LayerParams)) (c : String) (ls : List StoredLayer) {rs : List ReinsuranceLayer}
    → All (λ (l : StoredLayer). IsBalanced l × Owns es l.id l.params) ls
    → to_layers c ls ≡ ok rs
    → All (λ (r : ReinsuranceLayer). Owns es r.id r.params × IsReady r) rs
unfolding to_layers
to_layers-IsReady es c [] good h =
    subst (All (λ (r : ReinsuranceLayer). Owns es r.id r.params × IsReady r)) (ok_injective h) tt
to_layers-IsReady es c (l ∷ ls) good h =
    let (r, one, h₁) = >>=-eq-ok (to_layer c l) _ h in
    let (rs, rest, h₂) = >>=-eq-ok (to_layers c ls) _ h₁ in
    let first = to_layer-IsRead c l good.0.0 one in
    let known : Owns es r.id r.params = rw (first.id_is, first.params_is) good.0.1 in
    subst (All (λ (r : ReinsuranceLayer). Owns es r.id r.params × IsReady r)) (ok_injective h₂)
      ((known, first.ready), to_layers-IsReady es c ls good.1 rest)

-- What the updates of a cession keep.
pub record IsKept (es : List (ℕ × LayerParams)) (d : Dict StoredProgram) : Type 0 where
  pub balanced : All IsBalanced (layers_of d)
  pub same : signatures d ≡ es

abbrev pub CarriesOwn : List (ℕ × LayerParams) → LayerCession → Type 0
CarriesOwn es x = Carries (λ r. Owns es r.id r.params) x

IsBalanced-consumed :
    (l : StoredLayer) (params : LayerParams) (state : LayerState)
    → l.params ≡ params
    → IsNext params (some state)
    → IsBalanced l
    → IsBalanced (consumed state l)
IsBalanced-consumed l params state is next good = record {
  same_kind = good.same_kind;
  ceded = subst (λ (p : LayerParams). IsNext p (some state)) (sym is) next;
}

update-IsKept :
    (es : List (ℕ × LayerParams)) (id : ℕ) (params : LayerParams) (state : LayerState)
    (d : Dict StoredProgram)
    → Owns es id params
    → IsNext params (some state)
    → IsKept es d
    → IsKept es (update_programs id state d)
update-IsKept es id params state d mine next kept =
    let flat = layers_of-update_programs id state d in
    let owned : All (λ (l : StoredLayer). l.id ≡ id → l.params ≡ params) (layers_of d) =
      All-of_map (λ (e : ℕ × LayerParams). e.0 ≡ id → e.1 ≡ params) signature (layers_of d)
        (subst (All (λ (e : ℕ × LayerParams). e.0 ≡ id → e.1 ≡ params)) (sym kept.same)
          mine.owns) in
    let step =
      All-map (layers_of d)
        (λ l own (is : l.id ≡ id) (good : IsBalanced l).
          IsBalanced-consumed l params state (own is) next good)
        owned in
    record {
      balanced =
          subst (All IsBalanced) (sym flat)
            (All-consume IsBalanced id state (layers_of d) kept.balanced step);
      same = ap (map signature) flat ∙ signatures-consume id state (layers_of d) ∙ kept.same;
    }

update_state-IsKept :
    (es : List (ℕ × LayerParams)) (id : ℕ) (params : LayerParams) (next : Option LayerState)
    (d : Dict StoredProgram)
    → Owns es id params
    → IsNext params next
    → IsKept es d
    → IsKept es (update_state id next d)
unfolding update_state
update_state-IsKept es id params none d mine carried kept = kept
update_state-IsKept es id params (some state) d mine carried kept =
    update-IsKept es id params state d mine carried kept

pub update_states-IsKept :
    (es : List (ℕ × LayerParams)) (xs : List LayerCession) (d : Dict StoredProgram)
    → All (CarriesOwn es) xs
    → IsKept es d
    → IsKept es (update_states xs d)
unfolding update_states
update_states-IsKept es [] d h kept = kept
update_states-IsKept es (x ∷ xs) d h kept =
    let (r, mine, carried) = h.0 in
    let known : Owns es x.layer_id r.params = rw carried.of_layer mine in
    update_states-IsKept es xs (update_state x.layer_id x.next_state d) h.1
      (update_state-IsKept es x.layer_id r.params x.next_state d known carried.next kept)
