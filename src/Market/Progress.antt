-- ===== src/Market/Progress.antt =====
-- A full syndication can be bound: its owner has only to ask.
use neo_lloyds.Prelude.{ℕ, ◌≡◌, sym, ap, subst, ◌∙◌, true, some, List, [], ◌∷◌, arith}
use neo_lloyds.Prelude.Dict.{get, set, get-set-same}
use neo_lloyds.Errors.{ok}
use neo_lloyds.Identity.{
  AuthContext, risk_originator, broker, write, require_any_role, require_tenant_access,
}
use neo_lloyds.Syndication.{Allocation, total_share_bps, full_allocation_bps, bind_allocations}
use neo_lloyds.Syndication.Binding.{bind_allocations-exact}
use neo_lloyds.Market.Store.{Store, StoredSyndication, is_open}
use neo_lloyds.Market.Repositories.{or_nil, list_at, bind_stored, bound_syndication}
use neo_lloyds.Market.Syndications.{bind, require_open_syndication, must_exist}
use neo_lloyds.Market.Exact.{IsSplittable, AddsUp}
use neo_lloyds.Market.Valid.{AllValid}

-- A caller that may bind what an organisation has opened.
pub record MayBind (ctx : AuthContext) (organisation_id : ℕ) : Type 0 where
  pub role : require_any_role ctx (risk_originator ∷ broker ∷ []) ≡ ok tt
  pub owner : require_tenant_access ctx organisation_id write ≡ ok tt

-- An open syndication of which exactly 100 % is placed.
pub record IsFull (i : ℕ) (s : Store) (y : StoredSyndication) : Type 0 where
  pub found : get i s.syndications ≡ some y
  pub opened : is_open y.status ≡ true
  pub full : total_share_bps (list_at i s.allocations) ≡ full_allocation_bps
  pub splittable : IsSplittable y.capacity

abbrev pub IsBoundAt : ℕ → ℕ → StoredSyndication → Store → Type 0
IsBoundAt i now y t =
    (get i t.syndications ≡ some (bound_syndication now y)) × AddsUp y (list_at i t.allocations)

bind-returns :
    (ctx : AuthContext) (i now : ℕ) (s : Store) (y : StoredSyndication) (final : List Allocation)
    → MayBind ctx y.organisation_id
    → get i s.syndications ≡ some y
    → is_open y.status ≡ true
    → bind_allocations (list_at i s.allocations) y.capacity ≡ ok final
    → ((bind ctx i now s).0 ≡ ok (bound_syndication now y))
      × ((bind ctx i now s).1.syndications ≡ set i (bound_syndication now y) s.syndications)
      × ((bind ctx i now s).1.allocations ≡ set i final s.allocations)
unfolding bind require_open_syndication must_exist bind_stored
bind-returns ctx i now s y final may found opened exact = ground arith

-- Where every syndicate is valid, a call of `bind` on a full open syndication by its owner, an originator
-- or a broker, returns: the syndication is bound from then on, and the final amounts add up to its
-- capacity. The capacity is valid money of which 10000 times the magnitude is below 2 ^ 53.
pub bind_completes :
    (ctx : AuthContext) (i now : ℕ) (s : Store) (y : StoredSyndication)
    → AllValid s
    → IsFull i s y
    → MayBind ctx y.organisation_id
    → ((bind ctx i now s).0 ≡ ok (bound_syndication now y)) × IsBoundAt i now y (bind ctx i now s).1
bind_completes ctx i now s y valid ready may =
    let (final, done, _, exact) =
      bind_allocations-exact (list_at i s.allocations) y.capacity (valid i) ready.full
        ready.splittable.valid ready.splittable.small in
    let (returned, records, lists) =
      bind-returns ctx i now s y final may ready.found ready.opened done in
    let read : list_at i (bind ctx i now s).1.allocations ≡ final =
      ap (list_at i) lists ∙ ap or_nil (get-set-same i final s.allocations) in
    (
      returned,
      (
        ap (get i) records ∙ get-set-same i (bound_syndication now y) s.syndications,
        subst (AddsUp y) (sym read) exact,
      ),
    )
