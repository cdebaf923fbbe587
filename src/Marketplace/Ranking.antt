-- ===== src/Marketplace/Ranking.antt =====
-- A listing that matches, and the order of a ranking.
use neo_lloyds.Prelude.{
  ◌≡◌, refl, ap, subst, ◌↔◌, ◌⊎◌, Bool, true, false, not, List, [], ◌∷◌, ◌++◌, map, arith, All,
  All-map,
}
use neo_lloyds.Prelude.Int.{ℤ, ◌≤ℤ◌, ltb_ℤ}
use neo_lloyds.Prelude.Sorting.{sort, Sorted, sort-Sorted, sort-Perm, All-sort}
use mathlib.Core.List.{Perm}
use neo_lloyds.Errors.{ok, >>=-eq-ok, ok_injective, throw_if, currency_mismatch}
use neo_lloyds.Money.{
  Money, compare_money, same_currency, Comparison, is_more, assert_same_currency,
}
use neo_lloyds.Money.Allocate.{is_empty}
use neo_lloyds.Marketplace.{
  Listing, CapitalAppetite, MatchResult, risk_class_not_preferred, jurisdiction_not_preferred,
  custody_model_not_accepted, capacity_exceeds_max_exposure, duration_exceeds_max,
  concentration_exceeds_limit, Ranked, matches_appetite, reasons_for, reason_if, unwanted,
  concentration_share_bps, match_all, ranks_before, rank_listings,
}

-- A listing that a provider takes: each of the appetite's six conditions.
pub record IsWanted (listing : Listing) (appetite : CapitalAppetite) : Type 0 where
  pub risk_class : unwanted appetite.preferred_risk_classes listing.risk_class ≡ false
  pub jurisdiction : unwanted appetite.preferred_jurisdictions listing.jurisdiction ≡ false
  pub custody_model : unwanted appetite.accepted_custody_models listing.custody_model ≡ false
  pub exposure : listing.capacity.amount_minor ≤ℤ appetite.max_exposure.amount_minor
  pub duration : listing.duration_days ≤ℤ appetite.max_duration_days
  pub concentration :
      concentration_share_bps listing.capacity appetite.max_exposure
      ≤ℤ appetite.concentration_limit_bps

all_silent :
    (a b c d e f : Bool)
    → (is_empty (
          reason_if a risk_class_not_preferred
          ++ reason_if b jurisdiction_not_preferred
          ++ reason_if c custody_model_not_accepted
          ++ reason_if d capacity_exceeds_max_exposure
          ++ reason_if e duration_exceeds_max
          ++ reason_if f concentration_exceeds_limit)
        ≡ true)
      ↔ ((a ≡ false) × (b ≡ false) × (c ≡ false) × (d ≡ false) × (e ≡ false) × (f ≡ false))
all_silent a b c d e f = ground arith

no_more :
    (x y : Money) (comparison : Comparison)
    → compare_money x y ≡ ok comparison
    → (is_more comparison ≡ false) ↔ (x.amount_minor ≤ℤ y.amount_minor)
unfolding compare_money assert_same_currency
no_more x y comparison h = ground arith

not_above : (x y : ℤ) → (ltb_ℤ x y ≡ false) ↔ (y ≤ℤ x)
not_above x y = ground arith

reasons_iff :
    (listing : Listing) (appetite : CapitalAppetite) (comparison : Comparison)
    → compare_money listing.capacity appetite.max_exposure ≡ ok comparison
    → (is_empty (reasons_for listing appetite comparison) ≡ true) ↔ IsWanted listing appetite
unfolding reasons_for
reasons_iff listing appetite comparison h =
    let (quiet, loud) = all_silent _ _ _ _ _ _ in
    let exposure = no_more listing.capacity appetite.max_exposure comparison h in
    let duration = not_above appetite.max_duration_days listing.duration_days in
    let concentration =
      not_above appetite.concentration_limit_bps
        (concentration_share_bps listing.capacity appetite.max_exposure) in
    (
      λ e.
          let (a, b, c, d, e, f) = quiet e in
          record {
            risk_class = a;
            jurisdiction = b;
            custody_model = c;
            exposure = exposure.0 d;
            duration = duration.0 e;
            concentration = concentration.0 f;
          },
      λ w. loud (
        w.risk_class,
        w.jurisdiction,
        w.custody_model,
        exposure.1 w.exposure,
        duration.1 w.duration,
        concentration.1 w.concentration,
      ),
    )

-- A listing matches an appetite exactly where all of its conditions hold.
pub matches_appetite_iff :
    (listing : Listing) (appetite : CapitalAppetite) {result : MatchResult}
    → matches_appetite listing appetite ≡ ok result
    → (result.matches ≡ true) ↔ IsWanted listing appetite
unfolding matches_appetite
matches_appetite_iff listing appetite h =
    let (_, _, h₁) =
      >>=-eq-ok
        (throw_if (not (same_currency listing.capacity appetite.max_exposure)) currency_mismatch) _
        h in
    let (comparison, compared, h₂) =
      >>=-eq-ok (compare_money listing.capacity appetite.max_exposure) _ h₁ in
    let found = ap (λ (r : MatchResult). r.matches) (ok_injective h₂) in
    subst (λ (b : Bool). (b ≡ true) ↔ IsWanted listing appetite) found
      (reasons_iff listing appetite comparison compared)

ranks_before-asym : (a b : Ranked) → ranks_before a b ≡ true → ranks_before b a ≡ false
ranks_before-asym a b h = ground arith

ranks_before-neg_trans :
    (a b c : Ranked)
    → ranks_before a b ≡ false
    → ranks_before b c ≡ false
    → ranks_before a c ≡ false
ranks_before-neg_trans a b c h h' = ground arith

-- An entry holds the result of matching its listing.
abbrev pub IsMatched : CapitalAppetite → Ranked → Type 0
IsMatched appetite r = matches_appetite r.listing appetite ≡ ok r.result

match_all-IsMatched :
    (ls : List Listing) (appetite : CapitalAppetite) {rs : List Ranked}
    → match_all ls appetite ≡ ok rs
    → All (IsMatched appetite) rs × (map (λ (r : Ranked). r.listing) rs ≡ ls)
unfolding match_all
match_all-IsMatched [] appetite h =
    subst
      (λ (rs : List Ranked).
        All (IsMatched appetite) rs × (map (λ (r : Ranked). r.listing) rs ≡ []))
      (ok_injective h) (tt, refl)
match_all-IsMatched (l ∷ ls) appetite h =
    let (result, one, h₁) = >>=-eq-ok (matches_appetite l appetite) _ h in
    let (rest, others, h₂) = >>=-eq-ok (match_all ls appetite) _ h₁ in
    let (matched, same) = match_all-IsMatched ls appetite others in
    subst
      (λ (rs : List Ranked).
        All (IsMatched appetite) rs × (map (λ (r : Ranked). r.listing) rs ≡ l ∷ ls))
      (ok_injective h₂) ((one, matched), ap (λ (xs : List Listing). l ∷ xs) same)

-- The first may stand in front of the second.
abbrev pub InOrder : Ranked → Ranked → Type 0
InOrder a b =
    ((a.result.matches ≡ true) × (b.result.matches ≡ false))
    ⊎ ((a.result.matches ≡ b.result.matches)
        × (b.listing.capacity.amount_minor ≤ℤ a.listing.capacity.amount_minor))

abbrev pub IsOrdered : List Ranked → Type 0
IsOrdered [] = Unit
IsOrdered (r ∷ rs) = All (InOrder r) rs × IsOrdered rs

ranks_before-InOrder : (a b : Ranked) → ranks_before b a ≡ false → InOrder a b
ranks_before-InOrder a b h = ground arith

Sorted-IsOrdered : (rs : List Ranked) → Sorted ranks_before rs → IsOrdered rs
Sorted-IsOrdered [] h = tt
Sorted-IsOrdered (r ∷ rs) h =
    (All-map rs (λ x e. ranks_before-InOrder r x e) h.0, Sorted-IsOrdered rs h.1)

-- What a ranking is of some listings by an appetite.
pub record IsRanking (ls : List Listing) (appetite : CapitalAppetite) (rs : List Ranked)
    : Type 0 where
  pub ordered : IsOrdered rs
  pub matched : All (IsMatched appetite) rs
  pub rearranged : Perm (map (λ (r : Ranked). r.listing) rs) ls

-- A ranking rearranges the listings: it has exactly one entry for each, with the result of matching that
-- listing with the appetite. An entry that matches stands before all that do not, and among those
-- that match, or do not, none stands before one of a larger capacity.
pub rank_listings-IsRanking :
    (ls : List Listing) (appetite : CapitalAppetite) {rs : List Ranked}
    → rank_listings ls appetite ≡ ok rs
    → IsRanking ls appetite rs
unfolding rank_listings
rank_listings-IsRanking ls appetite h =
    let (entries, all, h₁) = >>=-eq-ok (match_all ls appetite) _ h in
    let (matched, same) = match_all-IsMatched ls appetite all in
    let moved = sort-Perm ranks_before (λ (r : Ranked). r.listing) entries in
    subst (IsRanking ls appetite) (ok_injective h₁) (record {
      ordered =
          Sorted-IsOrdered (sort ranks_before entries)
            (sort-Sorted ranks_before ranks_before-asym ranks_before-neg_trans entries);
      matched = All-sort ranks_before (IsMatched appetite) entries matched;
      rearranged =
          subst
            (λ (xs : List Listing).
              Perm (map (λ (r : Ranked). r.listing) (sort ranks_before entries)) xs)
            same moved;
    })
