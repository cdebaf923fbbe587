-- ===== src/Tests.antt =====
-- Values that the tests share: amounts, callers and a syndicate, with the facts that hold of them.
pub mod Amounts
pub mod Syndication
pub mod Capital
pub mod Identity
pub mod Claims
pub mod Reinsurance
pub mod Transactions
pub mod Programs
pub mod Underwriting
pub mod Marketplace
pub mod Market
pub mod Clearance
pub mod Graph
use neo_lloyds.Prelude.{ℕ, ◌≡◌, refl, Option, none, some, List, [], ◌∷◌, true}
use neo_lloyds.Prelude.Int.{pos}
use Prim.Native.String.{String}
use neo_lloyds.Money.{Money, matches_currency_pattern}
use neo_lloyds.Money.Sums.{IsMoney, of_amount}
use neo_lloyds.Identity.{MarketRole, AuthContext, user, claims_administrator}

abbrev pub dollars : ℕ → Money
dollars n = of_amount (pos n) "USD"

pub dollars_coded : matches_currency_pattern "USD" ≡ true
unfolding matches_currency_pattern
dollars_coded = refl

-- A user of organisation 1.
abbrev pub administrator : AuthContext
administrator = record {
  organisation_id = 1;
  subject_id = 7;
  subject_kind = user;
  roles = claims_administrator ∷ [];
  scopes = [];
  mandate = none;
}
