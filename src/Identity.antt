-- ===== src/Identity.antt =====
-- packages/domain/src/identity.ts: market roles, tenants, scopes and the gate for agents. Scopes,
-- actions and identifiers are compared for equality only, so they are numbers; times are the
-- numbers of `Date.parse` and `getTime`.
pub mod Agents
pub mod Tenants
use neo_lloyds.Prelude.{
  ℕ, Bool, true, false, not, ◌&&◌, ◌||◌, Option, none, some, List, [], ◌∷◌, ◌==◌, leb,
}
use neo_lloyds.Prelude.Int.{ℤ, ltb_ℤ}
use neo_lloyds.Errors.{Result, ok, err, throw_if, ◌>>=◌, ◌>>◌, forbidden}

pub data MarketRole : Type 0 where
  risk_originator broker underwriter syndicate capital_provider reinsurer insurer : MarketRole
  claims_administrator settlement_provider regulator : MarketRole

-- The place of a role in `MARKET_ROLES`, by which roles are compared.
abbrev pub role_index : MarketRole → ℕ
role_index risk_originator = 0
role_index broker = 1
role_index underwriter = 2
role_index syndicate = 3
role_index capital_provider = 4
role_index reinsurer = 5
role_index insurer = 6
role_index claims_administrator = 7
role_index settlement_provider = 8
role_index regulator = 9

pub data OrganisationKind : Type 0 where
  company individual ai_agent regulator_body : OrganisationKind

pub data KybStatus : Type 0 where
  unverified pending verified rejected : KybStatus

pub record Organisation : Type 0 where
  pub id : ℕ
  pub kind : OrganisationKind
  pub kyb_status : KybStatus
  pub active : Bool

-- An expiry that `Date.parse` does not read is `none`.
pub record AgentMandate : Type 0 where
  pub id : ℕ
  pub agent_organisation_id : ℕ
  pub principal_organisation_id : ℕ
  pub permitted_actions : List ℕ
  pub max_transaction_value_minor : ℤ
  pub expires_at : Option ℕ

pub data SubjectKind : Type 0 where
  user service agent : SubjectKind

pub record AuthContext : Type 0 where
  pub organisation_id : ℕ
  pub subject_id : ℕ
  pub subject_kind : SubjectKind
  pub roles : List MarketRole
  pub scopes : List ℕ
  pub mandate : Option AgentMandate

-- `list.includes(item)`
unfoldable pub includes : List ℕ → ℕ → Bool
includes [] x = false
includes (y ∷ ys) x = (y == x) || includes ys x

unfoldable pub includes_role : List MarketRole → MarketRole → Bool
includes_role [] r = false
includes_role (s ∷ rest) r = (role_index s == role_index r) || includes_role rest r

-- The scope '*'.
abbrev pub any_scope : ℕ
any_scope = 0

unfoldable pub has_scope : AuthContext → ℕ → Bool
has_scope ctx scope = includes ctx.scopes scope || includes ctx.scopes any_scope

unfoldable pub has_any_role : AuthContext → List MarketRole → Bool
unfolding includes_role
has_any_role ctx [] = false
has_any_role ctx (r ∷ rest) = includes_role ctx.roles r || has_any_role ctx rest

unfoldable pub require_scope : AuthContext → ℕ → Result (Unit {0})
require_scope ctx scope = throw_if (not (has_scope ctx scope)) forbidden

unfoldable pub require_any_role : AuthContext → List MarketRole → Result (Unit {0})
require_any_role ctx roles = throw_if (not (has_any_role ctx roles)) forbidden

pub data Access : Type 0 where
  read write : Access

abbrev pub is_read : Access → Bool
is_read read = true
is_read write = false

unfoldable pub require_tenant_access : AuthContext → ℕ → Access → Result (Unit {0})
unfolding includes_role
require_tenant_access ctx resource_organisation_id access =
    throw_if
      (not (
        (ctx.organisation_id == resource_organisation_id)
        || (is_read access && includes_role ctx.roles regulator)))
      forbidden

pub record AgentCheckOptions : Type 0 where
  pub require_verified_principal : Bool
  pub now : ℕ

abbrev pub is_agent : SubjectKind → Bool
is_agent agent = true
is_agent _ = false

abbrev pub is_verified : KybStatus → Bool
is_verified verified = true
is_verified _ = false

-- `Date.parse(expiresAt) <= now`, which is false of a NaN.
abbrev pub has_expired : Option ℕ → ℕ → Bool
has_expired none now = false
has_expired (some expires_at) now = leb expires_at now

-- The checks on the principal, once it is known.
unfoldable pub check_mandate :
    AgentMandate → ℕ → ℤ → Organisation → AgentCheckOptions → Result (Unit {0})
unfolding includes
check_mandate mandate action value_minor principal options = do
  throw_if (not (principal.id == mandate.principal_organisation_id)) forbidden
  throw_if (not principal.active) forbidden
  throw_if (options.require_verified_principal && not (is_verified principal.kyb_status)) forbidden
  throw_if (has_expired mandate.expires_at options.now) forbidden
  throw_if (not (includes mandate.permitted_actions action)) forbidden
  throw_if (ltb_ℤ mandate.max_transaction_value_minor value_minor) forbidden

-- A context with a mandate, and a principal that resolved.
unfoldable pub check_agent :
    Option AgentMandate → ℕ → ℤ → Option Organisation → AgentCheckOptions → Result (Unit {0})
unfolding check_mandate
check_agent none action value_minor principal options = err forbidden
check_agent (some mandate) action value_minor none options = err forbidden
check_agent (some mandate) action value_minor (some principal) options =
    check_mandate mandate action value_minor principal options

unfoldable pub assert_agent_may_act :
    AuthContext → ℕ → ℤ → Option Organisation → AgentCheckOptions → Result (Unit {0})
unfolding check_agent
assert_agent_may_act ctx action value_minor principal options = elim (is_agent ctx.subject_kind) [
  | false ↦ ok tt
  | true ↦ check_agent ctx.mandate action value_minor principal options
]

pub data ApprovalBand : Type 0 where
  low medium high extreme : ApprovalBand

pub data ApprovalControl : Type 0 where
  automated_recommendation human_underwriter specialist_underwriter senior_governance :
      ApprovalControl

unfoldable pub control_for : ApprovalBand → ApprovalControl
control_for low = automated_recommendation
control_for medium = human_underwriter
control_for high = specialist_underwriter
control_for extreme = senior_governance

abbrev pub is_automated : ApprovalControl → Bool
is_automated automated_recommendation = true
is_automated _ = false

unfoldable pub may_proceed_without_human : ApprovalBand → Bool
unfolding control_for
may_proceed_without_human band = is_automated (control_for band)
