-- ===== src/Identity/Tenants.antt =====
-- Who may touch another organisation's resources.
use mathlib.Core.List.{Memᴰ}
use mathlib.Core.List.Memᴰ
use neo_lloyds.Prelude.{
  ℕ, ◌≡◌, refl, ap, sym, ◌↔◌, ◌⊎◌, inl, inr, true, List, [], ◌∷◌, arith, ◌==◌, Bool-cases, ==_iff,
}
use neo_lloyds.Errors.{ok}
use neo_lloyds.Identity.{
  MarketRole, role_index, regulator, AuthContext, Access, read, write, includes, includes_role,
  require_tenant_access, require_any_role, has_any_role,
}

mem_of_includes : (xs : List ℕ) (x : ℕ) → includes xs x ≡ true → Memᴰ x xs
unfolding includes
mem_of_includes [] x h = cc
mem_of_includes (y ∷ ys) x h = elim (Bool-cases (y == x)) [
  | inl e ↦ Memᴰ.head (sym ((==_iff y x).0 e))
  | inr e ↦ Memᴰ.tail (mem_of_includes ys x (ground (arith, e)))
]

includes_of_mem : (xs : List ℕ) (x : ℕ) → Memᴰ x xs → includes xs x ≡ true
unfolding includes
includes_of_mem [] x m = absurd (Memᴰ.not-nil m)
includes_of_mem (y ∷ ys) x m = elim (Memᴰ.cases_cons m) [
  | inl e ↦ ground (arith, e)
  | inr later ↦ ground (arith, includes_of_mem ys x later)
]

pub includes_iff : (xs : List ℕ) (x : ℕ) → (includes xs x ≡ true) ↔ Memᴰ x xs
includes_iff xs x = (mem_of_includes xs x, includes_of_mem xs x)

role-injective : (a b : MarketRole) → role_index a ≡ role_index b → a ≡ b
role-injective a b h = ground arith

mem_of_includes_role :
    (rs : List MarketRole) (r : MarketRole) → includes_role rs r ≡ true → Memᴰ r rs
unfolding includes_role
mem_of_includes_role [] r h = cc
mem_of_includes_role (s ∷ rest) r h = elim (Bool-cases (role_index s == role_index r)) [
  | inl e ↦ Memᴰ.head (sym (role-injective s r ((==_iff _ _).0 e)))
  | inr e ↦ Memᴰ.tail (mem_of_includes_role rest r (ground (arith, e)))
]

includes_role_of_mem :
    (rs : List MarketRole) (r : MarketRole) → Memᴰ r rs → includes_role rs r ≡ true
unfolding includes_role
includes_role_of_mem [] r m = absurd (Memᴰ.not-nil m)
includes_role_of_mem (s ∷ rest) r m = elim (Memᴰ.cases_cons m) [
  | inl e ↦ ground (arith, ap role_index e)
  | inr later ↦ ground (arith, includes_role_of_mem rest r later)
]

-- Access to a resource is granted exactly to its own organisation, and for reading to an
-- organisation that holds the regulator's role; so nobody writes outside its own organisation.
pub require_tenant_access_iff :
    (ctx : AuthContext) (resource : ℕ) (access : Access)
    → (require_tenant_access ctx resource access ≡ ok tt)
      ↔ ((ctx.organisation_id ≡ resource) ⊎ (access ≡ read) × Memᴰ regulator ctx.roles)
unfolding require_tenant_access
require_tenant_access_iff ctx resource read = (
  λ h.
      ground
        (arith, mem_of_includes_role ctx.roles regulator, includes_role_of_mem ctx.roles regulator),
  λ h. ground (arith, includes_role_of_mem ctx.roles regulator),
)
require_tenant_access_iff ctx resource write = (λ h. ground arith, λ h. ground arith)

held_role :
    (ctx : AuthContext) (roles : List MarketRole)
    → has_any_role ctx roles ≡ true
    → (r : MarketRole) × Memᴰ r roles × Memᴰ r ctx.roles
unfolding has_any_role
held_role ctx [] h = cc
held_role ctx (r ∷ rest) h = elim (Bool-cases (includes_role ctx.roles r)) [
  | inl e ↦ (r, Memᴰ.head refl, mem_of_includes_role ctx.roles r e)
  | inr e ↦
      let (s, member, held) = held_role ctx rest (ground (arith, e)) in (s, Memᴰ.tail member, held)
]

has_any_role_of_mem :
    (ctx : AuthContext) (roles : List MarketRole) (r : MarketRole)
    → Memᴰ r roles
    → Memᴰ r ctx.roles
    → has_any_role ctx roles ≡ true
unfolding has_any_role
has_any_role_of_mem ctx [] r m held = absurd (Memᴰ.not-nil m)
has_any_role_of_mem ctx (s ∷ rest) r m held = elim (Memᴰ.cases_cons m) [
  | inl e ↦ ground (arith, ap (includes_role ctx.roles) e, includes_role_of_mem ctx.roles r held)
  | inr later ↦ ground (arith, has_any_role_of_mem ctx rest r later held)
]

role_test :
    (ctx : AuthContext) (roles : List MarketRole)
    → (require_any_role ctx roles ≡ ok tt) ↔ (has_any_role ctx roles ≡ true)
unfolding require_any_role
role_test ctx roles = (λ h. ground arith, λ h. ground arith)

-- A caller passes the role check exactly where it holds one of the roles.
pub require_any_role_iff :
    (ctx : AuthContext) (roles : List MarketRole)
    → (require_any_role ctx roles ≡ ok tt) ↔ ((r : MarketRole) × Memᴰ r roles × Memᴰ r ctx.roles)
require_any_role_iff ctx roles = (
  λ h. held_role ctx roles ((role_test ctx roles).0 h),
  λ (r, member, held). (role_test ctx roles).1 (has_any_role_of_mem ctx roles r member held),
)
