-- ===== src/Identity/Agents.antt =====
-- The gate for agent-initiated actions lets an agent through exactly where its mandate holds.
use neo_lloyds.Prelude.{
  ℕ, ◌≡◌, ◌≢◌, refl, ◌⊎◌, inl, inr, ◌<◌, ◌↔◌, true, false, Option, none, some, arith,
}
use neo_lloyds.Prelude.Int.{ℤ, ◌≤ℤ◌}
use mathlib.Core.Logic.{⊎_elim}
use neo_lloyds.Errors.{Result, ok}
use neo_lloyds.Identity.{
  Organisation, verified, AgentMandate, has_expired, SubjectKind, user, service, agent, is_agent,
  AuthContext, includes, AgentCheckOptions, check_mandate, check_agent, assert_agent_may_act,
}

-- An expiry is ahead, or is no date.
abbrev pub IsAhead : Option ℕ → ℕ → Type 0
IsAhead none now = Unit
IsAhead (some expires_at) now = now < expires_at

expired_iff :
    (expires_at : Option ℕ) (now : ℕ)
    → (has_expired expires_at now ≡ false) ↔ IsAhead expires_at now
expired_iff none now = (λ h. tt, λ h. refl)
expired_iff (some t) now = (λ h. ground arith, λ h. ground arith)

-- What the gate asks of an agent's action under a mandate.
pub record MayAct (m : AgentMandate) (action : ℕ) (value : ℤ) (p : Organisation)
    (o : AgentCheckOptions) : Type 0 where
  pub resolves : p.id ≡ m.principal_organisation_id
  pub active : p.active ≡ true
  pub kyb : o.require_verified_principal ≡ true → p.kyb_status ≡ verified
  pub unexpired : IsAhead m.expires_at o.now
  pub permitted : includes m.permitted_actions action ≡ true
  pub bounded : value ≤ℤ m.max_transaction_value_minor

passes :
    (m : AgentMandate) (action : ℕ) (value : ℤ) (p : Organisation) (o : AgentCheckOptions)
    → MayAct m action value p o
    → has_expired m.expires_at o.now ≡ false
    → check_mandate m action value p o ≡ ok tt
unfolding check_mandate
passes m action value p o may current = ground arith

check_mandate_iff :
    (m : AgentMandate) (action : ℕ) (value : ℤ) (p : Organisation) (o : AgentCheckOptions)
    → (check_mandate m action value p o ≡ ok tt) ↔ MayAct m action value p o
unfolding check_mandate
check_mandate_iff m action value p o =
    let (ahead, late) = expired_iff m.expires_at o.now in
    (
      λ h.
          let current : has_expired m.expires_at o.now ≡ false = ground arith in
          record {
            resolves = ground arith;
            active = ground arith;
            kyb = ground arith;
            unexpired = ahead current;
            permitted = ground arith;
            bounded = ground arith;
          },
      λ h. let current = late h.unexpired in passes m action value p o h current,
    )

abbrev Mandated : Option AgentMandate → ℕ → ℤ → Option Organisation → AgentCheckOptions → Type 0
Mandated mandate action value principal o =
    (m : AgentMandate) × (p : Organisation) × (mandate ≡ some m)
    × (principal ≡ some p)
    × MayAct m action value p o

check_agent_iff :
    (mandate : Option AgentMandate) (action : ℕ) (value : ℤ) (principal : Option Organisation)
    (o : AgentCheckOptions)
    → (check_agent mandate action value principal o ≡ ok tt)
      ↔ Mandated mandate action value principal o
unfolding check_agent
check_agent_iff none action value principal o = (λ h. cc, λ (m, p, e, e', may). cc)
check_agent_iff (some m) action value none o = (λ h. cc, λ (n, p, e, e', may). cc)
check_agent_iff (some m) action value (some p) o = (
  λ h. (m, p, refl, refl, (check_mandate_iff m action value p o).0 h),
  λ (n, q, e, e', may). ground (arith, (check_mandate_iff n action value q o).1 may),
)

-- By the kind of the subject.
by_kind :
    (k : SubjectKind) (mandate : Option AgentMandate) (action : ℕ) (value : ℤ)
    (principal : Option Organisation) (o : AgentCheckOptions)
    → let r : Result (Unit {0}) = elim (is_agent k) [
      | false ↦ ok tt
      | true ↦ check_agent mandate action value principal o
    ] in
      (r ≡ ok tt) ↔ ((k ≢ agent) ⊎ Mandated mandate action value principal o)
by_kind user mandate action value principal o = (λ h. inl (λ d. cc), λ h. refl)
by_kind service mandate action value principal o = (λ h. inl (λ d. cc), λ h. refl)
by_kind agent mandate action value principal o =
    let checked = check_agent_iff mandate action value principal o in
    (λ h. inr (checked.0 h), ⊎_elim (λ d. absurd (d refl)) checked.1)

-- An action passes the gate exactly where the caller is no agent, or where it has a mandate that names an
-- active principal, which is KYB-verified where the options ask for that, the expiry of the mandate
-- is after now or is no date, the action is in the mandate, and the value is at most its ceiling.
-- That the agent's own organisation is active, which the security model asks too, is not tested.
pub assert_agent_may_act_iff :
    (ctx : AuthContext) (action : ℕ) (value : ℤ) (principal : Option Organisation)
    (o : AgentCheckOptions)
    → (assert_agent_may_act ctx action value principal o ≡ ok tt) ↔ (
        (ctx.subject_kind ≢ agent)
        ⊎ ((m : AgentMandate) × (p : Organisation) × (ctx.mandate ≡ some m)
            × (principal ≡ some p)
            × MayAct m action value p o))
unfolding assert_agent_may_act
assert_agent_may_act_iff ctx action value principal o =
    by_kind ctx.subject_kind ctx.mandate action value principal o
