-- ===== src/Tests/Identity.antt =====
-- Tests of the gates for callers and agents.
use neo_lloyds.Prelude.{◌≡◌, ◌≢◌, ◌↔◌, ◌⊎◌, [], ◌∷◌, some, true}
use neo_lloyds.Prelude.Int.{pos}
use neo_lloyds.Errors.{ok}
use neo_lloyds.Identity.{
  AuthContext, agent, Organisation, company, verified, AgentMandate, AgentCheckOptions,
  assert_agent_may_act,
}
use neo_lloyds.Identity.Agents.{MayAct, assert_agent_may_act_iff}
use neo_lloyds.Tests.{administrator}

abbrev mandate : AgentMandate
mandate = record {
  id = 1;
  agent_organisation_id = 5;
  principal_organisation_id = 4;
  permitted_actions = 11 ∷ 12 ∷ [];
  max_transaction_value_minor = pos 500;
  expires_at = some 100;
}

abbrev principal : Organisation
principal = record { id = 4; kind = company; kyb_status = verified; active = true }

abbrev agent_caller : AuthContext
agent_caller = record administrator { subject_kind = agent; mandate = some mandate }

abbrev options : AgentCheckOptions
options = record { require_verified_principal = true; now = 99 }

assert_agent_may_act_iff_example :
    (assert_agent_may_act agent_caller 12 (pos 500) (some principal) options ≡ ok tt) ↔ (
      (agent ≢ agent)
      ⊎ ((m : AgentMandate) × (p : Organisation) × (some mandate ≡ some m)
          × (some principal ≡ some p)
          × MayAct m 12 (pos 500) p options))
assert_agent_may_act_iff_example =
    assert_agent_may_act_iff agent_caller 12 (pos 500) (some principal) options
