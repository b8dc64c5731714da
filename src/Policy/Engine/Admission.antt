-- ===== src/Policy/Engine/Admission.antt =====
-- What an agent's request must meet to be admitted, and that the engine admits exactly that.
pub mod Checks
pub mod Exact
use ssh_gateway.Prelude.{
  Text, Bool, true, false, not, Option, none, some, List, [], ◌∷◌, ◌≡◌, ◌≢◌, ◌↔◌, ◌⊎◌, inl, inr,
  refl, arith, Any, any, any-Any, Any-any, Any-map, text_eq, text_eq_iff, Bool-cases, if◌then◌else◌,
  is_empty, ◌||◌,
}
use ssh_gateway.Errors.{Result, ok, err, ◌>>=◌, ◌>>◌}
use ssh_gateway.Config
use ssh_gateway.Config.{AppConfig, Profile, AgentPolicyConfig, PolicyEffectConfig, PolicyRuleConfig}
use ssh_gateway.Protocol.{CallerType, human_cli, agent_cli, mcp, Request, enforces_agent_policy}
use ssh_gateway.Policy.Paths.{require_path, allowed_roots}
use ssh_gateway.Policy.Paths.Confined.{IsAbsolute, Under, require_path-confines}
use ssh_gateway.Policy.Engine.{
  PolicyEffect, PolicyDecision, Capability, has_capability, require_capability,
  require_allowed_command, require_command, require_cwd, checked_policy, first_rule, decide,
  decided, authorize, authorize_caller, is_shutdown, ruled, unmatched, effect_of, require_tunnel,
  administration, approval_administration, profile_management, agents_cannot_decide,
}
use ssh_gateway.Policy.Engine.Rules.{First, here, later, Covers, Decided, first_rule-Decided}

-- No rules, or the first rule that covers the request does not deny it.
abbrev pub RulesAdmit : AgentPolicyConfig → Request → Type 0
RulesAdmit policy request =
    (policy.rules ≡ [])
    ⊎ ((rule : PolicyRuleConfig) × First request policy.rules rule
        × (rule.effect ≢ PolicyEffectConfig.deny))

-- The path lies under an allowed root, if any root is configured.
abbrev pub PathAdmitted : AgentPolicyConfig → Text → Bool → Type 0
PathAdmitted policy path write =
    (allowed_roots policy write ≡ [])
    ⊎ (IsAbsolute path × Any (Under path) (allowed_roots policy write))

-- Without rules, or with a list of commands, the command is on the list.
abbrev pub CommandAdmitted : AgentPolicyConfig → Text → Type 0
CommandAdmitted policy command =
    ((policy.rules ≡ []) ⊎ (policy.allowed_commands ≢ []))
    → Any (λ permitted. permitted ≡ command) policy.allowed_commands

abbrev pub CwdAdmitted : AgentPolicyConfig → Option Text → Type 0
CwdAdmitted policy none = Unit {0}
CwdAdmitted policy (some cwd) = PathAdmitted policy cwd false

abbrev pub Admitted : AppConfig → Request → Type 0
Admitted config (Request.exec name command cwd timeout env) =
    (p : Profile) × (Config.profile config name ≡ ok p)
    × (p.agent_policy.capabilities.exec ≡ true)
    × CommandAdmitted p.agent_policy command
    × CwdAdmitted p.agent_policy cwd
    × RulesAdmit p.agent_policy (Request.exec name command cwd timeout env)
Admitted config (Request.read name path) =
    (p : Profile) × (Config.profile config name ≡ ok p)
    × (p.agent_policy.capabilities.read ≡ true)
    × PathAdmitted p.agent_policy path false
    × RulesAdmit p.agent_policy (Request.read name path)
Admitted config (Request.write name path mode content) =
    (p : Profile) × (Config.profile config name ≡ ok p)
    × (p.agent_policy.capabilities.write ≡ true)
    × PathAdmitted p.agent_policy path true
    × RulesAdmit p.agent_policy (Request.write name path mode content)
Admitted config (Request.upload name src dst) =
    (p : Profile) × (Config.profile config name ≡ ok p)
    × (p.agent_policy.capabilities.upload ≡ true)
    × PathAdmitted p.agent_policy dst true
    × RulesAdmit p.agent_policy (Request.upload name src dst)
Admitted config (Request.download name src dst) =
    (p : Profile) × (Config.profile config name ≡ ok p)
    × (p.agent_policy.capabilities.download ≡ true)
    × PathAdmitted p.agent_policy src false
    × RulesAdmit p.agent_policy (Request.download name src dst)
Admitted config (Request.tunnel_open name local_port remote_host remote_port) =
    (p : Profile) × (Config.profile config name ≡ ok p)
    × (p.agent_policy.capabilities.tunnel ≡ true)
Admitted config (Request.tunnel_close tunnel_id none) = ⊥
Admitted config (Request.tunnel_close tunnel_id (some name)) =
    (p : Profile) × (Config.profile config name ≡ ok p)
    × (p.agent_policy.capabilities.tunnel ≡ true)
Admitted config Request.approval_list = ⊥
Admitted config (Request.approval_show id) = ⊥
Admitted config (Request.approval_approve id ttl task uses) = ⊥
Admitted config (Request.approval_reject id) = ⊥
Admitted config Request.approval_cleanup = ⊥
Admitted config Request.grant_list = ⊥
Admitted config (Request.grant_show id) = ⊥
Admitted config (Request.grant_revoke id) = ⊥
Admitted config Request.grant_cleanup = ⊥
Admitted config Request.plan_list = ⊥
Admitted config (Request.plan_show id) = ⊥
Admitted config (Request.plan_approve id) = ⊥
Admitted config (Request.plan_reject id) = ⊥
Admitted config (Request.profile_create p) = ⊥
Admitted config (Request.profile_delete name hash) = ⊥
Admitted config Request.shutdown = ⊥
Admitted config _ = Unit
