-- ===== src/Policy/Engine.antt =====
-- src/policy.rs, `PolicyEngine`: whether a caller may make a request, and under which rule.
pub mod Admission
pub mod Rules
use ssh_gateway.Prelude.{
  ℕ, Text, str, text_eq, Bool, true, false, not, Option, none, some, List, [], ◌∷◌, ◌++◌, ◌&&◌,
  ◌||◌, any, is_empty, if◌then◌else◌,
}
use ssh_gateway.Errors.{Result, ok, err, policy_denied, ◌>>=◌, ◌>>◌}
use ssh_gateway.Config
use ssh_gateway.Config.{
  AppConfig, AgentPolicyConfig, PolicyRuleConfig, PolicyMatchConfig, PolicyEffectConfig,
  RiskLevelConfig,
}
use ssh_gateway.Protocol.{CallerType, Request, enforces_agent_policy}
use ssh_gateway.Policy.Wildcard.{wildcard_match}
use ssh_gateway.Policy.Paths.{require_path}

pub data PolicyEffect : Type 0 where
  allow confirm deny : PolicyEffect

pub record PolicyDecision : Type 0 where
  pub effect : PolicyEffect
  pub rule_id : Option Text
  pub reason : Option Text
  pub risk : Option RiskLevelConfig

-- `PolicyDecision::allow`
abbrev pub allowed : PolicyDecision
allowed = record { effect = PolicyEffect.allow; rule_id = none; reason = none; risk = none }

pub data Capability : Type 0 where
  exec read write upload download tunnel : Capability

abbrev pub has_capability : AgentPolicyConfig → Capability → Bool
has_capability policy exec = policy.capabilities.exec
has_capability policy read = policy.capabilities.read
has_capability policy write = policy.capabilities.write
has_capability policy upload = policy.capabilities.upload
has_capability policy download = policy.capabilities.download
has_capability policy tunnel = policy.capabilities.tunnel

capability_name : Capability → Text
capability_name exec = str "exec"
capability_name read = str "read"
capability_name write = str "write"
capability_name upload = str "upload"
capability_name download = str "download"
capability_name tunnel = str "tunnel"

unfoldable pub require_capability : AgentPolicyConfig → Capability → Result (Unit {0})
unfolding capability_name
require_capability policy capability =
    if has_capability policy capability
    then ok tt
    else err
        (policy_denied (str "capability " ++ (capability_name capability ++ str " is disabled")))

unfoldable pub require_allowed_command : AgentPolicyConfig → Text → Result (Unit {0})
require_allowed_command policy command =
    if any (λ permitted. text_eq permitted command) policy.allowed_commands
    then ok tt
    else err (policy_denied (str "command is not present in agent_policy.allowed_commands"))

abbrev is_shutdown : Request → Bool
is_shutdown Request.shutdown = true
is_shutdown _ = false

unfoldable pub authorize_caller : CallerType → Request → Result (Unit {0})
unfolding enforces_agent_policy
authorize_caller caller request =
    if enforces_agent_policy caller && is_shutdown request
    then err (policy_denied (str "agents cannot stop the gateway daemon"))
    else ok tt

-- The operation's name, the text to match and the patterns to match it by.
abbrev pub subject : PolicyMatchConfig → Request → Option (Text × Text × List Text)
subject m (Request.exec profile command cwd timeout env) = some (str "exec", command, m.commands)
subject m (Request.read profile path) = some (str "read", path, m.paths)
subject m (Request.write profile path mode content) = some (str "write", path, m.paths)
subject m (Request.upload profile src dst) = some (str "upload", dst, m.paths)
subject m (Request.download profile src dst) = some (str "download", src, m.paths)
subject m _ = none

abbrev matches_subject : PolicyMatchConfig → Option (Text × Text × List Text) → Bool
matches_subject m none = false
matches_subject m (some (operation, value, patterns)) =
    text_eq m.operation operation && any (λ p. wildcard_match p value) patterns

unfoldable pub rule_matches : PolicyRuleConfig → Request → Bool
rule_matches rule request = matches_subject rule.matcher (subject rule.matcher request)

abbrev pub require_cwd : AgentPolicyConfig → Option Text → Result (Unit {0})
require_cwd policy none = ok tt
require_cwd policy (some cwd) = require_path policy cwd false

abbrev pub require_command : AgentPolicyConfig → Text → Result (Unit {0})
require_command policy command =
    if is_empty policy.rules || not (is_empty policy.allowed_commands)
    then require_allowed_command policy command
    else ok tt

administration : Result (Option AgentPolicyConfig)
administration = err (policy_denied (str "authorization administration requires Human CLI"))

approval_administration : Result (Option AgentPolicyConfig)
approval_administration = err (policy_denied (str "approval administration requires Human CLI"))

profile_management : Result (Option AgentPolicyConfig)
profile_management =
    err (policy_denied (str "profile management cannot be granted or included in a plan"))

agents_cannot_decide : Result (Option AgentPolicyConfig)
agents_cannot_decide = err (policy_denied (str "agents cannot approve or reject approvals"))

require_tunnel : AppConfig → Text → Result (Option AgentPolicyConfig)
unfolding require_capability Config.profile
require_tunnel config name = do
  p ← Config.profile config name
  require_capability p.agent_policy tunnel
  ok none

-- The `match` on the request: the checks that refuse it, and the policy whose rules decide it.
unfoldable pub checked_policy : AppConfig → Request → Result (Option AgentPolicyConfig)
unfolding administration approval_administration profile_management agents_cannot_decide
    require_tunnel
checked_policy config (Request.exec name command cwd timeout env) = do
  p ← Config.profile config name
  require_capability p.agent_policy exec
  require_command p.agent_policy command
  require_cwd p.agent_policy cwd
  ok (some p.agent_policy)
checked_policy config (Request.read name path) = do
  p ← Config.profile config name
  require_capability p.agent_policy read
  require_path p.agent_policy path false
  ok (some p.agent_policy)
checked_policy config (Request.write name path mode content) = do
  p ← Config.profile config name
  require_capability p.agent_policy write
  require_path p.agent_policy path true
  ok (some p.agent_policy)
checked_policy config (Request.upload name src dst) = do
  p ← Config.profile config name
  require_capability p.agent_policy upload
  require_path p.agent_policy dst true
  ok (some p.agent_policy)
checked_policy config (Request.download name src dst) = do
  p ← Config.profile config name
  require_capability p.agent_policy download
  require_path p.agent_policy src false
  ok (some p.agent_policy)
checked_policy config (Request.tunnel_open name local_port remote_host remote_port) =
    require_tunnel config name
checked_policy config (Request.tunnel_close tunnel_id none) =
    err (policy_denied (str "agent tunnel close requires --profile for policy verification"))
checked_policy config (Request.tunnel_close tunnel_id (some name)) = require_tunnel config name
checked_policy config (Request.approval_approve id ttl task uses) = agents_cannot_decide
checked_policy config (Request.approval_reject id) = agents_cannot_decide
checked_policy config Request.approval_list = approval_administration
checked_policy config (Request.approval_show id) = approval_administration
checked_policy config Request.approval_cleanup = approval_administration
checked_policy config Request.grant_list = administration
checked_policy config (Request.grant_show id) = administration
checked_policy config (Request.grant_revoke id) = administration
checked_policy config Request.grant_cleanup = administration
checked_policy config Request.plan_list = administration
checked_policy config (Request.plan_show id) = administration
checked_policy config (Request.plan_approve id) = administration
checked_policy config (Request.plan_reject id) = administration
checked_policy config (Request.plan_propose name task actions) = ok none
checked_policy config (Request.session_close id) = ok none
checked_policy config (Request.session_inspect id) = ok none
checked_policy config Request.session_list = ok none
checked_policy config Request.ping = ok none
checked_policy config Request.profile_list = ok none
checked_policy config (Request.profile_show name) = ok none
checked_policy config (Request.profile_validate name) = ok none
checked_policy config (Request.profile_policy name) = ok none
checked_policy config (Request.profile_create p) = profile_management
checked_policy config (Request.profile_delete name hash) = profile_management
checked_policy config Request.shutdown = ok none

abbrev pub effect_of : PolicyEffectConfig → PolicyEffect
effect_of PolicyEffectConfig.allow = PolicyEffect.allow
effect_of PolicyEffectConfig.confirm = PolicyEffect.confirm
effect_of PolicyEffectConfig.deny = PolicyEffect.deny

abbrev pub ruled : PolicyRuleConfig → PolicyDecision
ruled rule = record {
  effect = effect_of rule.effect;
  rule_id = some rule.id;
  reason = rule.reason;
  risk = rule.risk;
}

abbrev pub unmatched : PolicyDecision
unmatched = record {
  effect = PolicyEffect.deny;
  rule_id = none;
  reason = some (str "no policy rule matched");
  risk = none;
}

-- the loop over the rules, and the answer behind it
unfoldable pub first_rule : List PolicyRuleConfig → Request → PolicyDecision
first_rule [] request = unmatched
first_rule (rule ∷ rules) request =
    if rule_matches rule request then ruled rule else first_rule rules request

unfoldable pub decide : Option AgentPolicyConfig → Request → PolicyDecision
decide none request = allowed
decide (some policy) request =
    if is_empty policy.rules then allowed else first_rule policy.rules request

decided : Request → Result (Option AgentPolicyConfig) → Result PolicyDecision
decided request checked = checked >>= λ policy. ok (decide policy request)

unfoldable pub authorize : AppConfig → CallerType → Request → Result PolicyDecision
unfolding authorize_caller decided enforces_agent_policy
authorize config caller request = do
  authorize_caller caller request
  if not (enforces_agent_policy caller)
      then ok allowed
      else decided request (checked_policy config request)
