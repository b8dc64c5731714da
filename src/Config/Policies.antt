-- ===== src/Config/Policies.antt =====
-- src/config.rs: what agents may do on a profile, and how approvals and grants are limited.
use ssh_gateway.Prelude.{ℕ, Text, str, Bool, true, false, Option, none, List, []}

pub data PolicyEffectConfig : Type 0 where
  allow confirm deny : PolicyEffectConfig

pub data RiskLevelConfig : Type 0 where
  low medium high critical : RiskLevelConfig

pub record PolicyMatchConfig : Type 0 where
  pub operation : Text
  pub commands : List Text
  pub paths : List Text

pub record PolicyRuleConfig : Type 0 where
  pub id : Text
  pub matcher : PolicyMatchConfig
  pub effect : PolicyEffectConfig
  pub risk : Option RiskLevelConfig
  pub reason : Option Text

pub record AgentCapabilities : Type 0 where
  pub exec : Bool
  pub read : Bool
  pub write : Bool
  pub upload : Bool
  pub download : Bool
  pub tunnel : Bool

pub record AgentPolicyConfig : Type 0 where
  pub capabilities : AgentCapabilities
  pub allowed_read_paths : List Text
  pub allowed_write_paths : List Text
  pub allowed_commands : List Text
  pub deny_commands : List Text
  pub audit_command : Bool
  pub rules : List PolicyRuleConfig

pub record GrantRiskConfig : Type 0 where
  pub task : Bool
  pub time : Bool

pub record GrantConfig : Type 0 where
  pub max_ttl_seconds : ℕ
  pub default_max_uses : ℕ
  pub low : GrantRiskConfig
  pub medium : GrantRiskConfig
  pub high : GrantRiskConfig
  pub critical : GrantRiskConfig

pub record ApprovalStorageConfig : Type 0 where
  pub kind : Text
  pub path : Option Text

pub record ApprovalConfig : Type 0 where
  pub enabled : Bool
  pub ttl_seconds : ℕ
  pub storage : ApprovalStorageConfig
  pub grants : GrantConfig

-- `Default` of the capabilities, the policy and the grants
abbrev pub default_capabilities : AgentCapabilities
default_capabilities = record {
  exec = true;
  read = true;
  write = true;
  upload = true;
  download = true;
  tunnel = false;
}

abbrev pub default_policy : AgentPolicyConfig
default_policy = record {
  capabilities = default_capabilities;
  allowed_read_paths = [];
  allowed_write_paths = [];
  allowed_commands = [];
  deny_commands = [];
  audit_command = true;
  rules = [];
}

abbrev pub default_grants : GrantConfig
default_grants = record {
  max_ttl_seconds = 3600;
  default_max_uses = 20;
  low = record { task = true; time = true };
  medium = record { task = true; time = true };
  high = record { task = true; time = false };
  critical = record { task = false; time = false };
}

abbrev pub default_approval : ApprovalConfig
default_approval = record {
  enabled = true;
  ttl_seconds = 300;
  storage = record { kind = str "sqlite"; path = none };
  grants = default_grants;
}
