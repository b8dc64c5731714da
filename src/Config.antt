-- ===== src/Config.antt =====
-- src/config.rs: the configuration that every request is decided by.
mod Endpoints
mod Policies
pub use Endpoints.*
pub use Policies.*
use ssh_gateway.Prelude.{Text, Bool, Option, none, some, List, find?, text_eq}
use ssh_gateway.Errors.{Result, ok, err, profile_not_found}

pub record Profile : Type 0 where
  pub name : Text
  pub description : Option Text
  pub via_profile : Option Text
  pub target : HostEndpoint
  pub bastions : List HostEndpoint
  pub auth : Option AuthConfig
  pub remote : RemoteConfig
  pub agent : AgentConfig
  pub bootstrap : BootstrapConfig
  pub timeouts : TimeoutConfig
  pub keepalive : KeepaliveConfig
  pub agent_policy : AgentPolicyConfig

pub record ProfileManagementConfig : Type 0 where
  pub enabled : Bool

pub record McpAuthConfig : Type 0 where
  pub kind : Text
  pub token_env : Text
  pub resource : Option Text
  pub issuer : Option Text
  pub jwks_url : Option Text
  pub scopes : List Text
  pub audience_claim : Text

pub record McpTenantConfig : Type 0 where
  pub resource : Text
  pub tenant_id : Option Text
  pub config_path : Text
  pub local_file_root : Option Text
  pub task_id_env : Option Text
  pub profile_management : Option ProfileManagementConfig

pub record McpConfig : Type 0 where
  pub listen : Text
  pub auth : McpAuthConfig
  pub tenants : List McpTenantConfig
  pub allowed_origins : List Text
  pub local_file_root : Option Text
  pub task_id_env : Option Text
  pub profile_management : ProfileManagementConfig

pub record AppConfig : Type 0 where
  pub profiles : List Profile
  pub mcp : McpConfig
  pub approval : ApprovalConfig
  pub runtime : RuntimeConfig
  pub source_path : Text
  pub source_hash : Text
  pub authorization_namespace : Option Text

or_not_found : Text → Option Profile → Result Profile
or_not_found name none = err (profile_not_found name)
or_not_found name (some p) = ok p

-- `AppConfig::profile`: the first profile of the name.
unfoldable pub profile : AppConfig → Text → Result Profile
unfolding or_not_found
profile config name = or_not_found name (find? (λ p. text_eq p.name name) config.profiles)
