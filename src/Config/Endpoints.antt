-- ===== src/Config/Endpoints.antt =====
-- src/config.rs: endpoints, credentials and the settings of a profile's connection.
use ssh_gateway.Prelude.{ℕ, Text, Bool, Option, List}

pub data AuthKind : Type 0 where
  key password external : AuthKind

pub record AuthConfig : Type 0 where
  pub kind : Option AuthKind
  pub key_path : Option Text
  pub passphrase : Option Text
  pub password : Option Text
  pub credential_id : Option Text

pub record HostEndpoint : Type 0 where
  pub host : Text
  pub user : Text
  pub port : ℕ
  pub auth : Option AuthConfig
  pub host_key_sha256 : Option Text

pub record RemoteConfig : Type 0 where
  pub shell : Text

pub record AgentConfig : Type 0 where
  pub manage : Bool
  pub remote_path : Text
  pub version : Text

pub record BootstrapConfig : Type 0 where
  pub enabled : Bool
  pub remote_temp_dir : Text

pub record TimeoutConfig : Type 0 where
  pub exec_seconds : ℕ
  pub idle_session_seconds : ℕ

pub record KeepaliveConfig : Type 0 where
  pub interval_seconds : ℕ
  pub count_max : ℕ

pub data RuntimeMode : Type 0 where
  self_hosted cloud : RuntimeMode

pub data HostKeyMode : Type 0 where
  strict insecure_compatibility : HostKeyMode

pub record RuntimeConfig : Type 0 where
  pub mode : RuntimeMode
  pub host_key_mode : HostKeyMode

pub record DelegatedEndpoint : Type 0 where
  pub host : Text
  pub user : Text
  pub port : ℕ

pub data ResolvedAuthConfig : Type 0 where
  key : Text → Option Text → ResolvedAuthConfig
  password : Text → ResolvedAuthConfig

pub record ResolvedEndpoint : Type 0 where
  pub host : Text
  pub user : Text
  pub port : ℕ
  pub auth : ResolvedAuthConfig
  pub host_key_sha256 : Option Text

pub data ResolvedTransport : Type 0 where
  direct : ResolvedEndpoint → List ResolvedEndpoint → ResolvedTransport
  delegated : Text → DelegatedEndpoint → ResolvedTransport

pub record ResolvedProfile : Type 0 where
  pub name : Text
  pub transport : ResolvedTransport
  pub agent : AgentConfig
  pub timeouts : TimeoutConfig
  pub keepalive : KeepaliveConfig
  pub host_key_mode : HostKeyMode
  pub runtime_mode : RuntimeMode
