-- ===== src/Service/World.antt =====
-- What the service works on: the tables, the sessions and the hosts behind them.
use ssh_gateway.Prelude.{ℕ, Text, Option, List}
use ssh_gateway.Errors.{Result}
use ssh_gateway.Config.{AppConfig, AgentPolicyConfig}
use ssh_gateway.Json.{Value}
use ssh_gateway.Protocol.{Request, CommandResult, EnvVar, WriteMode}
use ssh_gateway.Session.Manager.{SessionManager}
use ssh_gateway.Service.Action.{Action}

-- `hosts` stands for the remote hosts and the local files of transfers.
pub record World (H : Type 0) : Type 0 where
  pub sessions : SessionManager
  pub hosts : H

-- The operations of a session that reach a host, each with the configuration, the namespace and
-- the profile.
pub record Operations (H : Type 0) : Type 0 where
  -- the id of the session
  pub prepare_exec :
      AppConfig → Text → Text → Text → Option Text → Option ℕ → List EnvVar → Action (World H) Text
  pub execute_prepared_exec : Text → Request → Action (World H) CommandResult
  pub read : AppConfig → Text → Text → Text → List Text → Action (World H) CommandResult
  pub write :
      AppConfig → Text → Text → Text → WriteMode → Text → List Text → Action (World H) CommandResult
  pub upload : AppConfig → Text → Text → Text → Text → List Text → Action (World H) CommandResult
  pub download : AppConfig → Text → Text → Text → Text → List Text → Action (World H) CommandResult
  pub tunnel_open : AppConfig → Text → Text → ℕ → Text → ℕ → Action (World H) CommandResult
  -- what is shown of a profile and of a policy
  pub profile_summary : AppConfig → Text → Result Value
  pub policy_json : AgentPolicyConfig → Value
  -- the redacted summary of a request
  pub summary : AppConfig → Request → Text
  -- `env!("CARGO_PKG_VERSION")`
  pub version : Text

-- The clock's readings in one operation: of each session at the reaping, and behind it.
pub record Readings : Type 0 where
  pub looks : Text → ℕ
  pub now : ℕ
