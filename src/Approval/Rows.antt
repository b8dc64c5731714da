-- ===== src/Approval/Rows.antt =====
-- src/approval.rs: the columns of the approvals table, and the texts stored in them.
use ssh_gateway.Prelude.{
  ℕ, Text, str, text_eq, Bool, true, false, Option, none, some, if◌then◌else◌,
}
use ssh_gateway.Errors.{Result, ok, err, approval}
use ssh_gateway.Config.{RiskLevelConfig}
use ssh_gateway.Protocol.{CallerType, human_cli, agent_cli, mcp, Request}

pub data Status : Type 0 where
  pending executing executed failed rejected expired : Status

pub record ApprovalRow : Type 0 where
  pub id : Text
  pub created_at : ℕ
  pub expires_at : ℕ
  pub profile : Text
  pub operation : Text
  pub request_payload : Text
  pub request_hash : Text
  pub rule_id : Option Text
  pub reason : Option Text
  pub risk : Option Text
  pub caller : Text
  pub status : Status
  pub summary : Text
  pub result_payload : Option Text
  pub task_id : Option Text
  pub authorization_namespace : Option Text

abbrev pub is_pending : Status → Bool
is_pending Status.pending = true
is_pending _ = false

abbrev pub is_executing : Status → Bool
is_executing Status.executing = true
is_executing _ = false

-- `status IN ('expired','rejected','executed','failed')`
abbrev pub is_final : Status → Bool
is_final Status.pending = false
is_final Status.executing = false
is_final _ = true

unfoldable pub risk_name : RiskLevelConfig → Text
risk_name RiskLevelConfig.low = str "low"
risk_name RiskLevelConfig.medium = str "medium"
risk_name RiskLevelConfig.high = str "high"
risk_name RiskLevelConfig.critical = str "critical"

unfoldable pub caller_name : CallerType → Text
caller_name human_cli = str "human_cli"
caller_name agent_cli = str "agent_cli"
caller_name mcp = str "mcp"

unfoldable pub parse_caller : Text → Result CallerType
parse_caller s =
    if text_eq s (str "human_cli")
    then ok human_cli
    else if text_eq s (str "agent_cli")
    then ok agent_cli
    else if text_eq s (str "mcp")
    then ok mcp
    else err (approval (str "invalid stored caller"))

unfoldable pub request_profile : Request → Option Text
request_profile (Request.exec profile command cwd timeout env) = some profile
request_profile (Request.read profile path) = some profile
request_profile (Request.write profile path mode content) = some profile
request_profile (Request.upload profile src dst) = some profile
request_profile (Request.download profile src dst) = some profile
request_profile (Request.tunnel_open profile local_port remote_host remote_port) = some profile
request_profile (Request.profile_delete profile hash) = some profile
request_profile (Request.profile_create p) = some p.name
request_profile _ = none

unfoldable pub request_name : Request → Text
request_name (Request.exec profile command cwd timeout env) = str "exec"
request_name (Request.read profile path) = str "read"
request_name (Request.write profile path mode content) = str "write"
request_name (Request.upload profile src dst) = str "upload"
request_name (Request.download profile src dst) = str "download"
request_name (Request.tunnel_open profile local_port remote_host remote_port) = str "tunnel"
request_name (Request.profile_create p) = str "profile_create"
request_name (Request.profile_delete profile hash) = str "profile_delete"
request_name _ = str "other"
