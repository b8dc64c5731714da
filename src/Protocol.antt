-- ===== src/Protocol.antt =====
-- src/protocol.rs: callers, requests and results.
use ssh_gateway.Prelude.{ℕ, Text, Bool, true, false, Option, none, some, List, [], ◌∷◌}
use ssh_gateway.Json.{Value}
use ssh_gateway.Config.{Profile}

pub data CallerType : Type 0 where
  human_cli agent_cli mcp : CallerType

unfoldable pub enforces_agent_policy : CallerType → Bool
enforces_agent_policy human_cli = false
enforces_agent_policy agent_cli = true
enforces_agent_policy mcp = true

pub record EnvVar : Type 0 where
  pub key : Text
  pub value : Text

pub data WriteMode : Type 0 where
  create truncate append : WriteMode

-- A plan's `Vec<Request>` is `Actions`, since a request may itself propose a plan.
mutual
  pub data Request : Type 0 where
    ping shutdown profile_list : Request
    profile_show : Text → Request
    profile_validate : Option Text → Request
    profile_policy : Option Text → Request
    profile_create : Profile → Request
    profile_delete : Text → Text → Request
    exec : Text → Text → Option Text → Option ℕ → List EnvVar → Request
    read : Text → Text → Request
    write : Text → Text → WriteMode → Text → Request
    upload : Text → Text → Text → Request
    download : Text → Text → Text → Request
    tunnel_open : Text → ℕ → Text → ℕ → Request
    tunnel_close : Text → Option Text → Request
    session_list : Request
    session_inspect session_close : Text → Request
    approval_list : Request
    approval_show : Text → Request
    approval_approve : Text → Option ℕ → Option Text → Option ℕ → Request
    approval_reject : Text → Request
    approval_cleanup grant_list : Request
    grant_show grant_revoke : Text → Request
    grant_cleanup : Request
    plan_propose : Text → Text → Actions → Request
    plan_list : Request
    plan_show plan_approve plan_reject : Text → Request

  pub data Actions : Type 0 where
    done : Actions
    action : Request → Actions → Actions

unfoldable pub actions_list : Actions → List Request
actions_list done = []
actions_list (action r rest) = r ∷ actions_list rest

pub record ErrorPayload : Type 0 where
  pub code : Text
  pub message : Text

-- `exit_code` is an `i32`, a sign and a number.
pub record CommandResult : Type 0 where
  pub ok : Bool
  pub exit_code : Option (Bool × ℕ)
  pub stdout : Text
  pub stderr : Text
  pub duration_ms : Option ℕ
  pub session_id : Option Text
  pub error : Option ErrorPayload
  -- the field `data`
  pub payload : Option Value

-- `CommandResult::success`
abbrev pub success : CommandResult
success = record {
  ok = true;
  exit_code = none;
  stdout = [];
  stderr = [];
  duration_ms = none;
  session_id = none;
  error = none;
  payload = none;
}

-- `with_data` of a success
abbrev pub with_data : Value → CommandResult
with_data v = record success { payload = some v }
