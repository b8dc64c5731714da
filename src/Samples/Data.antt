-- ===== src/Samples/Data.antt =====
-- A configuration with one profile, and an external codec that handles one kind of request.
use ssh_gateway.Prelude.{Text, str, true, false, none, some, [], ◌∷◌, ◌≡◌, arith}
use ssh_gateway.Errors.{Result, ok, err, io}
use ssh_gateway.Config.{
  AppConfig, Profile, HostEndpoint, AgentPolicyConfig, PolicyRuleConfig, PolicyEffectConfig,
  default_policy, default_approval, self_hosted, strict,
}
use ssh_gateway.Protocol.{Request, agent_cli}
use ssh_gateway.Externals.{Externals, Files}
use ssh_gateway.Approval.Service.{ApprovalService, Proposal}

abbrev pub deny_rm : PolicyRuleConfig
deny_rm = record {
  id = str "no-rm";
  matcher = record { operation = str "exec"; commands = str "rm *" ∷ []; paths = [] };
  effect = PolicyEffectConfig.deny;
  risk = none;
  reason = none;
}

abbrev pub allow_reads : PolicyRuleConfig
allow_reads = record {
  id = str "logs";
  matcher = record { operation = str "read"; commands = []; paths = str "/var/log/*" ∷ [] };
  effect = PolicyEffectConfig.allow;
  risk = none;
  reason = none;
}

abbrev pub log_policy : AgentPolicyConfig
log_policy = record default_policy {
  allowed_read_paths = str "/var/log" ∷ [];
  rules = deny_rm ∷ allow_reads ∷ [];
}

abbrev pub web_host : HostEndpoint
web_host = record {
  host = str "web";
  user = str "ops";
  port = 22;
  auth = none;
  host_key_sha256 = none;
}

abbrev pub web : Profile
web = record {
  name = str "web";
  description = none;
  via_profile = none;
  target = web_host;
  bastions = [];
  auth = none;
  remote = record { shell = str "bash -lc" };
  agent = record { manage = true; remote_path = str "/tmp/sshmcpd"; version = str "1" };
  bootstrap = record { enabled = true; remote_temp_dir = str "/tmp" };
  timeouts = record { exec_seconds = 600; idle_session_seconds = 900 };
  keepalive = record { interval_seconds = 30; count_max = 3 };
  agent_policy = log_policy;
}

abbrev pub one_profile : AppConfig
one_profile = record {
  profiles = web ∷ [];
  mcp = record {
    listen = str "127.0.0.1:8765";
    auth = record {
      kind = str "bearer";
      token_env = str "TOKEN";
      resource = none;
      issuer = none;
      jwks_url = none;
      scopes = [];
      audience_claim = str "aud";
    };
    tenants = [];
    allowed_origins = [];
    local_file_root = none;
    task_id_env = none;
    profile_management = record { enabled = false };
  };
  approval = default_approval;
  runtime = record { mode = self_hosted; host_key_mode = strict };
  source_path = [];
  source_hash = [];
  authorization_namespace = none;
}

abbrev pub read_log : Request
read_log = Request.read (str "web") (str "/var/log/../log/a")

-- A codec for reads on profiles with a name of one byte; no other request can be encoded.
abbrev pub encode_read : Request → Result Text
encode_read (Request.read (c ∷ []) path) = ok (c ∷ path)
encode_read _ = err (io [])

abbrev pub decode_read : Text → Result Request
decode_read [] = err (io [])
decode_read (c ∷ path) = ok (Request.read (c ∷ []) path)

abbrev pub reads_only : Externals
reads_only = record {
  encode = encode_read;
  decode = decode_read;
  sha256 = λ bytes. bytes;
  constraint_failed = [];
  no_rows = [];
}

pub reads_only_decodes :
    (r : Request) (t : Text) → reads_only.encode r ≡ ok t → reads_only.decode t ≡ ok r
reads_only_decodes (Request.read [] path) t h = cc
reads_only_decodes (Request.read (c ∷ []) path) [] h = cc
reads_only_decodes (Request.read (c ∷ []) path) (d ∷ t) h = ground arith
reads_only_decodes (Request.read (c ∷ d ∷ name) path) t h = cc
reads_only_decodes _ t h = cc

abbrev pub no_files : Files
no_files path = err (io [])

abbrev pub tenant : ApprovalService
tenant = record { ttl_seconds = 300; namespace = some (str "tenant-a") }

abbrev pub read_b : Proposal
read_b = record {
  request = Request.read (b'w' ∷ []) (str "/etc/motd");
  caller = agent_cli;
  rule_id = some (str "logs");
  reason = none;
  risk = none;
  summary = str "read /etc/motd";
  task_id = none;
}
