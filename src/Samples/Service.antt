-- ===== src/Samples/Service.antt =====
-- Requests to a gateway with no session, whose hosts answer everything.
use ssh_gateway.Prelude.{str, text_eq, option_eq, true, false, some, [], ◌≡◌, refl, inr}
use ssh_gateway.Errors.{ok}
use ssh_gateway.Json.{null}
use ssh_gateway.Config
use ssh_gateway.Config.{AppConfig}
use ssh_gateway.Protocol.{agent_cli, mcp, Request, success}
use ssh_gateway.Resolution.Auth.{
  resolve_auth, infer_kind, by_kind, password_auth, resolve_endpoint, as_delegated,
  validate_endpoint,
}
use ssh_gateway.Resolution.Profiles.{
  resolved_profile, resolve_profile_with, resolve_profile, transport, direct_transport, check_via,
  via_transport, validate_common,
}
use ssh_gateway.Resolution.Validation.{
  validate, validate_with_credentials, check_general, check_names, check_resolves, check_approval,
  validate_mcp, is_cloud,
}
use ssh_gateway.Resolution.Files.{
  Formats, Disk, parse_config, load_from_path, reload_if_file_backed, profile_fingerprint,
  require_mutable_yaml, file_hash, write_yaml_atomic,
}
use ssh_gateway.Session.Views.{has_any_profile_session}
use ssh_gateway.Service.Action.{pure}
use ssh_gateway.Service.World.{Operations}
use ssh_gateway.Service.Decisions.{Gateway, Moments, resolve_operation}
use ssh_gateway.Service.Decisions.Authorized.{Justified, resolve_operation-Justified}
use ssh_gateway.Service.Management.{
  ensure_profile_deletable, require_unused, candidate, commit, prepare, readied,
  execute_profile_mutation, execute_mcp_profile_management, removed,
}
use ssh_gateway.Service.Management.Committed.{
  Change, execute_profile_mutation-Change, execute_mcp_profile_management-Change,
}
use ssh_gateway.Service.Management.Deletion.{removed-stays_valid}
use ssh_gateway.Samples.Data.{one_profile, read_log, reads_only, no_files}
use ssh_gateway.Samples.Grants.{reads}
use ssh_gateway.Samples.Configured.{plain, three_profiles}

abbrev pub Hosts : Type 0
Hosts = Unit {0}

abbrev pub answering : Operations Hosts
answering = record {
  prepare_exec = λ config namespace profile command cwd timeout vars. pure (str "s1");
  execute_prepared_exec = λ id request. pure success;
  read = λ config namespace profile path roots. pure success;
  write = λ config namespace profile path mode content roots. pure success;
  upload = λ config namespace profile src dst roots. pure success;
  download = λ config namespace profile src dst roots. pure success;
  tunnel_open = λ config namespace profile local_port remote_host remote_port. pure success;
  profile_summary = λ config name. ok null;
  policy_json = λ policy. null;
  summary = λ config request. str "read";
  version = str "1";
}

abbrev at : Moments
at = record {
  running = record { looks = λ id. 100; now = 100 };
  plan_expiry = 100;
  plan_choice = 100;
  plan_lease = 100;
  grant_expiry = 100;
  grant_choice = 100;
  grant_attempts = λ i. 100;
  grant_shown = 100;
  created = 100;
  new_id = str "a1";
}

abbrev pub idle : Gateway Hosts
idle = record {
  approvals = [];
  grants = [];
  plans = [];
  world = record {
    sessions = record { sessions = []; profile_index = []; tunnels = [] };
    hosts = tt;
  };
}

resolve_operation-Justified_example :
    Justified plain answering reads_only reads one_profile agent_cli
      (str "n")
      no_files
      (some (str "t"))
      read_log
      at
      idle
      (resolve_operation plain answering reads_only reads one_profile agent_cli
        (str "n")
        no_files
        (some (str "t"))
        read_log
        at)
      idle
resolve_operation-Justified_example =
    resolve_operation-Justified plain answering reads_only reads one_profile agent_cli (str "n")
      no_files (some (str "t")) read_log at idle

abbrev pub names_only : Formats
names_only = record {
  from_yaml = λ raw. inr three_profiles;
  from_toml = λ raw. inr three_profiles;
  to_yaml = λ config. inr (str "v2");
  profile_to_json = λ p. inr p.name;
  sha256 = λ bytes. bytes;
  extension = λ path. some (str "YAML");
  is_symlink = λ path. false;
}

abbrev pub quiet : Disk
quiet = record {
  loaded = inr (str "v1");
  hashed = ok (str "v1");
  current = ok (str "v1");
  prepared = ok tt;
  latest = ok (str "v1");
  renamed = ok tt;
  synced = ok tt;
}

three_valid : validate plain three_profiles ≡ ok tt
unfolding validate validate_with_credentials check_general check_names check_resolves check_approval
    validate_mcp resolved_profile resolve_profile_with resolve_profile transport direct_transport
    check_via via_transport validate_common validate_endpoint resolve_endpoint as_delegated
    resolve_auth infer_kind by_kind password_auth Config.profile text_eq str
three_valid = refl

spare_deletable : ensure_profile_deletable three_profiles (str "spare") ≡ ok tt
unfolding ensure_profile_deletable Config.profile option_eq text_eq str
spare_deletable = refl

removed-stays_valid_example : validate plain (removed (str "spare") three_profiles) ≡ ok tt
removed-stays_valid_example =
    removed-stays_valid plain (str "spare") three_profiles three_valid spare_deletable

spare_deleted :
    (execute_profile_mutation plain names_only three_profiles idle.world.sessions
      (Request.profile_delete (str "spare") (str "spare"))
      quiet).1
    ≡ some (str "v2")
unfolding execute_profile_mutation prepare candidate commit ensure_profile_deletable require_unused
    has_any_profile_session parse_config load_from_path reload_if_file_backed profile_fingerprint
    require_mutable_yaml file_hash write_yaml_atomic validate validate_with_credentials
    check_general check_names check_resolves check_approval validate_mcp resolved_profile
    resolve_profile_with resolve_profile transport direct_transport check_via via_transport
    validate_common validate_endpoint resolve_endpoint as_delegated resolve_auth infer_kind by_kind
    password_auth Config.profile option_eq text_eq str
spare_deleted = refl

execute_profile_mutation-Change_example :
    Change plain names_only three_profiles idle.world.sessions
      (Request.profile_delete (str "spare") (str "spare"))
      quiet
      (str "v2")
execute_profile_mutation-Change_example =
    execute_profile_mutation-Change plain names_only three_profiles idle.world.sessions
      (Request.profile_delete (str "spare") (str "spare")) quiet (str "v2") spare_deleted

spare_deleted_by_mcp :
    (execute_mcp_profile_management plain answering reads_only reads names_only three_profiles mcp
      (Request.profile_delete (str "spare") [])
      no_files
      at
      quiet
      idle).2
    ≡ some (str "v2")
unfolding execute_mcp_profile_management readied execute_profile_mutation prepare candidate commit
    ensure_profile_deletable require_unused has_any_profile_session parse_config load_from_path
    reload_if_file_backed profile_fingerprint require_mutable_yaml file_hash write_yaml_atomic
    validate validate_with_credentials check_general check_names check_resolves check_approval
    validate_mcp resolved_profile resolve_profile_with resolve_profile transport direct_transport
    check_via via_transport validate_common validate_endpoint resolve_endpoint as_delegated
    resolve_auth infer_kind by_kind password_auth Config.profile option_eq text_eq str
spare_deleted_by_mcp = refl

execute_mcp_profile_management-Change_example :
    (mcp ≡ mcp)
    × (three_profiles.mcp.profile_management.enabled ≡ true)
    × (is_cloud three_profiles.runtime.mode ≡ false)
    × (r : Request) × (readied plain names_only three_profiles idle.world.sessions
          (Request.profile_delete (str "spare") [])
        ≡ ok r)
    × Change plain names_only three_profiles idle.world.sessions r quiet (str "v2")
execute_mcp_profile_management-Change_example =
    execute_mcp_profile_management-Change plain answering reads_only reads names_only three_profiles
      mcp (Request.profile_delete (str "spare") []) no_files at quiet idle (str "v2")
      spare_deleted_by_mcp
