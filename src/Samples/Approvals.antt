-- ===== src/Samples/Approvals.antt =====
-- An approval of a read, from its creation to its end.
use ssh_gateway.Prelude.{
  str, text_eq, option_eq, none, [], ◌∷◌, ◌≡◌, refl, inl, update, starts_with, map,
}
use ssh_gateway.Errors.{ok, err, config as config_error}
use ssh_gateway.Json.{null, json, string}
use ssh_gateway.Config
use ssh_gateway.Config.{AppConfig, Profile}
use ssh_gateway.Protocol.{Request, CommandResult, with_data, enforces_agent_policy}
use ssh_gateway.Externals.{request_hash, saturating_add}
use ssh_gateway.Policy.Engine
use ssh_gateway.Policy.Wildcard.{wildcard_match, scan}
use ssh_gateway.Policy.Paths.{
  require_path, normalize_remote_path, covers, join, components, split, push_part,
}
use ssh_gateway.Approval.Rows.{
  ApprovalRow, risk_name, Status, parse_caller, caller_name, request_profile, request_name,
}
use ssh_gateway.Approval.Service
use ssh_gateway.Approval.Service.{
  ApprovalService, Proposal, Table, create, claim, commit_claim, selected, expire, insert, new_row,
}
use ssh_gateway.Resolution.Auth.{resolve_auth}
use ssh_gateway.Resolution.Files.{reload_if_file_backed, load_from_path}
use ssh_gateway.Service.Decisions.{Gateway, on_world, open_approvals}
use ssh_gateway.Service.Operations.{execute_authorized, run_request, allowed_remote_paths}
use ssh_gateway.Session.Manager.{reap_idle_sessions_matching}
use ssh_gateway.Service.Results.{redact_result}
use ssh_gateway.Service.Approve.{
  Approve, Course, ResultCodec, approve, show_row, finish_with, check_grant, grant_step, conclude,
  run_claimed, by_policy, execute_claimed, after_claim, before_claim, claim_approval, namespace_or,
}
use ssh_gateway.Service.Approve.Sound.{Outcome, approve-Outcome}
use ssh_gateway.Service.Approve.Finished.{Over, approve-Over}
use ssh_gateway.Samples.Data.{one_profile, web, reads_only, no_files, read_b}
use ssh_gateway.Samples.Configured.{plain}
use ssh_gateway.Samples.Service.{Hosts, answering, idle, names_only, quiet}

abbrev w_config : AppConfig
w_config = record one_profile { profiles = record web { name = b'w' ∷ [] } ∷ [] }

abbrev read_w : Proposal
read_w = record read_b { request = Request.read (b'w' ∷ []) (str "/var/log/a") }

abbrev own : ApprovalService
own = record { ttl_seconds = 300; namespace = none }

abbrev waiting : Gateway Hosts
waiting = record idle { approvals = (create reads_only no_files own read_w 100 (str "a1") []).1 }

abbrev silent : ResultCodec
silent = record { encode_result = λ r. ok []; result_json = λ r. null }

abbrev once : Approve
once = record {
  approval_id = str "a1";
  grant_ttl_seconds = none;
  grant_task_id = none;
  max_uses = none;
}

abbrev course : Course
course = record {
  first_look = 110;
  claim_expiry = 110;
  claim_choice = 110;
  claim_files = no_files;
  files = no_files;
  disk = quiet;
  disk_after = quiet;
  granted = 110;
  new_grant_id = str "g1";
  look_before = 110;
  running = record { looks = λ id. 110; now = 110 };
  look_after = 110;
  token = none;
}

approve-Outcome_example :
    Outcome plain answering reads_only silent names_only
      (resolve_auth plain)
      w_config
      (str "n")
      once
      course
      waiting
      (approve plain answering reads_only silent names_only
        (resolve_auth plain)
        w_config
        (str "n")
        once
        course
        waiting).1.world
      (approve plain answering reads_only silent names_only
        (resolve_auth plain)
        w_config
        (str "n")
        once
        course
        waiting).2
approve-Outcome_example =
    approve-Outcome plain answering reads_only silent names_only (resolve_auth plain) w_config
      (str "n") once course waiting

abbrev told : CommandResult
told = with_data (
    json (
      (str "status", string (str "executed"))
      ∷ (str "approval_id", string (str "a1"))
      ∷ (str "result", null)
      ∷ []))

approved :
    (approve plain answering reads_only silent names_only
      (resolve_auth plain)
      w_config
      (str "n")
      once
      course
      waiting).0
    ≡ ok told
unfolding approve open_approvals before_claim show_row check_grant claim_approval claim commit_claim
    selected expire create new_row insert request_hash saturating_add update caller_name
    parse_caller risk_name request_profile request_name after_claim execute_claimed
    reload_if_file_backed by_policy Engine.authorize Engine.authorize_caller Engine.checked_policy
    Engine.require_capability require_path normalize_remote_path Engine.decide Engine.first_rule
    Engine.rule_matches wildcard_match scan enforces_agent_policy Config.profile grant_step
    run_claimed on_world execute_authorized run_request allowed_remote_paths
    reap_idle_sessions_matching conclude redact_result finish_with Service.finish namespace_or
    starts_with text_eq option_eq str covers join components split push_part
approved = refl

approve-Over_example :
    Over
      (str "a1")
      (approve plain answering reads_only silent names_only
        (resolve_auth plain)
        w_config
        (str "n")
        once
        course
        waiting).1.approvals
approve-Over_example =
    approve-Over plain answering reads_only silent names_only (resolve_auth plain) w_config
      (str "n") once course waiting told approved

-- The configuration cannot be read behind the claim: the answer is the error, and the approval is left
-- executing.
unreadable :
    (let ended =
        approve plain answering reads_only silent names_only
          (resolve_auth plain)
          (record w_config { source_path = str "c.yaml" })
          (str "n")
          once
          (record course { disk = record quiet { loaded = inl (str "gone") } })
          waiting in
      (ended.0 ≡ err (config_error (str "failed to read c.yaml: gone")))
      × (map (λ (r : ApprovalRow). r.status) ended.1.approvals ≡ Status.executing ∷ []))
unfolding approve open_approvals before_claim show_row check_grant claim_approval claim commit_claim
    selected expire create new_row insert request_hash saturating_add update caller_name
    parse_caller risk_name request_profile request_name after_claim execute_claimed
    reload_if_file_backed load_from_path text_eq option_eq str
unreadable = (refl, refl)
