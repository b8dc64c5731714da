-- ===== src/Service/Approve.antt =====
-- src/service.rs, `execute_authorization_admin` on `ApprovalApprove`: a human approves, and the
-- request is carried out at once.
pub mod Worlds
pub mod Sound
pub mod Finished
use ssh_gateway.Prelude.{
  ℕ, Text, str, text_eq, Bool, true, false, not, Option, none, some, is_some, List, [], ◌∷◌, ◌++◌,
  ◌&&◌, ◌||◌, if◌then◌else◌, find?,
}
use ssh_gateway.Errors.{ArrtError, Result, ok, err, approval, policy_denied, display}
use ssh_gateway.Json.{Value, json, string}
use ssh_gateway.Config.{AppConfig, Profile}
use ssh_gateway.Protocol.{Request, CommandResult, with_data}
use ssh_gateway.Externals.{Externals, Files, request_hash}
use ssh_gateway.Policy.Engine
use ssh_gateway.Policy.Engine.{PolicyEffect, PolicyDecision}
use ssh_gateway.Approval.Rows.{ApprovalRow}
use ssh_gateway.Approval.Service
use ssh_gateway.Approval.Service.{ApprovalService, ApprovalClaim, expire, claim, Table}
use ssh_gateway.Grant.Rows.{GrantRow}
use ssh_gateway.Grant.Service.{
  GrantService, Grant, Required, validate_grant_source, create_from_status,
}
use ssh_gateway.Redaction.{SecretRedactor, from_config, from_config_and_profile}
use ssh_gateway.Resolution.Auth.{Platform, CredentialStore}
use ssh_gateway.Resolution.Files.{Formats, Disk, reload_if_file_backed}
use ssh_gateway.Service.Action.{Action, ◌>>=◌, ◌>>◌, pure, fail, lift, attempt, gets}
use ssh_gateway.Service.World.{World, Operations, Readings}
use ssh_gateway.Service.Operations.{execute_authorized}
use ssh_gateway.Service.Decisions.{
  Gateway, on_world, open_approvals, open_grants, is_deny, reason_or,
}
use ssh_gateway.Service.Management.{execute_profile_mutation}
use ssh_gateway.Service.Results.{error_result, redact_result}

-- The arguments of `ApprovalApprove`.
pub record Approve : Type 0 where
  pub approval_id : Text
  pub grant_ttl_seconds : Option ℕ
  pub grant_task_id : Option Text
  pub max_uses : Option ℕ

-- The readings of the clock, of local files and of the disk, in the order in which they come, and
-- the id of a new grant.
pub record Course : Type 0 where
  pub first_look : ℕ
  pub claim_expiry : ℕ
  pub claim_choice : ℕ
  pub claim_files : Files
  pub files : Files
  pub disk : Disk
  pub disk_after : Disk
  pub granted : ℕ
  pub new_grant_id : Text
  pub look_before : ℕ
  pub running : Readings
  pub look_after : ℕ
  -- the value of the environment variable of the MCP token
  pub token : Option Text

-- `serde_json` on results.
pub record ResultCodec : Type 0 where
  pub encode_result : CommandResult → Result Text
  pub result_json : CommandResult → Value

abbrev pub asks_grant : Approve → Bool
asks_grant a = is_some a.grant_ttl_seconds || (is_some a.grant_task_id || is_some a.max_uses)

abbrev pub ttl_or_default : Option ℕ → ℕ
ttl_or_default none = 1200
ttl_or_default (some ttl) = ttl

abbrev pub grant_of : Approve → Grant
grant_of a = record {
  approval_id = a.approval_id;
  ttl = ttl_or_default a.grant_ttl_seconds;
  task_id = a.grant_task_id;
  max_uses = a.max_uses;
}

-- The operation's name in the table.
abbrev pub names_management : ApprovalRow → Bool
names_management r =
    text_eq r.operation (str "profile_create") || text_eq r.operation (str "profile_delete")

abbrev pub is_management : Request → Bool
is_management (Request.profile_create p) = true
is_management (Request.profile_delete name hash) = true
is_management _ = false

abbrev pub is_confirm : PolicyEffect → Bool
is_confirm PolicyEffect.confirm = true
is_confirm _ = false

-- The JSON library's message.
message : ArrtError → Text
message (approval m) = m
message e = display e

decoded_row : ApprovalRow → Result Request → Result ApprovalRow
unfolding message
decoded_row r (err e) = err (approval (str "decode stored request: " ++ message e))
decoded_row r (ok request) = ok r

shown_row : Externals → Text → Option ApprovalRow → Result ApprovalRow
unfolding decoded_row
shown_row x id none = err (approval (str "approval not found: " ++ id))
shown_row x id (some r) = decoded_row r (x.decode r.request_payload)

same_hash : Result Text → Text → Bool
same_hash (err e) hash = false
same_hash (ok actual) hash = text_eq actual hash

result_or : (ArrtError → CommandResult) → Result CommandResult → CommandResult
result_or f (err e) = f e
result_or f (ok r) = r

unfoldable pub namespace_or : Option Text → Text → Text
namespace_or none default = default
namespace_or (some ns) default = ns

module _ {H : Type 0} (x : Externals) (codec : ResultCodec) where
  on_approvals : (Table → Table) → Action (Gateway H) (Unit {0})
  on_approvals f g = (ok tt, record g { approvals = f g.approvals })

  -- `ApprovalService::show`
  unfoldable pub show_row : Text → ℕ → Action (Gateway H) ApprovalRow
  unfolding shown_row
  show_row id now g = (
    shown_row x id (find? (λ (r : ApprovalRow). text_eq r.id id) (expire now g.approvals)),
    record g { approvals = expire now g.approvals },
  )

  -- `ApprovalService::finish` on a result
  unfoldable pub finish_with : Text → CommandResult → Action (Gateway H) (Unit {0})
  unfolding on_approvals
  finish_with id r =
      lift (codec.encode_result r) >>= λ payload. on_approvals (Service.finish id r.ok payload)

  unfoldable pub claim_approval : ApprovalService → Text → Course → Action (Gateway H) ApprovalClaim
  claim_approval self id at g =
      let (r, rows) = claim x at.claim_files self id at.claim_expiry at.claim_choice g.approvals in
      (r, record g { approvals = rows })

  unfoldable pub fail_with : ApprovalClaim → ArrtError → Action (Gateway H) CommandResult
  fail_with c e = finish_with c.id (error_result e c.request) >> pure (error_result e c.request)

  -- The grant that goes with the approval, if one is asked for: checked before the claim.
  unfoldable pub check_grant : AppConfig → Approve → Action (Gateway H) (Option GrantService)
  check_grant config a =
      if not (asks_grant a)
      then pure none
      else lift (open_grants config) >>= λ self.
          gets (λ g. validate_grant_source self (grant_of a) Required.pending none g.approvals)
          >>= λ checked. lift checked >>= λ source. pure (some self)

  -- It is created where the policy still asks for a confirmation.
  create_for : GrantService → Approve → Course → Option Text → Action (Gateway H) GrantRow
  create_for self a at none g = (err (approval (str "confirm decision has no rule id")), g)
  create_for self a at (some rule) g =
      let (r, rows) =
        create_from_status x self (grant_of a) Required.executing (some rule) at.granted
          at.new_grant_id g.approvals g.grants in
      (r, record g { grants = rows })

  unfoldable pub grant_step :
      Option GrantService
      → Approve
      → Course
      → PolicyDecision
      → Action (Gateway H) (Result (Unit {0}))
  unfolding create_for
  grant_step none a at d = pure (ok tt)
  grant_step (some self) a at d =
      if is_confirm d.effect
      then attempt (create_for self a at d.rule_id >>= λ r. pure tt)
      else pure (ok tt)

  -- The result is redacted and stored, and told.
  unfoldable pub conclude :
      ApprovalClaim → Course → SecretRedactor → CommandResult → Action (Gateway H) CommandResult
  unfolding show_row finish_with
  conclude c at redactor result =
      let shown = redact_result redactor result in
      finish_with c.id shown
      >> (show_row c.id at.look_after >>= λ r. pure (
          with_data (
            json (
              (str "status", string (if shown.ok then str "executed" else str "failed"))
              ∷ (str "approval_id", string c.id)
              ∷ (str "result", codec.result_json shown)
              ∷ []))))

module _ {H : Type 0} (env : Platform) (ops : Operations H) (x : Externals) (codec : ResultCodec)
    (formats : Formats) (credentials : CredentialStore) where
  abbrev pub Approved : Type 0
  Approved = Result CommandResult × Gateway H × Option Text

  abbrev no_write : Action (Gateway H) CommandResult → Gateway H → Approved
  no_write m g = ((m g).0, (m g).1, none)

  -- The configuration for the redaction of a change of the configuration.
  abbrev current_or : AppConfig → Result AppConfig → AppConfig
  current_or config (err e) = config
  current_or config (ok current) = current

  mutation_redactor : AppConfig → Course → Request → SecretRedactor
  mutation_redactor config at (Request.profile_create p) =
      from_config_and_profile env credentials
        (current_or config (reload_if_file_backed env formats config at.disk_after)) at.token p
  mutation_redactor config at request =
      from_config env credentials
        (current_or config (reload_if_file_backed env formats config at.disk_after)) at.token

  -- The change of the configuration, behind a look at the approval for the log.
  manage : AppConfig → Course → ApprovalClaim → Gateway H → Result ApprovalRow → Approved
  unfolding mutation_redactor result_or
  manage config at c g (err e) = (err e, g, none)
  manage config at c g (ok r) =
      let (result, text) =
        execute_profile_mutation env formats config g.world.sessions c.request at.disk in
      let done = result_or (λ e. error_result e c.request) result in
      let (told, h) = conclude x codec c at (mutation_redactor config at c.request) done g in
      (told, h, text)

  unfoldable pub manage_claimed : AppConfig → Course → ApprovalClaim → Gateway H → Approved
  unfolding manage
  manage_claimed config at c g =
      let (r, h) = show_row x codec c.id at.look_before g in manage config at c h r

  -- The request itself, in the namespace that it was made in.
  unfoldable pub run_claimed :
      AppConfig → Text → Course → ApprovalClaim → Action (Gateway H) CommandResult
  unfolding result_or
  run_claimed current namespace at c = show_row x codec c.id at.look_before >>= λ r.
      attempt (
        on_world (
          execute_authorized env ops current c.caller
            (namespace_or c.authorization_namespace namespace) at.running c.request))
      >>= λ result.
          conclude x codec c at (from_config env credentials current at.token)
            (result_or (λ e. error_result e c.request) result)

  after_grant :
      AppConfig
      → Text
      → Course
      → ApprovalClaim
      → Result (Unit {0})
      → Action (Gateway H) CommandResult
  unfolding run_claimed
  after_grant current namespace at c (err e) = fail_with x codec c e
  after_grant current namespace at c (ok u) = run_claimed current namespace at c

  -- The policy is asked again.
  unfoldable pub by_policy :
      AppConfig
      → Text
      → Approve
      → Course
      → Option GrantService
      → ApprovalClaim
      → Result PolicyDecision
      → Action (Gateway H) CommandResult
  unfolding after_grant
  by_policy current namespace a at grants c (err e) = fail_with x codec c e
  by_policy current namespace a at grants c (ok d) =
      if is_deny d.effect
      then fail_with x codec c
          (policy_denied (reason_or d.reason (str "policy now denies operation")))
      else grant_step x codec grants a at d >>= after_grant current namespace at c

  unfoldable pub execute_claimed :
      AppConfig
      → Text
      → Approve
      → Course
      → Option GrantService
      → ApprovalClaim
      → Action (Gateway H) CommandResult
  unfolding by_policy
  execute_claimed config namespace a at grants c =
      lift (reload_if_file_backed env formats config at.disk) >>= λ current.
      by_policy current namespace a at grants c (Engine.authorize current c.caller c.request)

  unfoldable pub after_claim :
      AppConfig
      → Text
      → Approve
      → Course
      → Option GrantService
      → Gateway H
      → Result ApprovalClaim
      → Approved
  unfolding execute_claimed manage_claimed same_hash
  after_claim config namespace a at grants g (err e) = (err e, g, none)
  after_claim config namespace a at grants g (ok c) =
      if not (same_hash (request_hash x at.files c.request) c.request_hash)
      then no_write (fail_with x codec c (approval (str "request changed after approval creation")))
          g
      else if is_management c.request
      then manage_claimed config at c g
      else no_write (execute_claimed config namespace a at grants c) g

  -- What precedes the claim.
  unfoldable pub before_claim :
      AppConfig → Approve → Course → ApprovalService → Action (Gateway H) (Option GrantService)
  before_claim config a at self = show_row x codec a.approval_id at.first_look >>= λ r.
      if names_management r && asks_grant a
      then fail (policy_denied (str "profile management approvals cannot create grants"))
      else check_grant x codec config a

  claim_with :
      AppConfig
      → Text
      → Approve
      → Course
      → ApprovalService
      → Gateway H
      → Result (Option GrantService)
      → Approved
  unfolding after_claim
  claim_with config namespace a at self g (err e) = (err e, g, none)
  claim_with config namespace a at self g (ok grants) =
      let (c, h) = claim_approval x codec self a.approval_id at g in
      after_claim config namespace a at grants h c

  opened : AppConfig → Text → Approve → Course → Gateway H → Result ApprovalService → Approved
  unfolding claim_with before_claim
  opened config namespace a at g (err e) = (err e, g, none)
  opened config namespace a at g (ok self) =
      let (grants, h) = before_claim config a at self g in
      claim_with config namespace a at self h grants

  unfoldable pub approve : AppConfig → Text → Approve → Course → Gateway H → Approved
  unfolding opened
  approve config namespace a at g = opened config namespace a at g (open_approvals config)
