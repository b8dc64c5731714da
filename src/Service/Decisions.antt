-- ===== src/Service/Decisions.antt =====
-- src/service.rs, `resolve_operation` and `execute_enveloped`: whether a request runs at once, as an
-- action of a plan, by a grant, or waits for an approval.
pub mod Worlds
pub mod Authorized
use ssh_gateway.Prelude.{
  ℕ, Text, str, text_eq, Bool, true, false, not, Option, none, some, List, [], ◌∷◌, ◌++◌, ◌&&◌,
  ◌||◌, if◌then◌else◌, find?, is_none, unwrap_or_default,
}
use ssh_gateway.Errors.{ArrtError, Result, ok, err, policy_denied, approval}
use ssh_gateway.Json.{Value, null, object, Fields, close, field, json, string, number, or_null}
use ssh_gateway.Config.{AppConfig}
use ssh_gateway.Protocol.{CallerType, enforces_agent_policy, Request, CommandResult, with_data}
use ssh_gateway.Externals.{Externals, Files}
use ssh_gateway.Policy.Engine
use ssh_gateway.Policy.Engine.{PolicyEffect, PolicyDecision}
use ssh_gateway.Approval.Rows.{ApprovalRow}
use ssh_gateway.Approval.Service.{ApprovalService, Proposal, create}
use ssh_gateway.Grant.Rows.{GrantRow, Grants, GrantStatus}
use ssh_gateway.Grant.Service.{GrantService, consume, expire_grants}
use ssh_gateway.Grant.Plans.{
  Plans, PlanCodec, PlanAuthorization, PlanStatus, claim_plan_action, finish_plan_action,
}
use ssh_gateway.Resolution.Auth.{Platform}
use ssh_gateway.Service.Action.{Action, ◌>>=◌, ◌>>◌, pure, fail, lift, attempt, gets, modify}
use ssh_gateway.Service.World.{World, Operations, Readings}
use ssh_gateway.Service.Operations.{execute_authorized}

-- The database and the world.
pub record Gateway (H : Type 0) : Type 0 where
  pub approvals : List ApprovalRow
  pub grants : Grants
  pub plans : Plans
  pub world : World H

-- The readings of the clock in the order in which they come, and the id of a new approval.
pub record Moments : Type 0 where
  pub running : Readings
  pub plan_expiry : ℕ
  pub plan_choice : ℕ
  pub plan_lease : ℕ
  pub grant_expiry : ℕ
  pub grant_choice : ℕ
  pub grant_attempts : ℕ → ℕ
  pub grant_shown : ℕ
  pub created : ℕ
  pub new_id : Text

-- `ApprovalService::from_config`; opening the database is left out.
unfoldable pub open_approvals : AppConfig → Result ApprovalService
open_approvals config =
    if not config.approval.enabled
    then err (approval (str "approval service is disabled"))
    else if not (text_eq config.approval.storage.kind (str "sqlite"))
    then err (approval (str "unsupported approval storage type: " ++ config.approval.storage.kind))
    else ok (record {
      ttl_seconds = config.approval.ttl_seconds;
      namespace = config.authorization_namespace;
    })

-- `GrantService::from_config`
unfoldable pub open_grants : AppConfig → Result GrantService
open_grants config =
    if config.approval.enabled
    then ok (record { config = config.approval.grants; namespace = config.authorization_namespace })
    else err (approval (str "approval service is disabled"))

-- service.rs's own `request_profile`
unfoldable pub request_profile : Request → Option Text
request_profile (Request.exec profile command cwd timeout env) = some profile
request_profile (Request.read profile path) = some profile
request_profile (Request.write profile path mode content) = some profile
request_profile (Request.upload profile src dst) = some profile
request_profile (Request.download profile src dst) = some profile
request_profile (Request.tunnel_open profile local_port remote_host remote_port) = some profile
request_profile (Request.profile_delete profile hash) = some profile
request_profile (Request.profile_create p) = some p.name
request_profile (Request.profile_policy (some profile)) = some profile
request_profile _ = none

abbrev pub is_allow : PolicyEffect → Bool
is_allow PolicyEffect.allow = true
is_allow _ = false

abbrev pub is_deny : PolicyEffect → Bool
is_deny PolicyEffect.deny = true
is_deny _ = false

abbrev pub reason_or : Option Text → Text → Text
reason_or none m = m
reason_or (some reason) m = reason

abbrev pub succeeded : Result CommandResult → Bool
succeeded (err e) = false
succeeded (ok r) = r.ok

-- `object.insert(name, v)`
unfoldable pub set_field : Text → Value → Fields → Fields
set_field name v close = field name v close
set_field name v (field other w rest) =
    let kept = set_field name v rest in
    if text_eq other name then field name v rest else field other w kept

unfoldable pub authorize_data : Value → Option Value → Option Value
unfolding set_field
authorize_data v none = some (json ((str "authorization", v) ∷ []))
authorize_data v (some (object fields)) = some (object (set_field (str "authorization") v fields))
authorize_data v (some other) = some other

-- The result says which grant let it run.
by_grant : Text → CommandResult → CommandResult
unfolding authorize_data
by_grant id r = record r {
  payload =
      authorize_data (json ((str "type", string (str "grant")) ∷ (str "grant_id", string id) ∷ []))
        r.payload;
}

or_not_found : Option GrantRow → Result GrantRow
or_not_found none = err (approval (str "grant not found"))
or_not_found (some r) = ok r

-- What `ApprovalService::create` returns.
created_json : ApprovalRow → Value
created_json r = json (
    (str "id", string r.id)
    ∷ (str "profile", string r.profile)
    ∷ (str "operation", string r.operation)
    ∷ (str "summary", string r.summary)
    ∷ (str "risk", or_null r.risk)
    ∷ (str "expires_at", number r.expires_at)
    ∷ (str "rule_id", or_null r.rule_id)
    ∷ (str "task_id", or_null r.task_id)
    ∷ [])

-- The answer to a request that needs a confirmation.
confirmation : ApprovalRow → CommandResult
unfolding created_json
confirmation r = with_data (
    json (
      (str "status", string (str "confirmation_required")) ∷ (str "approval", created_json r) ∷ []))

-- A request that runs at once: it is allowed, and no plan could cover it.
abbrev pub runs_at_once : AppConfig → CallerType → Option Text → PolicyDecision → Bool
runs_at_once config caller task d =
    is_allow d.effect
    && (not (enforces_agent_policy caller) || (is_none task || not config.approval.enabled))

unfoldable pub on_world : {H A : Type 0} → Action (World H) A → Action (Gateway H) A
on_world m g = ((m g.world).0, record g { world = (m g.world).1 })

show_grant : {H : Type 0} → Text → ℕ → Action (Gateway H) GrantRow
unfolding or_not_found
show_grant id now g = (
  or_not_found (find? (λ r. text_eq r.id id) (expire_grants now g.grants)),
  record g { grants = expire_grants now g.grants },
)

-- What the result says of a grant, which must still be there.
mark : {H : Type 0} → Option Text → ℕ → CommandResult → Action (Gateway H) CommandResult
unfolding show_grant by_grant
mark none now r = pure r
mark (some id) now r = show_grant id now >>= λ _. pure (by_grant id r)

use_grant :
    {H : Type 0}
    → GrantService
    → Text
    → Text
    → Option Text
    → Moments
    → Action (Gateway H) (Option Text)
use_grant self profile rule task at g =
    let (id, rows) =
      consume self profile rule task at.grant_expiry at.grant_choice at.grant_attempts g.grants in
    (ok id, record g { grants = rows })

module _ {H : Type 0} (env : Platform) (ops : Operations H) (x : Externals) (y : PlanCodec) where
  finish_plan : Option PlanAuthorization → Bool → Action (Gateway H) (Unit {0})
  finish_plan none success g = (ok tt, g)
  finish_plan (some auth) success g =
      let (r, rows) = finish_plan_action x y auth success g.plans in
      (lift r >>= λ _. pure tt) (record g { plans = rows })

  pub execute_enveloped :
      AppConfig
      → CallerType
      → Text
      → Moments
      → Option PlanAuthorization
      → Option Text
      → Request
      → Action (Gateway H) CommandResult
  unfolding on_world finish_plan mark
  execute_enveloped config caller namespace at plan grant request =
      attempt (on_world (execute_authorized env ops config caller namespace at.running request))
      >>= λ result.
          finish_plan plan (succeeded result) >> (lift result >>= λ r. mark grant at.grant_shown r)

  claim_plan :
      GrantService
      → Files
      → CallerType
      → Text
      → Option Text
      → Request
      → Moments
      → Action (Gateway H) (Option PlanAuthorization)
  claim_plan self files caller profile task request at g =
      let (r, rows) =
        claim_plan_action x y self files profile task request at.plan_expiry at.plan_choice
          at.plan_lease g.plans in
      if enforces_agent_policy caller then (r, record g { plans = rows }) else (ok none, g)

  -- A new approval.
  ask :
      AppConfig
      → Files
      → CallerType
      → Option Text
      → Request
      → PolicyDecision
      → Moments
      → ApprovalService
      → Action (Gateway H) CommandResult
  unfolding confirmation
  ask config files caller task request d at self g =
      let (r, rows) =
        create x files self
          (record {
            request = request;
            caller = caller;
            rule_id = d.rule_id;
            reason = d.reason;
            risk = d.risk;
            summary = ops.summary config request;
            task_id = task;
          })
          at.created at.new_id g.approvals in
      (lift r >>= λ row. pure (confirmation row)) (record g { approvals = rows })

  unfoldable pub ask_approval :
      AppConfig
      → Files
      → CallerType
      → Option Text
      → Request
      → PolicyDecision
      → Moments
      → Action (Gateway H) CommandResult
  unfolding ask
  ask_approval config files caller task request d at =
      lift (open_approvals config) >>= ask config files caller task request d at

  module _ (config : AppConfig) (caller : CallerType) (namespace : Text) (files : Files)
      (task : Option Text) (request : Request) (at : Moments) where
    run_at_once : Action (Gateway H) CommandResult
    unfolding on_world
    run_at_once = on_world (execute_authorized env ops config caller namespace at.running request)

    after_grant : PolicyDecision → Option Text → Action (Gateway H) CommandResult
    unfolding execute_enveloped ask_approval
    after_grant d (some id) = execute_enveloped config caller namespace at none (some id) request
    after_grant d none = ask_approval config files caller task request d at

    confirm_by : GrantService → PolicyDecision → Option Text → Action (Gateway H) CommandResult
    unfolding use_grant after_grant
    confirm_by self d none = fail (policy_denied (str "confirm decision has no rule id"))
    confirm_by self d (some rule) =
        use_grant self (unwrap_or_default (request_profile request)) rule task at >>= after_grant d

    after_plan :
        GrantService → PolicyDecision → Option PlanAuthorization → Action (Gateway H) CommandResult
    unfolding execute_enveloped run_at_once confirm_by
    after_plan self d (some plan) =
        execute_enveloped config caller namespace at (some plan) none request
    after_plan self d none = if is_allow d.effect then run_at_once else confirm_by self d d.rule_id

    by_decision : PolicyDecision → Action (Gateway H) CommandResult
    unfolding run_at_once claim_plan after_plan
    by_decision d =
        if is_deny d.effect
        then fail (policy_denied (reason_or d.reason (str "policy rule denied operation")))
        else if runs_at_once config caller task d
        then run_at_once
        else lift (open_grants config) >>= λ self.
            claim_plan self files caller (unwrap_or_default (request_profile request)) task request
              at
            >>= after_plan self d

    unfoldable pub resolve_operation : Action (Gateway H) CommandResult
    unfolding by_decision
    resolve_operation = lift (Engine.authorize config caller request) >>= by_decision
