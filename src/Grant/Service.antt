-- ===== src/Grant/Service.antt =====
-- src/grant.rs, `GrantService` on grants. An operation returns its result and the table behind it.
pub mod Trace
pub mod Left
pub mod Uses
pub mod Matches
use ssh_gateway.Prelude.{
  ℕ, suc, Text, str, text_eq, decimal, Bool, true, false, not, Option, none, some, List, [], ◌∷◌,
  ◌++◌, ◌+◌, ◌%◌, ◌^◌, ◌==◌, if◌then◌else◌, count, any, keep, find?, update, leb, ltb, ◌&&◌, ◌||◌,
}
use ssh_gateway.Errors.{Result, ok, err, approval, ◌>>=◌, ◌>>◌}
use ssh_gateway.Config.{GrantConfig, GrantRiskConfig}
use ssh_gateway.Externals.{Externals}
use ssh_gateway.Approval.Rows.{Status, ApprovalRow}
use ssh_gateway.Grant.Rows.{
  GrantStatus, GrantRow, Grants, is_active, is_match, is_usable, use_once, ordered,
}

pub record GrantService : Type 0 where
  pub config : GrantConfig
  pub namespace : Option Text

-- The arguments of a grant's creation.
pub record Grant : Type 0 where
  pub approval_id : Text
  pub ttl : ℕ
  pub task_id : Option Text
  pub max_uses : Option ℕ

unfoldable pub risk_permissions : GrantConfig → Option Text → GrantRiskConfig
risk_permissions config none = config.low
risk_permissions config (some risk) =
    if text_eq risk (str "high")
    then config.high
    else if text_eq risk (str "critical")
    then config.critical
    else if text_eq risk (str "medium")
    then config.medium
    else config.low

-- The states that a grant's creation asks for.
pub data Required : Type 0 where
  pending executing : Required

abbrev pub in_state : Required → Status → Bool
in_state pending Status.pending = true
in_state executing Status.executing = true
in_state _ _ = false

abbrev state_name : Required → Text
state_name pending = str "pending"
state_name executing = str "executing"

abbrev pub require : Bool → Text → Result (Unit {0})
require true m = ok tt
require false m = err (approval m)

abbrev pub or_error {ℓ} : {A : Type ℓ} → Option A → Text → Result A
or_error none m = err (approval m)
or_error (some a) m = ok a

abbrev pub is_expected : Option Text → Text → Bool
is_expected none rule = true
is_expected (some expected) rule = text_eq expected rule

abbrev pub permits : GrantRiskConfig → Option Text → Bool
permits p none = p.time
permits p (some task) = p.task

abbrev refusal : Option Text → Text
refusal none = str "risk policy does not permit time grants"
refusal (some task) = str "risk policy does not permit task grants"

abbrev pub uses_or_default : Option ℕ → ℕ → ℕ
uses_or_default none default = default
uses_or_default (some n) default = n

-- The profile, the rule and the number of uses.
unfoldable pub validate_grant_source :
    GrantService → Grant → Required → Option Text → List ApprovalRow → Result (Text × Text × ℕ)
unfolding risk_permissions
validate_grant_source self g required expected approvals =
    require (not (g.ttl == 0 || ltb self.config.max_ttl_seconds g.ttl)) (
      str "grant TTL must be between 1 and "
      ++ (decimal self.config.max_ttl_seconds ++ str " seconds"))
    >> (or_error (find? (λ (r : ApprovalRow). text_eq r.id g.approval_id) approvals)
          (str "approval not found")
        >>= λ row.
            require (in_state required row.status)
              (str "grant requires an approval in " ++ (state_name required ++ str " state"))
            >> (or_error row.rule_id (str "approval has no matched rule") >>= λ rule.
                require (is_expected expected rule)
                  (str "approval rule no longer matches the policy decision")
                >> (require (permits (risk_permissions self.config row.risk) g.task_id)
                      (refusal g.task_id)
                    >> (require (not (uses_or_default g.max_uses self.config.default_max_uses == 0))
                          (str "max uses must be greater than zero")
                        >> ok (
                          row.profile,
                          rule,
                          uses_or_default g.max_uses self.config.default_max_uses,
                        )))))

abbrev scope_kind : Option Text → Text
scope_kind none = str "time_rule"
scope_kind (some task) = str "task_rule"

-- `now + ttl` on u64
abbrev pub expiry : ℕ → ℕ → ℕ
expiry now ttl = (now + ttl) % 2 ^ 64

unfoldable pub new_grant :
    Externals
    → GrantService
    → Grant
    → Required
    → Option Text
    → ℕ
    → Text
    → List ApprovalRow
    → Result GrantRow
unfolding validate_grant_source
new_grant x self g required expected now id approvals = do
  (profile, rule, uses) ← validate_grant_source self g required expected approvals
  source ← or_error (find? (λ (r : ApprovalRow). text_eq r.id g.approval_id) approvals) x.no_rows
  ok (record {
    id = id;
    profile = profile;
    rule_id = rule;
    task_id = g.task_id;
    scope = scope_kind g.task_id;
    created_at = now;
    expires_at = expiry now g.ttl;
    max_uses = some uses;
    used_count = 0;
    status = GrantStatus.active;
    created_from_approval_id = g.approval_id;
    created_by = str "human_cli";
    authorization_namespace = source.authorization_namespace;
  })

abbrev pub clashes : GrantRow → GrantRow → Bool
clashes r other =
    text_eq other.id r.id || text_eq other.created_from_approval_id r.created_from_approval_id

-- The INSERT: the id is the primary key, and an approval is the source of one grant.
unfoldable pub insert_grant : Externals → Grants → Result GrantRow → Result GrantRow × Grants
insert_grant x rows (err e) = (err e, rows)
insert_grant x rows (ok r) =
    if any (clashes r) rows
    then (err (approval (str "authorization database: " ++ x.constraint_failed)), rows)
    else (ok r, rows ++ r ∷ [])

unfoldable pub create_from_status :
    Externals
    → GrantService
    → Grant
    → Required
    → Option Text
    → ℕ
    → Text
    → List ApprovalRow
    → Grants
    → Result GrantRow × Grants
unfolding insert_grant new_grant
create_from_status x self g required expected now id approvals rows =
    insert_grant x rows (new_grant x self g required expected now id approvals)

unfoldable pub expire_grants : ℕ → Grants → Grants
expire_grants now =
    update (λ r. is_active r.status && leb r.expires_at now)
      (λ r. record r { status = GrantStatus.expired })

-- The loop of `consume`: `clock i` is the clock at the attempt `i`.
unfoldable pub attempts : (ℕ → ℕ) → ℕ → Grants → Grants → Option Text × Grants
attempts clock i [] rows = (none, rows)
attempts clock i (r ∷ selected) rows =
    let used = update (is_usable r.id (clock i)) use_once rows in
    let rest = attempts clock (suc i) selected used in
    if count (is_usable r.id (clock i)) rows == 1 then (some r.id, used) else rest

unfoldable pub consume :
    GrantService → Text → Text → Option Text → ℕ → ℕ → (ℕ → ℕ) → Grants → Option Text × Grants
unfolding expire_grants attempts
consume self profile rule_id task_id t0 t1 clock rows =
    attempts clock 0
      (ordered (keep (is_match self.namespace profile rule_id task_id t1) (expire_grants t0 rows)))
      (expire_grants t0 rows)

abbrev pub is_active_id : Text → GrantRow → Bool
is_active_id id r = text_eq r.id id && is_active r.status

unfoldable pub revoke : Text → Grants → Result (Unit {0}) × Grants
revoke id rows =
    let revoked = update (is_active_id id) (λ r. record r { status = GrantStatus.revoked }) rows in
    if count (is_active_id id) rows == 1
    then (ok tt, revoked)
    else (err (approval (str "grant is not active")), revoked)

-- The number of removed rows, and the table that is left.
unfoldable pub cleanup_grants : ℕ → Grants → ℕ × Grants
cleanup_grants now rows = (
  count (λ r. not (is_active r.status)) (expire_grants now rows),
  keep (λ r. is_active r.status) (expire_grants now rows),
)
