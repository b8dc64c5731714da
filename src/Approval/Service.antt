-- ===== src/Approval/Service.antt =====
-- src/approval.rs, `ApprovalService`. An operation returns its result and the table behind it.
pub mod Trace
pub mod Once
pub mod Content
pub mod Integrity
use ssh_gateway.Prelude.{
  update, ℕ, suc, Text, str, text_eq, option_eq, Bool, true, false, not, Option, none, some, List,
  [], ◌∷◌, ◌++◌, ◌==◌, if◌then◌else◌, count, any, keep, find?, length, leb, ltb, ◌&&◌, ◌||◌, ◌-◌,
}
use mathlib.Core.Option
use ssh_gateway.Errors.{ArrtError, Result, ok, err, approval, ◌>>=◌}
use ssh_gateway.Config.{RiskLevelConfig}
use ssh_gateway.Protocol.{CallerType, Request}
use ssh_gateway.Externals.{Externals, Files, request_hash, saturating_add}
use ssh_gateway.Approval.Rows.{
  Status, pending, executing, executed, failed, rejected, expired, ApprovalRow, is_pending,
  is_executing, is_final, risk_name, caller_name, parse_caller, request_profile, request_name,
}

pub record ApprovalService : Type 0 where
  pub ttl_seconds : ℕ
  pub namespace : Option Text

pub record ApprovalClaim : Type 0 where
  pub id : Text
  pub request : Request
  pub caller : CallerType
  pub request_hash : Text
  pub authorization_namespace : Option Text

abbrev pub Table : Type 0
Table = List ApprovalRow

-- `WHERE status='pending' AND expires_at<=?`
abbrev pub is_overdue : ℕ → ApprovalRow → Bool
is_overdue now r = is_pending r.status && leb r.expires_at now

unfoldable pub expire : ℕ → Table → Table
expire now = update (is_overdue now) (λ r. record r { status = expired })

abbrev or_no_profile : Option Text → Result Text
or_no_profile none = err (approval (str "operation has no profile"))
or_no_profile (some p) = ok p

-- What a caller asks to have approved.
pub record Proposal : Type 0 where
  pub request : Request
  pub caller : CallerType
  pub rule_id : Option Text
  pub reason : Option Text
  pub risk : Option RiskLevelConfig
  -- the redacted summary of the request
  pub summary : Text
  pub task_id : Option Text

unfoldable pub new_row :
    Externals → Files → ApprovalService → Proposal → ℕ → Text → Result ApprovalRow
new_row x files self p now id = do
  payload ← x.encode p.request
  hash ← request_hash x files p.request
  profile ← or_no_profile (request_profile p.request)
  ok (record {
    id = id;
    created_at = now;
    expires_at = saturating_add now self.ttl_seconds;
    profile = profile;
    operation = request_name p.request;
    request_payload = payload;
    request_hash = hash;
    rule_id = p.rule_id;
    reason = p.reason;
    risk = Option.map risk_name p.risk;
    caller = caller_name p.caller;
    status = pending;
    summary = p.summary;
    result_payload = none;
    task_id = p.task_id;
    authorization_namespace = self.namespace;
  })

-- `INSERT INTO approvals`: the id is the primary key.
unfoldable pub insert : Externals → Table → Result ApprovalRow → Result ApprovalRow × Table
insert x rows (err e) = (err e, rows)
insert x rows (ok r) =
    if any (λ other. text_eq other.id r.id) rows
    then (err (approval (str "approval database: " ++ x.constraint_failed)), rows)
    else (ok r, rows ++ r ∷ [])

-- `id` is the fresh identifier.
unfoldable pub create :
    Externals → Files → ApprovalService → Proposal → ℕ → Text → Table → Result ApprovalRow × Table
unfolding insert new_row
create x files self p now id rows = insert x rows (new_row x files self p now id)

-- `? IS NULL OR authorization_namespace=?`
abbrev pub sees : Option Text → Option Text → Bool
sees none row = true
sees (some ns) row = option_eq row (some ns)

-- `WHERE id=? AND status='pending' AND expires_at>? AND …`
abbrev pub is_claimable : ApprovalService → Text → ℕ → ApprovalRow → Bool
is_claimable self id now r =
    text_eq r.id id
    && (is_pending r.status
        && (ltb now r.expires_at && sees self.namespace r.authorization_namespace))

abbrev pub is_pending_id : Text → ApprovalRow → Bool
is_pending_id id r = text_eq r.id id && is_pending r.status

abbrev or_processed : Option ApprovalRow → Result ApprovalRow
or_processed none = err (approval (str "already_processed or expired"))
or_processed (some r) = ok r

abbrev require_hash : Text → Text → Result (Unit {0})
require_hash actual stored =
    if text_eq actual stored then ok tt else err (approval (str "request hash mismatch"))

-- The transaction up to the UPDATE: the row, and the request that it holds.
unfoldable pub selected :
    Externals → Files → ApprovalService → Text → ℕ → Table → Result (ApprovalRow × Request)
selected x files self id now rows = do
  r ← or_processed (find? (is_claimable self id now) rows)
  request ← x.decode r.request_payload
  actual ← request_hash x files request
  require_hash actual r.request_hash >>= λ _. ok (r, request)

abbrev claimed : Text → ApprovalRow → Request → Result ApprovalClaim
claimed id r request = parse_caller r.caller >>= λ caller. ok (record {
  id = id;
  request = request;
  caller = caller;
  request_hash = r.request_hash;
  authorization_namespace = r.authorization_namespace;
})

-- the UPDATE, the commit, and what is returned behind it
unfoldable pub commit_claim :
    Text → Table → Result (ApprovalRow × Request) → Result ApprovalClaim × Table
commit_claim id rows (err e) = (err e, rows)
commit_claim id rows (ok (r, request)) =
    if count (is_pending_id id) rows == 1
    then (
      claimed id r request,
      update (is_pending_id id) (λ r. record r { status = executing }) rows,
    )
    else (err (approval (str "already_processed")), rows)

-- An error rolls the transaction back, but not the expiry before it.
unfoldable pub claim :
    Externals → Files → ApprovalService → Text → ℕ → ℕ → Table → Result ApprovalClaim × Table
unfolding commit_claim
claim x files self id t0 t1 rows =
    commit_claim id (expire t0 rows) (selected x files self id t1 (expire t0 rows))

abbrev pub is_rejectable : Text → ℕ → ApprovalRow → Bool
is_rejectable id now r = text_eq r.id id && (is_pending r.status && ltb now r.expires_at)

reject_in : Text → ℕ → Table → Result (Unit {0}) × Table
reject_in id now rows =
    if count (is_rejectable id now) rows == 1
    then (ok tt, update (is_rejectable id now) (λ r. record r { status = rejected }) rows)
    else (
      err (approval (str "already_processed or expired")),
      update (is_rejectable id now) (λ r. record r { status = rejected }) rows,
    )

unfoldable pub reject : Text → ℕ → ℕ → Table → Result (Unit {0}) × Table
unfolding reject_in
reject id t0 t1 rows = reject_in id t1 (expire t0 rows)

abbrev pub is_executing_id : Text → ApprovalRow → Bool
is_executing_id id r = text_eq r.id id && is_executing r.status

-- `success` is `result.ok`, and `payload` the encoded result.
unfoldable pub finish : Text → Bool → Text → Table → Table
finish id success payload =
    update (is_executing_id id)
      λ r. record r { status = if success then executed else failed; result_payload = some payload }

-- The number of removed rows, and the table that is left.
unfoldable pub cleanup : ℕ → Table → ℕ × Table
cleanup now rows = (
  count (λ r. is_final r.status) (expire now rows),
  keep (λ r. not (is_final r.status)) (expire now rows),
)
