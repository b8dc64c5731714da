-- ===== src/Grant/Plans.antt =====
-- src/grant.rs, `GrantService` on plans. An operation returns its result and the table behind it.
pub mod Trace
pub mod Order
pub mod Next
pub mod Lease
use ssh_gateway.Prelude.{
  is_none, ℕ, suc, Text, str, text_eq, option_eq, Bool, true, false, not, Option, none, some, List,
  [], ◌∷◌, ◌++◌, ◌+◌, ◌%◌, ◌^◌, ◌==◌, min, max, if◌then◌else◌, count, any, find?, keep, update,
  is_empty, get_elem?, leb, ltb, ◌&&◌, ◌||◌,
}
use ssh_gateway.Errors.{Result, ok, err, approval, policy_denied, ◌>>=◌, ◌>>◌}
use ssh_gateway.Protocol.{Request}
use ssh_gateway.Externals.{Externals, Files, request_hash, saturating_add}
use ssh_gateway.Grant.Service.{GrantService, require, or_error, expiry}

pub data PlanStatus : Type 0 where
  pending approved executing completed failed rejected expired : PlanStatus

pub record PlanRow : Type 0 where
  pub id : Text
  pub profile : Text
  pub task_id : Text
  pub actions_json : Text
  pub plan_hash : Text
  pub created_at : ℕ
  pub expires_at : ℕ
  pub status : PlanStatus
  pub next_index : ℕ
  pub claimed_index : Option ℕ
  pub claim_expires_at : Option ℕ
  pub authorization_namespace : Option Text

abbrev pub Plans : Type 0
Plans = List PlanRow

pub record PlanAuthorization : Type 0 where
  pub plan_id : Text
  pub action_index : ℕ

-- What plans take from outside: JSON of a list of requests and of hashes, `json_array_length` of
-- the database, and `str::trim`.
pub record PlanCodec : Type 0 where
  pub encode_actions : List Request → Result Text
  pub decode_actions : Text → Result (List Request)
  pub encode_hashes : List Text → Result Text
  pub array_length : Text → Option ℕ
  pub trim : Text → Text

abbrev pub is_executing : PlanStatus → Bool
is_executing executing = true
is_executing _ = false

abbrev pub is_pending : PlanStatus → Bool
is_pending pending = true
is_pending _ = false

-- `status IN('pending','approved')`
abbrev pub is_waiting : PlanStatus → Bool
is_waiting pending = true
is_waiting approved = true
is_waiting _ = false

-- `status IN('approved','executing')`
abbrev pub is_started : PlanStatus → Bool
is_started approved = true
is_started executing = true
is_started _ = false

abbrev pub is_due : Option ℕ → ℕ → Bool
is_due none now = false
is_due (some t) now = leb t now

abbrev pub lease_over : ℕ → PlanRow → Bool
lease_over now r = is_executing r.status && is_due r.claim_expires_at now

abbrev pub end_claim : PlanStatus → PlanRow → PlanRow
end_claim s r = record r { status = s; claimed_index = none; claim_expires_at = none }

abbrev pub is_overdue : ℕ → PlanRow → Bool
is_overdue now r = is_waiting r.status && leb r.expires_at now

unfoldable pub expire_plans : ℕ → Plans → Plans
expire_plans now rows =
    update (is_overdue now) (λ r. record r { status = expired })
      (update (lease_over now) (end_claim failed) rows)

abbrev pub is_id : Text → PlanRow → Bool
is_id id r = text_eq r.id id

abbrev pub is_pending_id : Text → PlanRow → Bool
is_pending_id id r = text_eq r.id id && is_pending r.status

abbrev pub is_approvable : Text → ℕ → PlanRow → Bool
is_approvable id now r = text_eq r.id id && (is_pending r.status && ltb now r.expires_at)

abbrev changed_one : ℕ → Text → Result (Unit {0})
changed_one n m = require (n == 1) m

unfoldable pub approve_plan : Text → ℕ → ℕ → Plans → Result (Unit {0}) × Plans
approve_plan id t0 t1 rows = (
  changed_one (count (is_approvable id t1) (expire_plans t0 rows)) (str "plan is not pending"),
  update (is_approvable id t1) (λ r. record r { status = approved }) (expire_plans t0 rows),
)

unfoldable pub reject_plan : Text → Plans → Result (Unit {0}) × Plans
reject_plan id rows = (
  changed_one (count (is_pending_id id) rows) (str "plan is not pending"),
  update (is_pending_id id) (λ r. record r { status = rejected }) rows,
)

-- `plan_claim_lease_seconds`
abbrev pub lease_of_timeout : Option ℕ → ℕ
lease_of_timeout none = max 300 (min 3660 (saturating_add 300 60))
lease_of_timeout (some t) = max 300 (min 3660 (saturating_add t 60))

unfoldable pub plan_claim_lease_seconds : Request → ℕ
plan_claim_lease_seconds (Request.exec profile command cwd timeout env) = lease_of_timeout timeout
plan_claim_lease_seconds _ = 300

-- The newest row, the earlier one in the table among equals.
abbrev pub newer : PlanRow → Option PlanRow → Option PlanRow
newer r none = some r
newer r (some s) = if ltb r.created_at s.created_at then some s else some r

-- `ORDER BY created_at DESC LIMIT 1`
unfoldable pub newest : Plans → Option PlanRow
newest [] = none
newest (r ∷ rows) = newer r (newest rows)

abbrev pub is_current : Option Text → Text → Text → ℕ → PlanRow → Bool
is_current namespace profile task now r =
    text_eq r.profile profile
    && (text_eq r.task_id task
        && (option_eq r.authorization_namespace namespace
            && (is_started r.status && ltb now r.expires_at)))

abbrev pub claims_index : Option ℕ → ℕ → Bool
claims_index none i = false
claims_index (some j) i = j == i

-- The WHERE clause of the UPDATE in `claim_plan_action`.
abbrev pub is_claimable : Text → ℕ → PlanRow → Bool
is_claimable id index r = text_eq r.id id && (is_none r.claimed_index && r.next_index == index)

-- The WHERE clause of the UPDATEs in `finish_plan_action`.
abbrev pub is_claimed : PlanAuthorization → PlanRow → Bool
is_claimed auth r =
    text_eq r.id auth.plan_id
    && (is_executing r.status && claims_index r.claimed_index auth.action_index)

module _ (x : Externals) (y : PlanCodec) where
  unfoldable pub hashes : Files → List Request → Result (List Text)
  hashes files [] = ok []
  hashes files (a ∷ actions) = do
    h ← request_hash x files a
    rest ← hashes files actions
    ok (h ∷ rest)

  unfoldable pub plan_hash : Files → List Request → Result Text
  unfolding hashes
  plan_hash files actions = do
    list ← hashes files actions
    bytes ← y.encode_hashes list
    ok (x.sha256 bytes)

  -- The checks of `claim_plan_action` on the row: nothing is claimed, the stored plan is intact, and
  -- the request is the next action.
  unfoldable pub check_next : Files → Request → PlanRow → Result (Unit {0})
  unfolding plan_hash
  check_next files request r =
      require (is_none r.claimed_index) (str "plan action is already executing")
      >> (y.decode_actions r.actions_json >>= λ actions. plan_hash files actions >>= λ hash.
          require (text_eq hash r.plan_hash) (str "approved plan content hash mismatch")
          >> (or_error (get_elem? actions r.next_index) (str "plan has no next action")
              >>= λ expected. request_hash x files expected >>= λ h.
                  request_hash x files request >>= λ k.
                  if text_eq h k
                  then ok tt
                  else err
                      (policy_denied (str "request does not match the next approved plan action"))))

  -- The UPDATE and the commit; an error rolls back to the table behind the expiry.
  unfoldable pub commit_plan_claim :
      Request → ℕ → PlanRow → Plans → Result (Unit {0}) → Result (Option PlanAuthorization) × Plans
  commit_plan_claim request now r rows (err e) = (err e, rows)
  commit_plan_claim request now r rows (ok u) =
      if count (is_claimable r.id r.next_index) rows == 1
      then (
        ok (some (record { plan_id = r.id; action_index = r.next_index })),
        update (is_claimable r.id r.next_index)
            (λ s. record s {
              status = executing;
              claimed_index = some r.next_index;
              claim_expires_at = some (saturating_add now (plan_claim_lease_seconds request));
            })
            rows,
      )
      else (err (approval (str "plan action already claimed")), rows)

  unfoldable pub claim_row :
      Files → Request → ℕ → Plans → Option PlanRow → Result (Option PlanAuthorization) × Plans
  unfolding check_next commit_plan_claim
  claim_row files request now rows none = (ok none, rows)
  claim_row files request now rows (some r) =
      commit_plan_claim request now r rows (check_next files request r)

  unfoldable pub claim_plan_action :
      GrantService
      → Files
      → Text
      → Option Text
      → Request
      → ℕ
      → ℕ
      → ℕ
      → Plans
      → Result (Option PlanAuthorization) × Plans
  unfolding claim_row newest
  claim_plan_action self files profile none request t0 t1 t2 rows = (ok none, rows)
  claim_plan_action self files profile (some task) request t0 t1 t2 rows =
      claim_row files request t2 (expire_plans t0 rows)
        (newest (keep (is_current self.namespace profile task t1) (expire_plans t0 rows)))

-- grant.rs's own `request_profile`: the requests that a plan may hold.
unfoldable pub request_profile : Request → Option Text
request_profile (Request.exec profile command cwd timeout env) = some profile
request_profile (Request.read profile path) = some profile
request_profile (Request.write profile path mode content) = some profile
request_profile (Request.upload profile src dst) = some profile
request_profile (Request.download profile src dst) = some profile
request_profile _ = none

-- What a caller proposes as a plan.
pub record PlanProposal : Type 0 where
  pub profile : Text
  pub task_id : Text
  pub actions : List Request
  pub ttl : ℕ

abbrev pub clashes : PlanRow → PlanRow → Bool
clashes r other = text_eq other.id r.id

-- The INSERT: the id is the primary key.
unfoldable pub insert_plan : Externals → Plans → Result PlanRow → Result PlanRow × Plans
insert_plan x rows (err e) = (err e, rows)
insert_plan x rows (ok r) =
    if any (clashes r) rows
    then (err (approval (str "authorization database: " ++ x.constraint_failed)), rows)
    else (ok r, rows ++ r ∷ [])

-- `SELECT json_array_length(actions_json) … WHERE id=?`
abbrev pub length_of : PlanCodec → Option PlanRow → Option ℕ
length_of y none = none
length_of y (some r) = y.array_length r.actions_json

abbrev pub status_after : ℕ → ℕ → PlanStatus
status_after i n = if leb n (suc i) then completed else approved

abbrev pub advance : PlanStatus → PlanRow → PlanRow
advance s r = record r {
  next_index = suc r.next_index;
  claimed_index = none;
  claim_expires_at = none;
  status = s;
}

module _ (x : Externals) (y : PlanCodec) where
  unfoldable pub new_plan : GrantService → Files → PlanProposal → ℕ → Text → Result PlanRow
  unfolding plan_hash
  new_plan self files p now id =
      require (not (is_empty (y.trim p.task_id) || is_empty p.actions))
        (str "plan requires task_id and at least one action")
      >> (require (not (any (λ a. not (option_eq (request_profile a) (some p.profile))) p.actions))
            (str "all plan actions must use the plan profile")
          >> (y.encode_actions p.actions >>= λ payload. plan_hash x y files p.actions >>= λ hash.
              ok (record {
                id = id;
                profile = p.profile;
                task_id = p.task_id;
                actions_json = payload;
                plan_hash = hash;
                created_at = now;
                expires_at = expiry now (min p.ttl self.config.max_ttl_seconds);
                status = pending;
                next_index = 0;
                claimed_index = none;
                claim_expires_at = none;
                authorization_namespace = self.namespace;
              })))

  unfoldable pub propose_plan :
      GrantService → Files → PlanProposal → ℕ → Text → Plans → Result PlanRow × Plans
  unfolding insert_plan new_plan
  propose_plan self files p now id rows = insert_plan x rows (new_plan self files p now id)

  -- `finish_plan_action` with `success`: the status that is reported
  unfoldable pub finish_success : PlanAuthorization → Option ℕ → Plans → Result PlanStatus × Plans
  finish_success auth none rows =
      (err (approval (str "authorization database: " ++ x.no_rows)), rows)
  finish_success auth (some n) rows = (
    changed_one (count (is_claimed auth) rows) (str "plan action lease is no longer active")
        >> ok (status_after auth.action_index n),
    update (is_claimed auth) (advance (status_after auth.action_index n)) rows,
  )

  unfoldable pub finish_failure : PlanAuthorization → Plans → Result PlanStatus × Plans
  finish_failure auth rows = (
    changed_one (count (is_claimed auth) rows) (str "plan action lease is no longer active")
        >> ok failed,
    update (is_claimed auth) (end_claim failed) rows,
  )

  unfoldable pub finish_plan_action : PlanAuthorization → Bool → Plans → Result PlanStatus × Plans
  unfolding finish_success finish_failure
  finish_plan_action auth true rows =
      finish_success auth (length_of y (find? (is_id auth.plan_id) rows)) rows
  finish_plan_action auth false rows = finish_failure auth rows
