-- ===== src/Samples/Grants.antt =====
-- Grants and plans: src/grant.rs.
use ssh_gateway.Prelude.{
  ℕ, suc, Text, str, text_eq, option_eq, none, some, List, [], ◌∷◌, ◌≡◌, ◌≤◌, refl, arith, Any,
  length, update,
}
use ssh_gateway.Errors.{Result, ok, err, io, >>=-eq-ok, ok-injective, ◌>>=◌}
use ssh_gateway.Config.{default_grants}
use ssh_gateway.Protocol.{Request}
use ssh_gateway.Externals.{request_hash, saturating_add}
use ssh_gateway.Approval.Rows.{Status, ApprovalRow}
use ssh_gateway.Grant.Rows.{GrantRow, GrantStatus, ordered, insert_ordered}
use ssh_gateway.Grant.Service.{
  GrantService, Grant, Required, consume, attempts, expire_grants, revoke, create_from_status,
  insert_grant, new_grant, validate_grant_source, risk_permissions,
}
use ssh_gateway.Grant.Service.Trace
use ssh_gateway.Grant.Service.Uses.{use_count-le-grant_count, use_count-revoke}
use ssh_gateway.Grant.Service.Matches.{Serves, consume-Serves}
use ssh_gateway.Grant.Plans.{
  PlanRow, PlanAuthorization, PlanCodec, PlanProposal, claim_plan_action, expire_plans,
  propose_plan, new_plan, insert_plan, approve_plan, claim_row, commit_plan_claim, check_next,
  plan_hash, hashes, newest,
}
use ssh_gateway.Grant.Plans
use ssh_gateway.Grant.Plans.Trace as PlanTrace
use ssh_gateway.Grant.Plans.Order.Steps.{IsOrdered, run-IsOrdered}
use ssh_gateway.Grant.Plans.Next.{Authorizes, claim_plan_action-Authorizes}
use ssh_gateway.Samples.Data.{reads_only, no_files}

abbrev pub grants : GrantService
grants = record { config = default_grants; namespace = none }

abbrev source : ApprovalRow
source = record {
  id = str "a1";
  created_at = 100;
  expires_at = 400;
  profile = str "w";
  operation = str "read";
  request_payload = [];
  request_hash = [];
  rule_id = some (str "logs");
  reason = none;
  risk = none;
  caller = str "mcp";
  status = Status.pending;
  summary = [];
  result_payload = none;
  task_id = none;
  authorization_namespace = none;
}

abbrev two_uses : Grant
two_uses = record { approval_id = str "a1"; ttl = 600; task_id = none; max_uses = some 2 }

abbrev used_thrice : List Trace.Op
used_thrice =
    Trace.creates grants two_uses Required.pending none 100 (str "g1") (source ∷ [])
    ∷ Trace.consumes grants (str "w") (str "logs") none 110 110 (λ i. 110)
    ∷ Trace.consumes grants (str "w") (str "logs") none 120 120 (λ i. 120)
    ∷ Trace.consumes grants (str "w") (str "logs") none 130 130 (λ i. 130)
    ∷ []

third_use_refused :
    (Trace.use_count reads_only (str "g1") used_thrice [] ≡ 2)
    × (Trace.grant_count reads_only (str "g1") used_thrice [] ≡ 2)
unfolding Trace.use_count Trace.grant_count Trace.used_by Trace.granted_by Trace.step consume
    attempts expire_grants create_from_status insert_grant new_grant validate_grant_source
    risk_permissions ordered insert_ordered update text_eq option_eq str
third_use_refused = (refl, refl)

use_count-le-grant_count_example :
    Trace.use_count reads_only (str "g1") used_thrice []
    ≤ Trace.grant_count reads_only (str "g1") used_thrice []
use_count-le-grant_count_example = use_count-le-grant_count reads_only (str "g1") used_thrice

use_count-revoke_example :
    Trace.use_count reads_only
      (str "g1")
      used_thrice
      (revoke (str "g1") (Trace.run reads_only used_thrice [])).1
    ≤ Trace.grant_count reads_only
        (str "g1")
        used_thrice
        (revoke (str "g1") (Trace.run reads_only used_thrice [])).1
use_count-revoke_example = use_count-revoke reads_only (str "g1") used_thrice used_thrice

abbrev live_grant : GrantRow
live_grant = record {
  id = str "g1";
  profile = str "w";
  rule_id = str "logs";
  task_id = none;
  scope = str "time_rule";
  created_at = 100;
  expires_at = 700;
  max_uses = some 2;
  used_count = 0;
  status = GrantStatus.active;
  created_from_approval_id = str "a1";
  created_by = str "human_cli";
  authorization_namespace = none;
}

consumed :
    (consume grants (str "w") (str "logs") none 110 110 (λ i. 110) (live_grant ∷ [])).0
    ≡ some (str "g1")
unfolding consume attempts expire_grants ordered insert_ordered update text_eq option_eq str
consumed = refl

consume-Serves_example :
    Any
      (λ r. (r.id ≡ str "g1") × Serves grants (str "w") (str "logs") none 110 r)
      (expire_grants 110 (live_grant ∷ []))
consume-Serves_example =
    consume-Serves grants (str "w") (str "logs") none 110 110 (λ i. 110) (live_grant ∷ [])
      (str "g1") consumed

-- A codec for lists of reads with names and paths of one byte.
abbrev pub encode_reads : List Request → Result Text
encode_reads [] = ok []
encode_reads (Request.read (d ∷ []) (c ∷ []) ∷ rest) = encode_reads rest >>= λ t. ok (d ∷ c ∷ t)
encode_reads _ = err (io [])

abbrev pub decode_reads : Text → Result (List Request)
decode_reads [] = ok []
decode_reads (d ∷ c ∷ t) = decode_reads t >>= λ rest. ok (Request.read (d ∷ []) (c ∷ []) ∷ rest)
decode_reads _ = err (io [])

abbrev pub pairs : Text → ℕ
pairs (d ∷ c ∷ t) = suc (pairs t)
pairs _ = 0

abbrev pub first_hash : List Text → Result Text
first_hash [] = ok []
first_hash (h ∷ rest) = ok h

abbrev pub reads : PlanCodec
reads = record {
  encode_actions = encode_reads;
  decode_actions = decode_reads;
  encode_hashes = first_hash;
  array_length = λ t. some (pairs t);
  trim = λ t. t;
}

reads_lengths :
    (actions : List Request) (t : Text)
    → reads.encode_actions actions ≡ ok t
    → reads.array_length t ≡ some (length actions)
reads_lengths [] t h = ground arith
reads_lengths (Request.read (d ∷ []) (c ∷ []) ∷ rest) t h =
    let (u, e, k) = >>=-eq-ok (encode_reads rest) _ h in
    let law = reads_lengths rest u e in let same : (d ∷ c ∷ u) ≡ t = ok-injective k in ground arith
reads_lengths (a ∷ rest) t h = absurd (cc)

abbrev read_x : Request
read_x = Request.read (b'w' ∷ []) (b'x' ∷ [])

abbrev approved_plan : List PlanTrace.Op
approved_plan =
    PlanTrace.proposes grants no_files
      (record { profile = str "w"; task_id = str "t"; actions = read_x ∷ []; ttl = 600 }) 100
      (str "p1")
    ∷ PlanTrace.approves (str "p1") 105 105
    ∷ []

run-IsOrdered_example : IsOrdered reads (PlanTrace.run reads_only reads approved_plan [])
run-IsOrdered_example = run-IsOrdered reads_only reads reads_lengths approved_plan

action_claimed :
    (claim_plan_action reads_only reads grants no_files
      (str "w")
      (some (str "t"))
      read_x
      110
      110
      110
      (PlanTrace.run reads_only reads approved_plan [])).0
    ≡ ok (some (record { plan_id = str "p1"; action_index = 0 }))
unfolding claim_plan_action claim_row commit_plan_claim check_next plan_hash hashes newest
    expire_plans PlanTrace.run PlanTrace.step propose_plan new_plan insert_plan approve_plan
    Plans.request_profile request_hash saturating_add update text_eq option_eq str
action_claimed = refl

claim_plan_action-Authorizes_example :
    Any
      (Authorizes reads_only reads grants no_files
        (str "w")
        (str "t")
        read_x
        110
        (record { plan_id = str "p1"; action_index = 0 }))
      (expire_plans 110 (PlanTrace.run reads_only reads approved_plan []))
claim_plan_action-Authorizes_example =
    claim_plan_action-Authorizes reads_only reads grants no_files (str "w") (str "t") read_x 110 110
      110 (PlanTrace.run reads_only reads approved_plan [])
      (record { plan_id = str "p1"; action_index = 0 }) action_claimed
