-- ===== src/Samples/Store.antt =====
-- The authorization store: src/approval.rs and src/grant.rs.
use ssh_gateway.Prelude.{
  update, str, some, List, [], ◌∷◌, ◌≡◌, ◌≤◌, refl, Any, text_eq, option_eq, codes,
}
use ssh_gateway.Errors.{ok}
use ssh_gateway.Protocol.{Request, agent_cli}
use ssh_gateway.Externals.{request_hash, saturating_add}
use ssh_gateway.Approval.Rows.{caller_name, parse_caller, risk_name, request_profile, request_name}
use ssh_gateway.Approval.Service.{
  ApprovalClaim, create, new_row, insert, claim, commit_claim, selected, expire,
}
use ssh_gateway.Approval.Service.Trace.{
  Op, creates, claims, run, step, claim_count, claimed_by, create_count,
}
use ssh_gateway.Approval.Service.Integrity.{Proposed, claim-Proposed}
use ssh_gateway.Approval.Service.Once.{claim_count-le-create_count}
use ssh_gateway.Samples.Data.{reads_only, reads_only_decodes, no_files, tenant, read_b}

abbrev one_read : List Op
one_read = creates tenant no_files read_b 100 (str "a1") ∷ []

abbrev read_twice : List Op
read_twice =
    creates tenant no_files read_b 100 (str "a1")
    ∷ claims tenant no_files (str "a1") 110 110
    ∷ claims tenant no_files (str "a1") 111 111
    ∷ []

abbrev read_claim : ApprovalClaim
read_claim = record {
  id = str "a1";
  request = Request.read (b'w' ∷ []) (str "/etc/motd");
  caller = agent_cli;
  request_hash = b'w' ∷ codes "/etc/motd";
  authorization_namespace = some (str "tenant-a");
}

read_claimed :
    (claim reads_only no_files tenant (str "a1") 110 110 (run reads_only one_read [])).0
    ≡ ok read_claim
unfolding claim commit_claim selected expire run step create new_row insert request_hash
    saturating_add update caller_name parse_caller risk_name request_profile request_name text_eq
    option_eq str
read_claimed = refl

claim-Proposed_example :
    Any (Proposed reads_only tenant no_files (str "a1") 110 read_claim) one_read
claim-Proposed_example =
    claim-Proposed reads_only reads_only_decodes one_read tenant no_files (str "a1") 110 110
      read_claim read_claimed

claimed_once : (claim_count reads_only (str "a1") read_twice [] ≡ 1)
unfolding claim_count claimed_by run step claim commit_claim selected expire create new_row insert
    request_hash saturating_add update caller_name parse_caller risk_name request_profile
    request_name text_eq option_eq str
claimed_once = refl

claim_count-le-create_count_example :
    claim_count reads_only (str "a1") read_twice []
    ≤ create_count reads_only (str "a1") read_twice []
claim_count-le-create_count_example = claim_count-le-create_count reads_only (str "a1") read_twice
