-- ===== src/Samples/Principals.antt =====
-- Principals: src/principal.rs.
use ssh_gateway.Prelude.{str, codes, some, none, [], ◌≡◌, refl, arith, All, unwrap_or_default}
use ssh_gateway.Protocol.{mcp}
use ssh_gateway.Principal.{Principal, fields, debug}
use ssh_gateway.Principal.Distinct.{Fits, hash_input-separates}

abbrev user : Principal
user = record {
  caller_type = mcp;
  subject = some (codes "ann");
  tenant_id = some (codes "t");
  resource = none;
  client_id = none;
  scopes = [];
}

user-Fits : All Fits (fields user)
unfolding debug str
user-Fits = ground arith

hash_input-separates_example :
    (user.caller_type ≡ user.caller_type)
    × (unwrap_or_default user.tenant_id ≡ unwrap_or_default user.tenant_id)
    × (unwrap_or_default user.resource ≡ unwrap_or_default user.resource)
    × (unwrap_or_default user.subject ≡ unwrap_or_default user.subject)
    × (unwrap_or_default user.client_id ≡ unwrap_or_default user.client_id)
hash_input-separates_example = hash_input-separates user user user-Fits user-Fits refl
