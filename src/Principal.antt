-- ===== src/Principal.antt =====
-- src/principal.rs: who makes a request, and the namespace that is derived from it.
pub mod Distinct
use ssh_gateway.Prelude.{
  ℕ, Text, str, Option, none, some, List, [], ◌∷◌, ◌++◌, ◌/◌, ◌%◌, ◌^◌, length, unwrap_or_default,
}
use ssh_gateway.Protocol.{CallerType, human_cli, agent_cli, mcp}
use ssh_gateway.Externals.{Externals}

pub record Principal : Type 0 where
  pub caller_type : CallerType
  pub subject : Option Text
  pub tenant_id : Option Text
  pub resource : Option Text
  pub client_id : Option Text
  pub scopes : List Text

-- `format!("{:?}", caller_type)`
unfoldable pub debug : CallerType → Text
debug human_cli = str "HumanCli"
debug agent_cli = str "AgentCli"
debug mcp = str "Mcp"

local_subject : CallerType → Text
local_subject human_cli = str "local-human"
local_subject agent_cli = str "local-agent"
local_subject mcp = str "local-bearer"

-- `Principal::local`
pub local_principal : CallerType → Principal
unfolding local_subject
local_principal caller = record {
  caller_type = caller;
  subject = some (local_subject caller);
  tenant_id = none;
  resource = none;
  client_id = none;
  scopes = [];
}

-- `u64::to_be_bytes`
unfoldable pub to_be_bytes : ℕ → Text
to_be_bytes n =
    n / 2 ^ 56 % 256
    ∷ n / 2 ^ 48 % 256
    ∷ n / 2 ^ 40 % 256
    ∷ n / 2 ^ 32 % 256
    ∷ n / 2 ^ 24 % 256
    ∷ n / 2 ^ 16 % 256
    ∷ n / 2 ^ 8 % 256
    ∷ n % 256
    ∷ []

-- One turn of the loop.
unfoldable pub framed : Text → Text
unfolding to_be_bytes
framed value = to_be_bytes (length value) ++ value

abbrev pub fields : Principal → List Text
fields p =
    debug p.caller_type
    ∷ unwrap_or_default p.tenant_id
    ∷ unwrap_or_default p.resource
    ∷ unwrap_or_default p.subject
    ∷ unwrap_or_default p.client_id
    ∷ []

-- The bytes that the hasher is given.
unfoldable pub hash_input : List Text → Text
unfolding framed
hash_input [] = []
hash_input (value ∷ rest) = framed value ++ hash_input rest

pub execution_namespace : Externals → Principal → Text
unfolding hash_input
execution_namespace x p = str "principal:" ++ x.sha256 (hash_input (fields p))
