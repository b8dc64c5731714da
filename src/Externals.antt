-- ===== src/Externals.antt =====
-- What the authorization store takes from outside the repository: the JSON codec, SHA-256, the
-- database's messages for a violated key and for a missing row, and the reader of local files.
use ssh_gateway.Prelude.{ℕ, Text, ◌++◌, ◌+◌, ◌-◌, ◌^◌, min}
use ssh_gateway.Errors.{Result, ok, ◌>>=◌}
use ssh_gateway.Protocol.{Request}

pub record Externals : Type 0 where
  -- `serde_json::to_string` and `to_vec`, which give the same bytes, and `from_str`
  pub encode : Request → Result Text
  pub decode : Text → Result Request
  -- `format!("{:x}", Sha256::digest(bytes))`
  pub sha256 : Text → Text
  pub constraint_failed : Text
  pub no_rows : Text

-- The local files at one moment: `std::fs::read`.
abbrev pub Files : Type 0
Files = Text → Result Text

abbrev pub u64_max : ℕ
u64_max = 2 ^ 64 - 1

-- `u64::saturating_add`
unfoldable pub saturating_add : ℕ → ℕ → ℕ
saturating_add a b = min (a + b) u64_max

uploaded : Files → Request → Text → Result Text
uploaded files (Request.upload profile src dst) bytes =
    files src >>= λ content. ok (bytes ++ content)
uploaded files _ bytes = ok bytes

-- src/approval.rs, `request_hash`: an upload's hash covers the file that it sends.
unfoldable pub request_hash : Externals → Files → Request → Result Text
unfolding uploaded
request_hash x files request = do
  bytes ← x.encode request
  covered ← uploaded files request bytes
  ok (x.sha256 covered)
