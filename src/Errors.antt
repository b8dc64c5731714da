-- ===== src/Errors.antt =====
-- src/errors.rs: the gateway's error type, its stable codes, and the result type of fallible code.
use ssh_gateway.Prelude.{◌++◌, Text, str, ◌≡◌, refl, ◌⊎◌, inl, inr}

pub data ArrtError : Type 0 where
  config : Text → ArrtError
  profile_not_found : Text → ArrtError
  profile_already_exists : Text → ArrtError
  profile_in_use : Text → ArrtError
  profile_management_disabled : ArrtError
  unsupported_config_format : Text → ArrtError
  config_conflict : Text → ArrtError
  daemon_unavailable : Text → ArrtError
  ipc : Text → ArrtError
  request_timeout : Text → ArrtError
  ssh : Text → ArrtError
  host_key_untrusted : Text → Text → ArrtError
  host_key_changed : Text → Text → Text → ArrtError
  agent : Text → ArrtError
  session_not_found : Text → ArrtError
  invalid_argument : Text → ArrtError
  policy_denied : Text → ArrtError
  relative_local_path : Text → ArrtError
  approval : Text → ArrtError
  io : Text → ArrtError

unfoldable pub code : ArrtError → Text
code (config m) = str "config_error"
code (profile_not_found m) = str "profile_not_found"
code (profile_already_exists m) = str "profile_already_exists"
code (profile_in_use m) = str "profile_in_use"
code profile_management_disabled = str "profile_management_disabled"
code (unsupported_config_format m) = str "unsupported_config_format"
code (config_conflict m) = str "config_conflict"
code (daemon_unavailable m) = str "daemon_unavailable"
code (ipc m) = str "ipc_error"
code (request_timeout m) = str "request_timeout"
code (ssh m) = str "ssh_error"
code (host_key_untrusted host fingerprint) = str "host_key_untrusted"
code (host_key_changed host expected actual) = str "host_key_changed"
code (agent m) = str "agent_error"
code (session_not_found m) = str "session_not_found"
code (invalid_argument m) = str "invalid_argument"
code (policy_denied m) = str "policy_denied"
code (relative_local_path m) = str "relative_local_path"
code (approval m) = str "approval_error"
code (io m) = str "io_error"

-- `to_string`, by the `#[error]` attributes
unfoldable pub display : ArrtError → Text
display (config m) = str "configuration error: " ++ m
display (profile_not_found m) = str "profile not found: " ++ m
display (profile_already_exists m) = str "profile already exists: " ++ m
display (profile_in_use m) = str "profile is in use: " ++ m
display profile_management_disabled = str "profile management is disabled"
display (unsupported_config_format m) = str "unsupported configuration format: " ++ m
display (config_conflict m) = str "configuration conflict: " ++ m
display (daemon_unavailable m) = str "daemon unavailable: " ++ m
display (ipc m) = str "ipc error: " ++ m
display (request_timeout m) = str "request timeout: " ++ m
display (ssh m) = str "ssh error: " ++ m
display (host_key_untrusted host fingerprint) =
    str "untrusted SSH host key for " ++ (host ++ (str ": " ++ fingerprint))
display (host_key_changed host expected actual) =
    str "SSH host key changed for "
    ++ (host ++ (str ": expected " ++ (expected ++ (str ", received " ++ actual))))
display (agent m) = str "agent error: " ++ m
display (session_not_found m) = str "session not found: " ++ m
display (invalid_argument m) = str "invalid argument: " ++ m
display (policy_denied m) = str "agent policy denied: " ++ m
display (relative_local_path m) = str "relative local path: " ++ m
display (approval m) = str "approval error: " ++ m
display (io m) = str "io error: " ++ m

-- `Result<T, ArrtError>`
pub data Result {ℓ} (T : Type ℓ) : Type ℓ where
  err : ArrtError → Result T
  ok : T → Result T

infixl 5 ◌>>=◌ ◌>>◌
-- `?` is the bind of a do block.
abbrev pub ◌>>=◌ {ℓ κ} : {T : Type ℓ} {U : Type κ} → Result T → (T → Result U) → Result U
err why >>= rest = err why
ok value >>= rest = rest value

-- A check before the rest.
abbrev pub ◌>>◌ {ℓ} : {T : Type ℓ} → Result (Unit {0}) → Result T → Result T
check >> rest = check >>= λ passed. rest

module _ {ℓ κ} {T : Type ℓ} {U : Type κ} where
  -- What a successful chain has gone through.
  pub >>=-eq-ok :
      (first : Result T) (rest : T → Result U) {u : U}
      → (first >>= rest) ≡ ok u
      → (t : T) × (first ≡ ok t) × (rest t ≡ ok u)
  >>=-eq-ok (err why) rest done = cc
  >>=-eq-ok (ok value) rest done = (value, refl, done)

module _ {ℓ} {T : Type ℓ} where
  pub >>-eq-ok :
      (check : Result (Unit {0})) (rest : Result T) {t : T}
      → (check >> rest) ≡ ok t
      → (check ≡ ok tt) × (rest ≡ ok t)
  >>-eq-ok (err why) rest done = cc
  >>-eq-ok (ok passed) rest done = (refl, done)

  pub Result-cases : (r : Result T) → ((t : T) × (r ≡ ok t)) ⊎ ((why : ArrtError) × (r ≡ err why))
  Result-cases (ok t) = inl (t, refl)
  Result-cases (err why) = inr (why, refl)

  pub ok-injective : {t u : T} → ok t ≡ ok u → t ≡ u
  ok-injective h = cc
