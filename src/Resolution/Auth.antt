-- ===== src/Resolution/Auth.antt =====
-- src/config.rs, `AuthConfig` and `HostEndpoint`: which credentials an endpoint is reached with.
pub mod Sources
use ssh_gateway.Prelude.{
  ℕ, Text, str, Bool, true, false, not, Option, none, some, List, [], ◌∷◌, ◌++◌, ◌==◌, ◌&&◌, ◌||◌,
  if◌then◌else◌, is_empty, is_some, is_none, strip_prefix, length, text_eq,
}
use ssh_gateway.Errors.{ArrtError, Result, ok, err, config, ◌>>=◌, ◌>>◌}
use ssh_gateway.Config.{
  AuthKind, AuthConfig, HostEndpoint, ResolvedAuthConfig, ResolvedEndpoint, DelegatedEndpoint,
}

-- What the configuration takes from other code: `str::trim`, base64 without padding, and paths.
pub record Platform : Type 0 where
  pub trim : Text → Text
  pub decode_no_pad : Text → Option Text
  -- `BaseDirs::home_dir`
  pub home : Option Text
  pub is_absolute : Text → Bool
  pub join : Text → Text → Text
  -- `parent().unwrap_or_else(|| Path::new("."))`
  pub parent : Text → Text

-- `trait CredentialStore`: the credentials, the base directory and the label of the endpoint.
abbrev pub CredentialStore : Type 0
CredentialStore = AuthConfig → Text → Text → Result ResolvedAuthConfig

abbrev pub require : Bool → Text → Result (Unit {0})
require true m = ok tt
require false m = err (config m)

abbrev pub or_error {ℓ} : {A : Type ℓ} → Option A → Text → Result A
or_error none m = err (config m)
or_error (some a) m = ok a

abbrev pub is_external : Option AuthKind → Bool
is_external (some AuthKind.external) = true
is_external _ = false

-- The credentials that are set: a key's, a password, and a reference.
abbrev by_credentials : Text → Bool → Bool → Bool → Result AuthKind
by_credentials label true false false = ok AuthKind.key
by_credentials label false true false = ok AuthKind.password
by_credentials label false false true = ok AuthKind.external
by_credentials label false false false =
    err (config (label ++ str " auth is missing type and credentials"))
by_credentials label true true false =
    err (config (label ++ str " auth must not set both key credentials and password"))
by_credentials label _ _ true =
    err (config (label ++ str " auth must specify exactly one credential source"))

abbrev pub kind_or : Option AuthKind → Result AuthKind → Result AuthKind
kind_or none inferred = inferred
kind_or (some kind) inferred = ok kind

module _ (env : Platform) where
  abbrev pub is_blank : Text → Bool
  is_blank s = is_empty (env.trim s)

  abbrev pub is_blank_id : Option Text → Bool
  is_blank_id none = false
  is_blank_id (some id) = is_blank id

  unfoldable pub infer_kind : AuthConfig → Text → Result AuthKind
  infer_kind auth label =
      require (not (is_blank_id auth.credential_id))
        (label ++ str " credential_id must not be empty")
      >> (require
            (not (
              is_external auth.kind
              && (is_none auth.credential_id
                  || is_some auth.key_path
                  || is_some auth.passphrase
                  || is_some auth.password)))
            (label ++ str " external auth requires only credential_id")
          >> kind_or auth.kind (
              by_credentials label (is_some auth.key_path || is_some auth.passphrase)
                (is_some auth.password) (is_some auth.credential_id)))

  home_dir : Result Text
  home_dir = or_error env.home (str "failed to resolve home directory")

  abbrev either_of : Option Text → Option Text → Option Text
  either_of none b = b
  either_of (some s) b = some s

  abbrev after_home : Text → Option Text
  after_home raw = either_of (strip_prefix raw (str "~/")) (strip_prefix raw (str "~\\"))

  in_home : Text → Option Text → Result Text
  in_home raw none = ok raw
  in_home raw (some rest) = home_dir >>= λ home. ok (env.join home rest)

  unfoldable pub expand_home : Text → Result Text
  unfolding home_dir in_home
  expand_home raw = if text_eq raw (str "~") then home_dir else in_home raw (after_home raw)

  -- `base_dir` is the configuration's directory.
  unfoldable pub resolve_config_path : Text → Text → Result Text
  unfolding expand_home
  resolve_config_path base_dir raw =
      expand_home raw >>= λ path. ok (if env.is_absolute path then path else env.join base_dir path)

  unfoldable pub key_auth : AuthConfig → Text → Text → Result ResolvedAuthConfig
  key_auth auth base_dir label =
      require (is_none auth.credential_id)
        (label ++ str " cannot combine credential_id with key_path")
      >> (or_error auth.key_path (label ++ str " auth.key_path is empty") >>= λ raw.
          require (is_none auth.password) (label ++ str " auth.type=key cannot also set password")
          >> (resolve_config_path base_dir raw >>= λ path.
              ok (ResolvedAuthConfig.key path auth.passphrase)))

  unfoldable pub password_auth : AuthConfig → Text → Result ResolvedAuthConfig
  password_auth auth label =
      require (is_none auth.credential_id)
        (label ++ str " cannot combine credential_id with password")
      >> (or_error auth.password (label ++ str " auth.password is empty") >>= λ password.
          require (is_none auth.key_path)
            (label ++ str " auth.type=password cannot also set key_path")
          >> (require (is_none auth.passphrase)
                (label ++ str " auth.type=password cannot also set passphrase")
              >> ok (ResolvedAuthConfig.password password)))

  unfoldable pub by_kind : AuthConfig → Text → Text → AuthKind → Result ResolvedAuthConfig
  by_kind auth base_dir label AuthKind.key = key_auth auth base_dir label
  by_kind auth base_dir label AuthKind.password = password_auth auth label
  by_kind auth base_dir label AuthKind.external =
      err (config (label ++ str " credential_id requires an external CredentialStore"))

  -- `AuthConfig::resolve`, which is the store of credentials in the file.
  unfoldable pub resolve_auth : CredentialStore
  unfolding infer_kind by_kind
  resolve_auth auth base_dir label = infer_kind auth label >>= by_kind auth base_dir label

  abbrev is_digest : Option Text → Bool
  is_digest none = false
  is_digest (some bytes) = length bytes == 32

  abbrev decoded : Option Text → Option Text
  decoded none = none
  decoded (some encoded) = env.decode_no_pad encoded

  abbrev pub is_pin : Option Text → Bool
  is_pin none = true
  is_pin (some pin) = is_digest (decoded (strip_prefix pin (str "SHA256:")))

  abbrev pub first_of : Option AuthConfig → Option AuthConfig → Option AuthConfig
  first_of none fallback = fallback
  first_of (some auth) fallback = some auth

  module _ (credentials : CredentialStore) (base_dir : Text) (fallback : Option AuthConfig) where
    -- `HostEndpoint::validate`
    unfoldable pub validate_endpoint : HostEndpoint → Text → Result (Unit {0})
    validate_endpoint e label =
        require (not (is_blank e.host)) (label ++ str " host is empty")
        >> (require (not (is_blank e.user)) (label ++ str " user is empty")
            >> (require (is_pin e.host_key_sha256)
                  (label ++ str " host_key_sha256 must be an OpenSSH SHA256 fingerprint")
                >> (or_error (first_of e.auth fallback) (label ++ str " auth is missing")
                    >>= λ auth. credentials auth base_dir label >>= λ resolved. ok tt)))

    -- `HostEndpoint::resolve`
    unfoldable pub resolve_endpoint : HostEndpoint → Text → Result ResolvedEndpoint
    unfolding validate_endpoint
    resolve_endpoint e label =
        validate_endpoint e label
        >> (or_error (first_of e.auth fallback) (label ++ str " auth is missing") >>= λ auth.
            credentials auth base_dir label >>= λ resolved. ok (record {
              host = e.host;
              user = e.user;
              port = e.port;
              auth = resolved;
              host_key_sha256 = e.host_key_sha256;
            }))

  -- `HostEndpoint::as_delegated`
  unfoldable pub as_delegated : HostEndpoint → Text → Result DelegatedEndpoint
  as_delegated e label =
      require (not (is_blank e.host)) (label ++ str " host is empty")
      >> (require (not (is_blank e.user)) (label ++ str " user is empty")
          >> ok (record { host = e.host; user = e.user; port = e.port }))
