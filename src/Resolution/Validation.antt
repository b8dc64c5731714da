-- ===== src/Resolution/Validation.antt =====
-- src/config.rs, `validate_with_credentials` and `validate_mcp`.
use ssh_gateway.Prelude.{
  ℕ, Text, str, Bool, true, false, not, Option, none, some, List, [], ◌∷◌, ◌++◌, ◌+◌, ◌==◌, ◌&&◌,
  ◌||◌, leb, if◌then◌else◌, is_empty, unwrap_or_default, text_eq,
}
use ssh_gateway.Errors.{Result, ok, err, config as config_error, ◌>>=◌, ◌>>◌}
use ssh_gateway.Config.{
  AppConfig, Profile, McpAuthConfig, McpTenantConfig, RuntimeMode, cloud, self_hosted, HostKeyMode,
  strict, insecure_compatibility, ResolvedProfile,
}
use ssh_gateway.Resolution.Auth.{
  Platform, CredentialStore, resolve_auth, require, is_blank, is_blank_id,
}
use ssh_gateway.Resolution.Profiles.{on_stack, resolved_profile}

-- `eq_ignore_ascii_case`
abbrev pub lower : ℕ → ℕ
lower c = if leb b'A' c && leb c b'Z' then c + 32 else c

eq_ignore_ascii_case : Text → Text → Bool
eq_ignore_ascii_case [] [] = true
eq_ignore_ascii_case (c ∷ s) (d ∷ t) = lower c == lower d && eq_ignore_ascii_case s t
eq_ignore_ascii_case _ _ = false

abbrev pub is_cloud : RuntimeMode → Bool
is_cloud self_hosted = false
is_cloud cloud = true

abbrev pub is_strict : HostKeyMode → Bool
is_strict strict = true
is_strict insecure_compatibility = false

module _ (env : Platform) where
  -- `seen` holds the resources of the tenants before.
  check_tenants : List Text → List McpTenantConfig → Result (Unit {0})
  check_tenants seen [] = ok tt
  check_tenants seen (t ∷ tenants) =
      require (not (is_blank env t.resource)) (str "mcp.tenants[].resource must not be empty")
      >> (require (not (is_blank env t.config_path))
            (str "mcp.tenants[].config_path must not be empty")
          >> (require (not (is_blank_id env t.tenant_id))
                (str "mcp.tenants[].tenant_id must not be empty")
              >> (require (not (on_stack t.resource seen))
                    (str "duplicate mcp tenant resource: " ++ t.resource)
                  >> check_tenants (t.resource ∷ seen) tenants)))

  check_oauth : McpAuthConfig → List McpTenantConfig → Result (Unit {0})
  check_oauth auth tenants =
      require (not (is_empty (unwrap_or_default auth.resource)))
        (str "mcp.auth.resource is required for oauth_jwt")
      >> (require (not (is_empty (unwrap_or_default auth.issuer)))
            (str "mcp.auth.issuer is required for oauth_jwt")
          >> (require (not (is_blank env auth.audience_claim))
                (str "mcp.auth.audience_claim must not be empty")
              >> check_tenants [] tenants))

  unfoldable pub validate_mcp : AppConfig → Result (Unit {0})
  unfolding eq_ignore_ascii_case check_oauth check_tenants
  validate_mcp config =
      if eq_ignore_ascii_case config.mcp.auth.kind (str "bearer")
      then ok tt
      else (require (eq_ignore_ascii_case config.mcp.auth.kind (str "oauth_jwt"))
            (str "unsupported mcp.auth.type: " ++ config.mcp.auth.kind)
          >> check_oauth config.mcp.auth config.mcp.tenants)

  -- The names seen so far, and the profiles that are left.
  unfoldable pub check_names : List Text → List Profile → Result (Unit {0})
  check_names seen [] = ok tt
  check_names seen (p ∷ profiles) =
      require (not (on_stack p.name seen)) (str "duplicate profile name: " ++ p.name)
      >> check_names (p.name ∷ seen) profiles

  unfoldable pub check_approval : AppConfig → Result (Unit {0})
  check_approval config =
      require (not (config.approval.ttl_seconds == 0))
        (str "approval.ttl_seconds must be greater than zero")
      >> (require (text_eq config.approval.storage.kind (str "sqlite"))
            (str "approval.storage.type must be sqlite")
          >> require
              (not (
                config.approval.grants.max_ttl_seconds == 0
                || config.approval.grants.default_max_uses == 0))
              (str "approval grant TTL and max uses must be greater than zero"))

  unfoldable pub check_general : AppConfig → Result (Unit {0})
  unfolding validate_mcp
  check_general config =
      require (not (is_empty config.profiles && is_empty config.mcp.tenants))
        (str "no profiles configured")
      >> (validate_mcp config
          >> require
              (not (is_cloud config.runtime.mode && not (is_strict config.runtime.host_key_mode)))
              (str "Cloud runtime requires runtime.host_key_mode: strict"))

  module _ (credentials : CredentialStore) (base_dir : Text) where
    -- A resolution that had no result would count as an error; there is none.
    abbrev pub resolves : Option (Result ResolvedProfile) → Result (Unit {0})
    resolves none = err (config_error [])
    resolves (some r) = r >>= λ p. ok tt

    unfoldable pub check_resolves : AppConfig → List Profile → Result (Unit {0})
    check_resolves config [] = ok tt
    check_resolves config (p ∷ profiles) =
        resolves (resolved_profile env credentials base_dir config p.name)
        >> check_resolves config profiles

    unfoldable pub validate_with_credentials : AppConfig → Result (Unit {0})
    unfolding check_general check_names check_resolves check_approval
    validate_with_credentials config =
        check_general config
        >> (check_names [] config.profiles
            >> (check_resolves config config.profiles >> check_approval config))

  -- `AppConfig::validate`, with the credentials in the file
  unfoldable pub validate : AppConfig → Result (Unit {0})
  unfolding validate_with_credentials
  validate config =
      validate_with_credentials (resolve_auth env) (env.parent config.source_path) config
