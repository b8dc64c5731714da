-- ===== src/Resolution/Profiles.antt =====
-- src/config.rs, `resolve_profile_with` and `Profile::resolve`: the hops of a profile, through the
-- profiles that it goes via.
pub mod Chains
pub mod Removal
use ssh_gateway.Prelude.{
  is_none, ℕ, zero, suc, Text, str, decimal, Bool, true, false, not, Option, none, some, List, [],
  ◌∷◌, ◌++◌, ◌+◌, ◌==◌, ◌&&◌, ◌||◌, if◌then◌else◌, is_empty, any, starts_with, length, text_eq,
}
use ssh_gateway.Errors.{ArrtError, Result, ok, err, config as config_error, ◌>>=◌, ◌>>◌}
use ssh_gateway.Config
use ssh_gateway.Config.{
  AppConfig, Profile, AgentPolicyConfig, PolicyRuleConfig, HostEndpoint, AuthConfig,
  ResolvedEndpoint, ResolvedTransport, DelegatedEndpoint, ResolvedProfile,
}
use ssh_gateway.Resolution.Auth.{
  Platform, CredentialStore, require, is_blank, validate_endpoint, resolve_endpoint, as_delegated,
}

-- `stack.join(" -> ")` and the name that closes the cycle
abbrev arrows : List Text → Text → Text
arrows [] name = name
arrows (s ∷ stack) name = s ++ (str " -> " ++ arrows stack name)

abbrev pub on_stack : Text → List Text → Bool
on_stack name = any (λ item. text_eq item name)

-- `rule.matcher.operation` is one of the five that rules are about.
abbrev is_operation : Text → Bool
is_operation o =
    text_eq o (str "exec")
    || text_eq o (str "read")
    || text_eq o (str "write")
    || text_eq o (str "upload")
    || text_eq o (str "download")

abbrev target_label : Profile → Text
target_label p = str "profile " ++ (p.name ++ str " target")

abbrev bastion_label : Profile → ℕ → Text
bastion_label p index = str "profile " ++ (p.name ++ (str " bastion " ++ decimal (index + 1)))

abbrev for_profile : Profile → Text → Text
for_profile p rest = str "profile " ++ (p.name ++ rest)

module _ (env : Platform) where
  absolute_paths : Profile → List Text → Result (Unit {0})
  absolute_paths p [] = ok tt
  absolute_paths p (path ∷ paths) =
      require (starts_with path (str "/"))
        (for_profile p (str " agent policy path must be absolute: " ++ path))
      >> absolute_paths p paths

  -- `seen` holds the ids of the rules before.
  check_rules : Profile → List Text → List PolicyRuleConfig → Result (Unit {0})
  check_rules p seen [] = ok tt
  check_rules p seen (rule ∷ rules) =
      require (not (is_blank env rule.id)) (for_profile p (str " has an empty policy rule id"))
      >> (require (not (on_stack rule.id seen))
            (for_profile p (str " has duplicate policy rule id " ++ rule.id))
          >> (require (is_operation rule.matcher.operation) (
                for_profile p (
                  str " rule "
                  ++ (rule.id ++ (str " has unsupported operation " ++ rule.matcher.operation))))
              >> (require
                    (not (
                      text_eq rule.matcher.operation (str "exec")
                      && is_empty rule.matcher.commands))
                    (for_profile p (str " exec rule " ++ (rule.id ++ str " has no commands")))
                  >> (require
                        (not (
                          not (text_eq rule.matcher.operation (str "exec"))
                          && is_empty rule.matcher.paths))
                        (for_profile p (str " path rule " ++ (rule.id ++ str " has no paths")))
                      >> check_rules p (rule.id ∷ seen) rules))))

  -- `Profile::validate_common`
  unfoldable pub validate_common : Profile → Result (Unit {0})
  unfolding absolute_paths check_rules
  validate_common p =
      require (not (is_blank env p.name)) (str "profile name is empty")
      >> (require (not (is_blank env p.target.host)) (for_profile p (str " target host is empty"))
          >> (require (not (is_blank env p.target.user))
                (for_profile p (str " target user is empty"))
              >> (require (not (p.agent.manage && is_blank env p.agent.remote_path))
                    (for_profile p (str " agent.remote_path is empty"))
                  >> (absolute_paths p
                        (p.agent_policy.allowed_read_paths ++ p.agent_policy.allowed_write_paths)
                      >> (require (is_empty p.agent_policy.deny_commands) (
                            for_profile p (
                              str
                                " agent_policy.deny_commands is not a security boundary; use exact allowed_commands"))
                          >> check_rules p [] p.agent_policy.rules)))))

  module _ (credentials : CredentialStore) (base_dir : Text) where
    validate_bastions : Profile → ℕ → List HostEndpoint → Result (Unit {0})
    validate_bastions p index [] = ok tt
    validate_bastions p index (b ∷ bastions) =
        validate_endpoint env credentials base_dir p.auth b (bastion_label p index)
        >> validate_bastions p (suc index) bastions

    resolve_bastions : Profile → ℕ → List HostEndpoint → Result (List ResolvedEndpoint)
    resolve_bastions p index [] = ok []
    resolve_bastions p index (b ∷ bastions) = do
      first ← resolve_endpoint env credentials base_dir p.auth b (bastion_label p index)
      rest ← resolve_bastions p (suc index) bastions
      ok (first ∷ rest)

    unfoldable pub direct_transport : Profile → Result ResolvedTransport
    unfolding validate_bastions resolve_bastions
    direct_transport p =
        validate_endpoint env credentials base_dir p.auth p.target (target_label p)
        >> (validate_bastions p 0 p.bastions
            >> (resolve_endpoint env credentials base_dir p.auth p.target (target_label p)
                >>= λ target. resolve_bastions p 0 p.bastions >>= λ bastions.
                    ok (ResolvedTransport.direct target bastions)))

    -- What a profile with `via_profile` must leave out.
    unfoldable pub check_via : Profile → Result (Unit {0})
    check_via p =
        require (is_empty p.bastions)
          (for_profile p (str " via_profile cannot be combined with bastions"))
        >> require (is_none p.auth && is_none p.target.auth) (
            for_profile p
              (str " via_profile uses the upstream profile's SSH capability and must not set auth"))

    unfoldable pub via_transport :
        Profile → Text → Result ResolvedProfile → Result ResolvedTransport
    via_transport p via upstream = upstream >>= λ hop.
        as_delegated env p.target (target_label p) >>= λ target.
        ok (ResolvedTransport.delegated via target)

    -- `none` where the fuel has run out, which it never does.
    abbrev pub Run : Type 0 → Type 0
    Run A = Option (Result A)

    abbrev pub unless_checked : Result (Unit {0}) → Run ResolvedTransport → Run ResolvedTransport
    unless_checked (err e) r = some (err e)
    unless_checked (ok u) r = r

    abbrev pub after_upstream : Profile → Text → Run ResolvedProfile → Run ResolvedTransport
    after_upstream p via none = none
    after_upstream p via (some upstream) = some (via_transport p via upstream)

    unfoldable pub transport :
        Profile → Option Text → (Text → Run ResolvedProfile) → Run ResolvedTransport
    unfolding direct_transport check_via via_transport
    transport p none upstream = some (direct_transport p)
    transport p (some via) upstream =
        unless_checked (check_via p) (after_upstream p via (upstream via))

    abbrev pub finish : AppConfig → Profile → Run ResolvedTransport → Run ResolvedProfile
    finish config p none = none
    finish config p (some r) = some (
        r >>= λ t. ok (record {
          name = p.name;
          transport = t;
          agent = p.agent;
          timeouts = p.timeouts;
          keepalive = p.keepalive;
          host_key_mode = config.runtime.host_key_mode;
          runtime_mode = config.runtime.mode;
        }))

    -- `Profile::resolve`, with the resolution of the profile that it goes via as an argument
    unfoldable pub resolve_profile :
        AppConfig → Profile → (Text → Run ResolvedProfile) → Run ResolvedProfile
    unfolding transport validate_common
    resolve_profile config p upstream =
        finish config p (unless_checked (validate_common p) (transport p p.via_profile upstream))

    abbrev pub of_profile :
        AppConfig → Result Profile → (Text → Run ResolvedProfile) → Run ResolvedProfile
    of_profile config (err e) upstream = some (err e)
    of_profile config (ok p) upstream = resolve_profile config p upstream

    -- The first argument is the fuel.
    unfoldable pub resolve_profile_with : ℕ → AppConfig → Text → List Text → Run ResolvedProfile
    unfolding resolve_profile
    resolve_profile_with zero config name stack = none
    resolve_profile_with (suc f) config name stack =
        let upstream = λ (via : Text). resolve_profile_with f config via (stack ++ name ∷ []) in
        if on_stack name stack
        then some (err (config_error (str "profile dependency cycle: " ++ arrows stack name)))
        else of_profile config (Config.profile config name) upstream

    -- `resolved_profile_with_credentials`
    unfoldable pub resolved_profile : AppConfig → Text → Run ResolvedProfile
    unfolding resolve_profile_with
    resolved_profile config name = resolve_profile_with (length config.profiles + 1) config name []
