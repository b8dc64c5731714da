-- ===== src/Service/Management.antt =====
-- src/service.rs: `ensure_profile_deletable`, `execute_profile_mutation` and
-- `execute_mcp_profile_management`, which change the configuration file.
pub mod Committed
pub mod Deletion
use ssh_gateway.Prelude.{
  ℕ, Text, str, text_eq, option_eq, Bool, true, false, not, Option, none, some, List, [], ◌∷◌, ◌++◌,
  ◌==◌, if◌then◌else◌, any, keep, length, is_empty, map,
}
use ssh_gateway.Errors.{
  ArrtError, Result, ok, err, policy_denied, invalid_argument, profile_already_exists,
  profile_in_use, profile_management_disabled, config_conflict, ◌>>=◌, ◌>>◌,
}
use ssh_gateway.Json.{json, string}
use ssh_gateway.Config
use ssh_gateway.Config.{AppConfig, Profile, RiskLevelConfig}
use ssh_gateway.Protocol.{CallerType, mcp, Request, CommandResult, with_data}
use ssh_gateway.Externals.{Externals, Files}
use ssh_gateway.Policy.Engine.{PolicyEffect, PolicyDecision}
use ssh_gateway.Resolution.Auth.{Platform}
use ssh_gateway.Resolution.Validation.{validate, is_cloud}
use ssh_gateway.Resolution.Files.{
  Formats, Disk, reload_if_file_backed, profile_fingerprint, require_mutable_yaml, file_hash,
  write_yaml_atomic,
}
use ssh_gateway.Session.Manager.{SessionManager}
use ssh_gateway.Session.Views.{has_any_profile_session}
use ssh_gateway.Grant.Plans.{PlanCodec}
use ssh_gateway.Service.Action.{Action}
use ssh_gateway.Service.World.{Operations}
use ssh_gateway.Service.Decisions.{Gateway, Moments, ask_approval}

-- `dependents.join(", ")`
joined : List Text → Text
joined [] = []
joined (name ∷ []) = name
joined (name ∷ more) = name ++ (str ", " ++ joined more)

abbrev pub goes_via : Text → Profile → Bool
goes_via name p = option_eq p.via_profile (some name)

abbrev pub require : Bool → ArrtError → Result (Unit {0})
require true e = ok tt
require false e = err e

unfoldable pub ensure_profile_deletable : AppConfig → Text → Result (Unit {0})
unfolding joined Config.profile
ensure_profile_deletable config name =
    let dependents = map (λ (p : Profile). p.name) (keep (goes_via name) config.profiles) in
    Config.profile config name >>= λ _.
    require (not (length config.profiles == 1))
      (profile_in_use (str "the last configured profile cannot be deleted"))
    >> require (is_empty dependents) (
        profile_in_use
          (str "profile " ++ (name ++ (str " is referenced by " ++ joined dependents))))

in_use : Text → Result (Unit {0})
in_use name = err (profile_in_use (str "profile " ++ (name ++ str " has an active session")))

unfoldable pub require_unused : SessionManager → Text → Result (Unit {0})
unfolding in_use
require_unused sessions name = if has_any_profile_session name sessions then in_use name else ok tt

not_management : {A : Type 0} → Result A
not_management = err (invalid_argument (str "not a profile management request"))

abbrev pub added : Profile → AppConfig → AppConfig
added p config = record config { profiles = config.profiles ++ p ∷ [] }

-- `config.profiles.retain(…)`
abbrev pub removed : Text → AppConfig → AppConfig
removed name config = record config {
  profiles = keep (λ p. not (text_eq p.name name)) config.profiles;
}

unfoldable pub require_new : AppConfig → Profile → Result (Unit {0})
require_new config p =
    require (not (any (λ (q : Profile). text_eq q.name p.name) config.profiles))
      (profile_already_exists p.name)

-- The result, and the text that the file has been replaced by.
abbrev pub Mutation : Type 0
Mutation = Result CommandResult × Option Text

module _ (env : Platform) (formats : Formats) where
  -- The configuration to be written, and the answer.
  unfoldable pub candidate :
      AppConfig → SessionManager → Request → Result (AppConfig × CommandResult)
  unfolding not_management
  candidate config sessions (Request.profile_create p) = require_new config p >>= λ _.
      validate env (added p config) >>= λ _.
      ok (added p config, with_data (json ((str "created", string p.name) ∷ [])))
  candidate config sessions (Request.profile_delete name hash) =
      ensure_profile_deletable config name >>= λ _.
      profile_fingerprint env formats config name >>= λ actual.
      require (text_eq actual hash) (
        config_conflict
          (str "profile " ++ (name ++ str " changed while the mutation was being prepared")))
      >>= λ _. require_unused sessions name >>= λ _. validate env (removed name config) >>= λ _.
          ok (removed name config, with_data (json ((str "deleted", string name) ∷ [])))
  candidate config sessions _ = not_management

  unfoldable pub commit : Disk → Result (Text × AppConfig × CommandResult) → Mutation
  commit disk (err e) = (err e, none)
  commit disk (ok (expected, config, r)) =
      let (done, text) = write_yaml_atomic env formats config expected disk in (done >> ok r, text)

  -- What precedes the writing.
  unfoldable pub prepare :
      AppConfig → SessionManager → Request → Disk → Result (Text × AppConfig × CommandResult)
  unfolding candidate
  prepare config sessions request disk = do
    loaded ← reload_if_file_backed env formats config disk
    require loaded.mcp.profile_management.enabled profile_management_disabled
    require_mutable_yaml env formats loaded
    expected ← file_hash env formats loaded disk
    next ← candidate loaded sessions request
    ok (expected, next.0, next.1)

  unfoldable pub execute_profile_mutation : AppConfig → SessionManager → Request → Disk → Mutation
  unfolding commit prepare
  execute_profile_mutation config sessions request disk =
      commit disk (prepare config sessions request disk)

  -- The checks, and the request that is carried out or has to be approved.
  unfoldable pub readied : AppConfig → SessionManager → Request → Result Request
  unfolding not_management
  readied config sessions (Request.profile_create p) = require_new config p >>= λ _.
      validate env (added p config) >>= λ _. ok (Request.profile_create p)
  readied config sessions (Request.profile_delete name hash) =
      ensure_profile_deletable config name >>= λ _. require_unused sessions name >>= λ _.
      profile_fingerprint env formats config name >>= λ actual.
      ok (Request.profile_delete name actual)
  readied config sessions _ = not_management

abbrev is_mcp : CallerType → Bool
is_mcp mcp = true
is_mcp _ = false

-- The reason and the risk of an approval in Cloud mode, which has no rule.
abbrev pub cloud_review : PolicyDecision
cloud_review = record {
  effect = PolicyEffect.confirm;
  rule_id = none;
  reason = some (str "Cloud profile mutation requires human approval");
  risk = some RiskLevelConfig.high;
}

module _ {H : Type 0} (env : Platform) (ops : Operations H) (x : Externals) (y : PlanCodec)
    (formats : Formats) where
  abbrev Managed : Type 0
  Managed = Result CommandResult × Gateway H × Option Text

  on_gateway : Action (Gateway H) CommandResult → Gateway H → Managed
  on_gateway m g = ((m g).0, (m g).1, none)

  carry_out : AppConfig → CallerType → Files → Moments → Disk → Gateway H → Result Request → Managed
  unfolding on_gateway
  carry_out config caller files at disk g (err e) = (err e, g, none)
  carry_out config caller files at disk g (ok request) =
      let (r, text) = execute_profile_mutation env formats config g.world.sessions request disk in
      if is_cloud config.runtime.mode
      then on_gateway (ask_approval env ops x y config files caller none request cloud_review at) g
      else (r, g, text)

  unfoldable pub execute_mcp_profile_management :
      AppConfig → CallerType → Request → Files → Moments → Disk → Gateway H → Managed
  unfolding carry_out
  execute_mcp_profile_management config caller request files at disk g =
      carry_out config caller files at disk g (
        require (is_mcp caller) (policy_denied (str "profile management requests are MCP-only"))
        >>= λ _. require config.mcp.profile_management.enabled profile_management_disabled >>= λ _.
            require_mutable_yaml env formats config >>= λ _.
            readied env formats config g.world.sessions request)
