-- ===== src/Service/Management/Committed.antt =====
-- What a change of the configuration file rests on.
use ssh_gateway.Prelude.{
  Text, text_eq, text_eq_iff, option_eq_iff, Bool, true, false, not, some, List, [], ◌∷◌, ◌≡◌, ◌≢◌,
  refl, ap, ◌∙◌, subst, inl, inr, Bool-cases, arith, keep, map, length, All, any, is_empty, ◌==◌,
}
use ssh_gateway.Errors.{ArrtError, Result, ok, err, ok-injective, >>=-eq-ok, >>-eq-ok}
use ssh_gateway.Config
use ssh_gateway.Config.{AppConfig, Profile}
use ssh_gateway.Protocol.{CallerType, human_cli, agent_cli, mcp, Request, CommandResult}
use ssh_gateway.Externals.{Externals, Files}
use ssh_gateway.Grant.Plans.{PlanCodec}
use ssh_gateway.Resolution.Auth.{Platform}
use ssh_gateway.Resolution.Validation.{validate, is_cloud}
use ssh_gateway.Resolution.Profiles.Removal.{Unreferenced}
use ssh_gateway.Resolution.Files.{
  Formats, Disk, reload_if_file_backed, profile_fingerprint, require_mutable_yaml, file_hash,
}
use ssh_gateway.Resolution.Files.Committed.{Exchanged, write_yaml_atomic-Exchanged}
use ssh_gateway.Session.Manager.{SessionManager}
use ssh_gateway.Session.Views.{has_any_profile_session}
use ssh_gateway.Service.Management.{
  require, goes_via, ensure_profile_deletable, require_unused, require_new, not_management, added,
  removed, candidate, commit, prepare, execute_profile_mutation, is_mcp, readied, on_gateway,
  carry_out, execute_mcp_profile_management,
}
use ssh_gateway.Service.World.{Operations}
use ssh_gateway.Service.Decisions.{Gateway, Moments}

require-ok : (b : Bool) (e : ArrtError) → require b e ≡ ok tt → b ≡ true
require-ok true e h = refl
require-ok false e h = absurd (cc)

not-true : {b : Bool} → not b ≡ true → b ≡ false
not-true {b} h = ground arith

not_any-All :
    (name : Text) (ps : List Profile)
    → any (λ q. text_eq q.name name) ps ≡ false
    → All (λ q. q.name ≢ name) ps
not_any-All name [] h = tt
not_any-All name (p ∷ ps) h = (
  λ same. ground (arith, (text_eq_iff p.name name).1 same, h),
  not_any-All name ps (ground arith),
)

no_dependents-Unreferenced :
    (name : Text) (ps : List Profile)
    → is_empty (map (λ (p : Profile). p.name) (keep (goes_via name) ps)) ≡ true
    → All (λ p. p.via_profile ≢ some name) ps
no_dependents-Unreferenced name [] h = tt
no_dependents-Unreferenced name (p ∷ ps) h = elim (Bool-cases (goes_via name p)) [
  | inl e ↦ absurd (ground (arith, rw e at h))
  | inr e ↦ (
    λ same. ground (arith, (option_eq_iff p.via_profile (some name)).1 same, e),
    no_dependents-Unreferenced name ps (rw e at h),
  )
]

pub ensure_profile_deletable-ok :
    (config : AppConfig) (name : Text)
    → ensure_profile_deletable config name ≡ ok tt
    → Unreferenced name config × (length config.profiles ≢ 1)
unfolding ensure_profile_deletable
ensure_profile_deletable-ok config name h =
    let (p, f, checked) = >>=-eq-ok (Config.profile config name) _ h in
    let (several, free) = >>-eq-ok (require (not (length config.profiles == 1)) _) _ checked in
    (
      no_dependents-Unreferenced name config.profiles (require-ok _ _ free),
      λ one. ground (arith, require-ok _ _ several, one),
    )

require_unused-ok :
    (sessions : SessionManager) (name : Text)
    → require_unused sessions name ≡ ok tt
    → has_any_profile_session name sessions ≡ false
unfolding require_unused
require_unused-ok sessions name h = ground arith

is_mcp-eq : (caller : CallerType) → is_mcp caller ≡ true → caller ≡ mcp
is_mcp-eq mcp h = refl
is_mcp-eq human_cli h = absurd (cc)
is_mcp-eq agent_cli h = absurd (cc)

module _ (env : Platform) (formats : Formats) where
  -- The new configuration is the old one with a profile of a new name, or without a profile that
  -- has the approved content, that nothing uses or goes via and that is not the last one.
  pub data Alters (config : AppConfig) (sessions : SessionManager)
      : Request → AppConfig → Type 0 where
    adds :
        (p : Profile)
        → All (λ q. q.name ≢ p.name) config.profiles
        → Alters config sessions (Request.profile_create p) (added p config)
    removes :
        (name hash : Text)
        → Unreferenced name config
        → length config.profiles ≢ 1
        → profile_fingerprint env formats config name ≡ ok hash
        → has_any_profile_session name sessions ≡ false
        → Alters config sessions (Request.profile_delete name hash) (removed name config)

  candidate-Alters :
      (config : AppConfig) (sessions : SessionManager) (request : Request)
      {next : AppConfig × CommandResult}
      → candidate env formats config sessions request ≡ ok next
      → Alters config sessions request next.0 × (validate env next.0 ≡ ok tt)
  unfolding candidate require_new not_management
  candidate-Alters config sessions (Request.profile_create p) {next} h =
      let (fresh, g) = >>-eq-ok (require_new config p) _ h in
      let (valid, k) = >>-eq-ok (validate env (added p config)) _ g in
      let new : All (λ (q : Profile). q.name ≢ p.name) config.profiles =
        not_any-All p.name config.profiles (not-true (require-ok _ _ fresh)) in
      subst
        (λ (c : AppConfig).
          Alters config sessions (Request.profile_create p) c × (validate env c ≡ ok tt))
        (ap (λ (r : AppConfig × CommandResult). r.0) (ok-injective k)) (adds p new, valid)
  candidate-Alters config sessions (Request.profile_delete name hash) {next} h =
      let (deletable, g) = >>-eq-ok (ensure_profile_deletable config name) _ h in
      let (actual, f, k) = >>=-eq-ok (profile_fingerprint env formats config name) _ g in
      let (same, l) = >>-eq-ok (require (text_eq actual hash) _) _ k in
      let (unused, m) = >>-eq-ok (require_unused sessions name) _ l in
      let (valid, n) = >>-eq-ok (validate env (removed name config)) _ m in
      let (free, several) = ensure_profile_deletable-ok config name deletable in
      let hash_is = f ∙ ap ok ((text_eq_iff actual hash).0 (require-ok _ _ same)) in
      subst
        (λ (c : AppConfig).
          Alters config sessions (Request.profile_delete name hash) c × (validate env c ≡ ok tt))
        (ap (λ (r : AppConfig × CommandResult). r.0) (ok-injective n))
        (removes name hash free several hash_is (require_unused-ok sessions name unused), valid)
  candidate-Alters config sessions _ h = absurd (cc)

  commit-text :
      (disk : Disk) (r : Result (Text × AppConfig × CommandResult)) {text : Text}
      → (commit env formats disk r).1 ≡ some text
      → (expected : Text) × (c : AppConfig) × (result : CommandResult) × (r
          ≡ ok (expected, c, result))
        × Exchanged formats c expected disk text
  unfolding commit
  commit-text disk (err e) h = absurd (cc)
  commit-text disk (ok r) {text} h =
      (r.0, r.1, r.2, refl, write_yaml_atomic-Exchanged env formats r.1 r.0 disk text h)

  pub record Change (config : AppConfig) (sessions : SessionManager) (request : Request)
      (disk : Disk) (text : Text) : Type 0 where
    pub loaded : AppConfig
    pub loaded_is : reload_if_file_backed env formats config disk ≡ ok loaded
    pub enabled : loaded.mcp.profile_management.enabled ≡ true
    pub mutable : require_mutable_yaml env formats loaded ≡ ok tt
    pub next : AppConfig
    pub altered : Alters loaded sessions request next
    pub valid : validate env next ≡ ok tt
    pub expected : Text
    pub hash_is : file_hash env formats loaded disk ≡ ok expected
    pub exchanged : Exchanged formats next expected disk text

  -- Where a mutation writes a text, profile management is enabled in the configuration that was
  -- reloaded and its file may be written; the text is the print of a valid configuration that has one
  -- profile more, of a new name, or lacks one profile that has the expected fingerprint, is not the
  -- last, and that no other profile and no session uses; and both readings of the file before the
  -- renaming have the hash of the one that was loaded.
  pub execute_profile_mutation-Change :
      (config : AppConfig) (sessions : SessionManager) (request : Request) (disk : Disk)
      (text : Text)
      → (execute_profile_mutation env formats config sessions request disk).1 ≡ some text
      → Change config sessions request disk text
  unfolding execute_profile_mutation prepare
  execute_profile_mutation-Change config sessions request disk text h =
      let (expected, c, result, e, x) = commit-text disk _ h in
      let (loaded, l, a) = >>=-eq-ok (reload_if_file_backed env formats config disk) _ e in
      let (on, b) = >>-eq-ok (require loaded.mcp.profile_management.enabled _) _ a in
      let (mutable, d) = >>-eq-ok (require_mutable_yaml env formats loaded) _ b in
      let (hash, f, i) = >>=-eq-ok (file_hash env formats loaded disk) _ d in
      let (next, j, k) = >>=-eq-ok (candidate env formats loaded sessions request) _ i in
      let (altered, valid) = candidate-Alters loaded sessions request {next = next} j in
      let same = ok-injective k in
      let config_is = ap (λ (r : Text × AppConfig × CommandResult). r.1) same in
      record {
        loaded = loaded;
        loaded_is = l;
        enabled = require-ok loaded.mcp.profile_management.enabled _ on;
        mutable = mutable;
        next = c;
        altered = subst (Alters loaded sessions request) config_is altered;
        valid = subst (λ (c : AppConfig). validate env c ≡ ok tt) config_is valid;
        expected = expected;
        hash_is = f ∙ ap ok (ap (λ (r : Text × AppConfig × CommandResult). r.0) same);
        exchanged = x;
      }

module _ {H : Type 0} (env : Platform) (ops : Operations H) (x : Externals) (y : PlanCodec)
    (formats : Formats) where
  carry_out-text :
      (config : AppConfig) (caller : CallerType) (files : Files) (at : Moments) (disk : Disk)
      (g : Gateway H) (r : Result Request) {text : Text}
      → (carry_out env ops x y formats config caller files at disk g r).2 ≡ some text
      → (request : Request) × (r ≡ ok request)
        × (is_cloud config.runtime.mode ≡ false)
        × Change env formats config g.world.sessions request disk text
  unfolding carry_out on_gateway
  carry_out-text config caller files at disk g (err e) h = absurd (cc)
  carry_out-text config caller files at disk g (ok request) {text} h =
      elim (Bool-cases (is_cloud config.runtime.mode)) [
        | inl e ↦ absurd (cc (rw e at h))
        | inr e ↦ (
          request,
          refl,
          e,
          execute_profile_mutation-Change env formats config g.world.sessions request disk text
              (rw e at h),
        )
      ]

  -- Where a request to manage profiles writes the file, the caller is the MCP server, this is enabled
  -- and the runtime is not Cloud, and what is written is a change as below, for the request that the
  -- checks before have readied.
  pub execute_mcp_profile_management-Change :
      (config : AppConfig) (caller : CallerType) (request : Request) (files : Files) (at : Moments)
      (disk : Disk) (g : Gateway H) (text : Text)
      → (execute_mcp_profile_management env ops x y formats config caller request files at disk g).2
        ≡ some text
      → (caller ≡ mcp)
        × (config.mcp.profile_management.enabled ≡ true)
        × (is_cloud config.runtime.mode ≡ false)
        × (r : Request) × (readied env formats config g.world.sessions request ≡ ok r)
        × Change env formats config g.world.sessions r disk text
  unfolding execute_mcp_profile_management
  execute_mcp_profile_management-Change config caller request files at disk g text h =
      let (r, e, self_hosted, change) =
        carry_out-text config caller files at disk g _ {text = text} h in
      let (by_mcp, a) = >>-eq-ok (require (is_mcp caller) _) _ e in
      let (enabled, b) = >>-eq-ok (require config.mcp.profile_management.enabled _) _ a in
      let (mutable, c) = >>-eq-ok (require_mutable_yaml env formats config) _ b in
      (is_mcp-eq caller (require-ok _ _ by_mcp), require-ok _ _ enabled, self_hosted, r, c, change)
