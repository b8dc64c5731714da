-- ===== src/Policy/Engine/Admission/Exact.antt =====
-- The engine admits exactly the requests that `Admitted` describes.
use ssh_gateway.Prelude.{
  Text, Bool, true, false, Option, none, some, ◌≡◌, ◌≢◌, ◌↔◌, inl, inr, refl, arith, Bool-cases,
}
use ssh_gateway.Errors.{ArrtError, Result, ok, err, ◌>>=◌, ◌>>◌, ok-injective}
use ssh_gateway.Config
use ssh_gateway.Config.{AppConfig, Profile, AgentPolicyConfig, PolicyEffectConfig, PolicyRuleConfig}
use ssh_gateway.Protocol.{CallerType, Request, enforces_agent_policy}
use ssh_gateway.Policy.Paths.{require_path}
use ssh_gateway.Policy.Paths.Confined.{require_path-confines}
use ssh_gateway.Policy.Engine.{
  PolicyEffect, PolicyDecision, Capability, has_capability, require_capability, require_command,
  require_cwd, checked_policy, decide, decided, authorize, is_shutdown, require_tunnel,
}
use ssh_gateway.Policy.Engine.Admission.{
  RulesAdmit, PathAdmitted, CommandAdmitted, CwdAdmitted, Admitted,
}
use ssh_gateway.Policy.Engine.Admission.Checks.{
  Passes, Passes-bind, Passes-then, Passes-policy, Passes-none, Passes-err, capability_iff,
  command_iff, cwd_iff,
}

-- A request about a remote path: profile, capability, path, rules.
path_request_iff :
    (request : Request) (found : Result Profile) (c : Capability) (path : Text) (write : Bool)
    → Passes request (do
      p ← found
      require_capability p.agent_policy c
      require_path p.agent_policy path write
      ok (some p.agent_policy))
      ↔ ((p : Profile) × (found ≡ ok p)
          × (has_capability p.agent_policy c ≡ true)
          × PathAdmitted p.agent_policy path write
          × RulesAdmit p.agent_policy request)
path_request_iff request found c path write = (
  λ s.
      let (p, e, s1) = (Passes-bind request found _).0 s in
      let (a, s2) = (Passes-then request _ _).0 s1 in
      let (b, s3) = (Passes-then request _ _).0 s2 in
      (
        p,
        e,
        (capability_iff p.agent_policy c).0 a,
        (require_path-confines p.agent_policy path write).0 b,
        (Passes-policy request p.agent_policy).0 s3,
      ),
  λ (p, e, a, b, r). (Passes-bind request found _).1 (
    p,
    e,
    (Passes-then request _ _).1 (
      (capability_iff p.agent_policy c).1 a,
      (Passes-then request _ _).1 (
        (require_path-confines p.agent_policy path write).1 b,
        (Passes-policy request p.agent_policy).1 r,
      ),
    ),
  ),
)

exec_request_iff :
    (request : Request) (found : Result Profile) (command : Text) (cwd : Option Text)
    → Passes request (do
      p ← found
      require_capability p.agent_policy Capability.exec
      require_command p.agent_policy command
      require_cwd p.agent_policy cwd
      ok (some p.agent_policy))
      ↔ ((p : Profile) × (found ≡ ok p)
          × (p.agent_policy.capabilities.exec ≡ true)
          × CommandAdmitted p.agent_policy command
          × CwdAdmitted p.agent_policy cwd
          × RulesAdmit p.agent_policy request)
exec_request_iff request found command cwd = (
  λ s.
      let (p, e, s1) = (Passes-bind request found _).0 s in
      let (a, s2) = (Passes-then request _ _).0 s1 in
      let (b, s3) = (Passes-then request _ _).0 s2 in
      let (c, s4) = (Passes-then request _ _).0 s3 in
      (
        p,
        e,
        (capability_iff p.agent_policy Capability.exec).0 a,
        (command_iff p.agent_policy command).0 b,
        (cwd_iff p.agent_policy cwd).0 c,
        (Passes-policy request p.agent_policy).0 s4,
      ),
  λ (p, e, a, b, c, r). (Passes-bind request found _).1 (
    p,
    e,
    (Passes-then request _ _).1 (
      (capability_iff p.agent_policy Capability.exec).1 a,
      (Passes-then request _ _).1 (
        (command_iff p.agent_policy command).1 b,
        (Passes-then request _ _).1
            ((cwd_iff p.agent_policy cwd).1 c, (Passes-policy request p.agent_policy).1 r),
      ),
    ),
  ),
)

tunnel_request_iff :
    (request : Request) (config : AppConfig) (name : Text)
    → Passes request (require_tunnel config name) ↔ (
        (p : Profile) × (Config.profile config name ≡ ok p)
        × (p.agent_policy.capabilities.tunnel ≡ true))
unfolding require_tunnel
tunnel_request_iff request config name = (
  λ s.
      let (p, e, s1) = (Passes-bind request (Config.profile config name) _).0 s in
      (
        p,
        e,
        (capability_iff p.agent_policy Capability.tunnel).0 ((Passes-then request _ _).0 s1).0,
      ),
  λ (p, e, a). (Passes-bind request (Config.profile config name) _).1 (
    p,
    e,
    (Passes-then request _ _).1
        ((capability_iff p.agent_policy Capability.tunnel).1 a, Passes-none request),
  ),
)

refused : (request : Request) (e : ArrtError) → Passes request (err e) ↔ ⊥
refused request e = (Passes-err request e, λ h. absurd h)

passed : (request : Request) → Passes request (ok none) ↔ Unit {0}
passed request = (λ h. tt, λ h. Passes-none request)

checked_policy-Admitted :
    (config : AppConfig) (request : Request)
    → is_shutdown request ≡ false
    → Passes request (checked_policy config request) ↔ Admitted config request
unfolding checked_policy
checked_policy-Admitted config (Request.exec name command cwd timeout env) h =
    exec_request_iff _ (Config.profile config name) command cwd
checked_policy-Admitted config (Request.read name path) h =
    path_request_iff _ (Config.profile config name) Capability.read path false
checked_policy-Admitted config (Request.write name path mode content) h =
    path_request_iff _ (Config.profile config name) Capability.write path true
checked_policy-Admitted config (Request.upload name src dst) h =
    path_request_iff _ (Config.profile config name) Capability.upload dst true
checked_policy-Admitted config (Request.download name src dst) h =
    path_request_iff _ (Config.profile config name) Capability.download src false
checked_policy-Admitted config (Request.tunnel_open name local_port remote_host remote_port) h =
    tunnel_request_iff _ config name
checked_policy-Admitted config (Request.tunnel_close tunnel_id none) h = refused _ _
checked_policy-Admitted config (Request.tunnel_close tunnel_id (some name)) h =
    tunnel_request_iff _ config name
checked_policy-Admitted config Request.approval_list h = refused _ _
checked_policy-Admitted config (Request.approval_show id) h = refused _ _
checked_policy-Admitted config (Request.approval_approve id ttl task uses) h = refused _ _
checked_policy-Admitted config (Request.approval_reject id) h = refused _ _
checked_policy-Admitted config Request.approval_cleanup h = refused _ _
checked_policy-Admitted config Request.grant_list h = refused _ _
checked_policy-Admitted config (Request.grant_show id) h = refused _ _
checked_policy-Admitted config (Request.grant_revoke id) h = refused _ _
checked_policy-Admitted config Request.grant_cleanup h = refused _ _
checked_policy-Admitted config Request.plan_list h = refused _ _
checked_policy-Admitted config (Request.plan_show id) h = refused _ _
checked_policy-Admitted config (Request.plan_approve id) h = refused _ _
checked_policy-Admitted config (Request.plan_reject id) h = refused _ _
checked_policy-Admitted config (Request.profile_create p) h = refused _ _
checked_policy-Admitted config (Request.profile_delete name hash) h = refused _ _
checked_policy-Admitted config Request.shutdown h = absurd (cc)
checked_policy-Admitted config _ h = passed _

shutdown_only : (request : Request) → is_shutdown request ≡ true → request ≡ Request.shutdown
shutdown_only Request.shutdown h = refl
shutdown_only _ h = cc

decided-Passes :
    (request : Request) (checked : Result (Option AgentPolicyConfig))
    → ((d : PolicyDecision) × (decided request checked ≡ ok d) × (d.effect ≢ PolicyEffect.deny))
      ↔ Passes request checked
unfolding decided Passes
decided-Passes request (ok o) = (
  λ (d, e, n). (o, refl, rw (ok-injective e) n),
  λ (x, e, n). (decide o request, refl, rw (ok-injective e) n),
)
decided-Passes request (err e) = (λ (d, h, n). absurd (cc), λ (o, h, n). absurd (cc))

-- For a caller held to the agent policy, `authorize` answers with something other than a denial
-- exactly when the request is admitted: its profile exists, the capability is on, the command and
-- the paths are allowed, the first rule that covers it does not deny, and administration is refused.
pub authorize-admits :
    (config : AppConfig) (caller : CallerType) (request : Request)
    → enforces_agent_policy caller ≡ true
    → ((d : PolicyDecision) × (authorize config caller request ≡ ok d)
        × (d.effect ≢ PolicyEffect.deny))
      ↔ Admitted config request
authorize-admits config caller request held = elim (Bool-cases (is_shutdown request)) [
  | inl stop ↦
      rw (shutdown_only request stop)
        (λ (d, e, n). absurd (unfold authorize in ground arith), λ h. absurd h)
  | inr go ↦
      let run : authorize config caller request ≡ decided request (checked_policy config request) =
        unfold authorize in ground arith in
      let law = checked_policy-Admitted config request go in
      let step = decided-Passes request (checked_policy config request) in
      rw run (λ h. law.0 (step.0 h), λ h. step.1 (law.1 h))
]
