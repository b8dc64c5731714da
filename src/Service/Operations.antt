-- ===== src/Service/Operations.antt =====
-- src/service.rs, `execute_authorized` and what it calls: a request that may run.
use ssh_gateway.Prelude.{
  Text, str, option_eq, Bool, true, false, not, Option, none, some, List, [], ◌∷◌, ◌++◌, ◌&&◌,
  if◌then◌else◌, length, map,
}
use ssh_gateway.Errors.{Result, ok, err, policy_denied, invalid_argument, relative_local_path}
use ssh_gateway.Json.{Value, json, json_array, string, boolean, number}
use ssh_gateway.Config
use ssh_gateway.Config.{AppConfig, Profile}
use ssh_gateway.Protocol.{CallerType, enforces_agent_policy, Request, CommandResult, with_data}
use ssh_gateway.Resolution.Auth.{Platform}
use ssh_gateway.Resolution.Validation.{is_cloud, validate}
use ssh_gateway.Session.Manager.{
  SessionManager, TunnelInfo, close_session, tunnel_close, close_each, reap_idle_sessions_matching,
  finish_exec,
}
use ssh_gateway.Session.Views.{sessions_json, session_json, tunnel_profile}
use ssh_gateway.Service.Action.{Action, ◌>>=◌, ◌>>◌, pure, fail, lift, attempt, gets, modify}
use ssh_gateway.Service.World.{World, Operations, Readings}

roots_of : Bool → Result Profile → Result (List Text)
roots_of write (err e) = err e
roots_of true (ok p) = ok p.agent_policy.allowed_write_paths
roots_of false (ok p) = ok p.agent_policy.allowed_read_paths

-- `allowed_remote_paths`
unfoldable pub allowed_remote_paths : AppConfig → CallerType → Text → Bool → Result (List Text)
unfolding roots_of
allowed_remote_paths config caller profile write =
    if not (enforces_agent_policy caller)
    then ok []
    else roots_of write (Config.profile config profile)

-- `absolute_local_path` of src/session.rs
unfoldable pub absolute_local_path : Platform → Text → Text → Result Text
absolute_local_path env path argument =
    if env.is_absolute path
    then ok path
    else err (
        relative_local_path (
          argument
          ++ str
              " must be absolute; resolve it against the CLI caller's current directory before sending the RPC request"))

abbrev pub is_tunnel : Request → Bool
is_tunnel (Request.tunnel_open profile local_port remote_host remote_port) = true
is_tunnel (Request.tunnel_close id profile) = true
is_tunnel _ = false

module _ {H : Type 0} (env : Platform) (ops : Operations H) where
  on_sessions : (SessionManager → SessionManager) → Action (World H) (Unit {0})
  on_sessions f = modify (λ w. record w { sessions = f w.sessions })

  -- `reap_idle_sessions`
  reap : Text → Readings → Action (World H) (Unit {0})
  unfolding on_sessions
  reap namespace at = on_sessions (reap_idle_sessions_matching (some namespace) at.looks at.now)

  summarize_policies : List Profile → Value
  summarize_policies profiles = json (
      (
        str "policies",
        json_array (
            map
              (λ (p : Profile). json (
                (str "profile", string p.name)
                ∷ (str "agent_policy", ops.policy_json p.agent_policy)
                ∷ []))
              profiles),
      )
      ∷ [])

  validated : AppConfig → Option Text → Action (World H) CommandResult
  validated config none =
      lift (validate env config)
      >> pure (
          with_data (
            json (
              (str "valid", boolean true)
              ∷ (str "profiles", number (length config.profiles))
              ∷ [])))
  validated config (some name) =
      lift (validate env config)
      >> (lift (Config.profile config name) >>= λ (p : Profile).
          pure
            (with_data (json ((str "valid", boolean true) ∷ (str "profile", string p.name) ∷ []))))

  policies : AppConfig → Option Text → Action (World H) CommandResult
  unfolding summarize_policies
  policies config none = pure (with_data (summarize_policies config.profiles))
  policies config (some name) =
      lift (Config.profile config name) >>= λ p. pure (with_data (summarize_policies (p ∷ [])))

  -- The result is returned, an error too, behind the end of the operation.
  run_exec : Request → Readings → Text → Action (World H) CommandResult
  unfolding on_sessions
  run_exec request at id = attempt (ops.execute_prepared_exec id request) >>= λ result.
      on_sessions (finish_exec id at.now) >> lift result

  closed_tunnel : Text → TunnelInfo → CommandResult
  closed_tunnel id t = with_data (
      json (
        (str "closed", string id)
        ∷ (str "local_port", number t.local_port)
        ∷ (str "remote_host", string t.remote_host)
        ∷ (str "remote_port", number t.remote_port)
        ∷ []))

  close_tunnel : Text → Text → Readings → Action (World H) CommandResult
  unfolding closed_tunnel
  close_tunnel namespace id at w =
      let (r, m) = tunnel_close namespace id at.now w.sessions in
      (lift r >>= λ t. pure (closed_tunnel id t)) (record w { sessions = m })

  close_checked : Text → Text → Option Text → Readings → Action (World H) CommandResult
  unfolding close_tunnel
  close_checked namespace id none at w = close_tunnel namespace id at w
  close_checked namespace id (some expected) at w =
      if option_eq (tunnel_profile namespace id w.sessions) (some expected)
      then close_tunnel namespace id at w
      else fail (policy_denied (str "tunnel does not belong to the supplied profile")) w

  close_one : Text → Text → Readings → Action (World H) CommandResult
  close_one namespace id at w =
      let (r, m) = close_session namespace id at.now w.sessions in
      (lift r >> pure (with_data (json ((str "closed", string id) ∷ []))))
        (record w { sessions = m })

  misplaced_approval : Action (World H) CommandResult
  misplaced_approval = fail (invalid_argument (str "approval request reached operation executor"))

  misplaced : Action (World H) CommandResult
  misplaced =
      fail (invalid_argument (str "authorization administration reached operation executor"))

  -- The `match` of `execute_authorized`.
  unfoldable pub run_request :
      AppConfig → CallerType → Text → Readings → Request → Action (World H) CommandResult
  unfolding reap validated policies run_exec close_checked close_one on_sessions misplaced
      misplaced_approval
  run_request config caller namespace at Request.ping = pure (
      with_data
        (json ((str "status", string (str "ok")) ∷ (str "version", string ops.version) ∷ [])))
  run_request config caller namespace at Request.shutdown =
      on_sessions (λ m. close_each (map (λ (e : Text × _). e.0) m.sessions) at.now m)
      >> pure (with_data (json ((str "status", string (str "stopping")) ∷ [])))
  run_request config caller namespace at Request.profile_list = pure (
      with_data (
        json (
          (str "profiles", json_array (map (λ (p : Profile). string p.name) config.profiles))
          ∷ [])))
  run_request config caller namespace at (Request.profile_show name) =
      lift (ops.profile_summary config name) >>= λ v. pure (with_data v)
  run_request config caller namespace at (Request.profile_validate name) = validated config name
  run_request config caller namespace at (Request.profile_policy name) = policies config name
  run_request config caller namespace at (Request.profile_create p) =
      fail (policy_denied (str "profile management requests must use the MCP management tools"))
  run_request config caller namespace at (Request.profile_delete name hash) =
      fail (policy_denied (str "profile management requests must use the MCP management tools"))
  run_request config caller namespace at (Request.exec profile command cwd timeout vars) =
      reap namespace at
      >> (ops.prepare_exec config namespace profile command cwd timeout vars
          >>= run_exec (Request.exec profile command cwd timeout vars) at)
  run_request config caller namespace at (Request.read profile path) =
      lift (allowed_remote_paths config caller profile false) >>= λ roots.
      reap namespace at >> ops.read config namespace profile path roots
  run_request config caller namespace at (Request.write profile path mode content) =
      lift (allowed_remote_paths config caller profile true) >>= λ roots.
      reap namespace at >> ops.write config namespace profile path mode content roots
  run_request config caller namespace at (Request.upload profile src dst) =
      lift (absolute_local_path env src (str "upload src")) >>= λ _.
      lift (allowed_remote_paths config caller profile true) >>= λ roots.
      reap namespace at >> ops.upload config namespace profile src dst roots
  run_request config caller namespace at (Request.download profile src dst) =
      lift (absolute_local_path env dst (str "download dst")) >>= λ _.
      lift (allowed_remote_paths config caller profile false) >>= λ roots.
      reap namespace at >> ops.download config namespace profile src dst roots
  run_request config caller namespace at
        (Request.tunnel_open profile local_port remote_host remote_port) =
      reap namespace at
      >> ops.tunnel_open config namespace profile local_port remote_host remote_port
  run_request config caller namespace at (Request.tunnel_close id profile) =
      close_checked namespace id profile at
  run_request config caller namespace at Request.session_list =
      gets (λ w. with_data (json ((str "sessions", sessions_json namespace w.sessions) ∷ [])))
  run_request config caller namespace at (Request.session_inspect id) =
      gets (λ w. session_json namespace id w.sessions) >>= λ r.
      lift r >>= λ v. pure (with_data (json ((str "session", v) ∷ [])))
  run_request config caller namespace at (Request.session_close id) = close_one namespace id at
  run_request config caller namespace at Request.approval_list = misplaced_approval
  run_request config caller namespace at (Request.approval_show id) = misplaced_approval
  run_request config caller namespace at (Request.approval_approve id ttl task uses) =
      misplaced_approval
  run_request config caller namespace at (Request.approval_reject id) = misplaced_approval
  run_request config caller namespace at Request.approval_cleanup = misplaced_approval
  run_request config caller namespace at Request.grant_list = misplaced
  run_request config caller namespace at (Request.grant_show id) = misplaced
  run_request config caller namespace at (Request.grant_revoke id) = misplaced
  run_request config caller namespace at Request.grant_cleanup = misplaced
  run_request config caller namespace at (Request.plan_propose profile task actions) = misplaced
  run_request config caller namespace at Request.plan_list = misplaced
  run_request config caller namespace at (Request.plan_show id) = misplaced
  run_request config caller namespace at (Request.plan_approve id) = misplaced
  run_request config caller namespace at (Request.plan_reject id) = misplaced

  unfoldable pub execute_authorized :
      AppConfig → CallerType → Text → Readings → Request → Action (World H) CommandResult
  unfolding run_request
  execute_authorized config caller namespace at request =
      if is_cloud config.runtime.mode && is_tunnel request
      then fail (policy_denied (str "Cloud runtime disables SSH tunnels"))
      else run_request config caller namespace at request
