-- ===== src/Session/Manager.antt =====
-- src/session.rs, `SessionManager`. An operation returns its result and the manager behind it.
pub mod Closing
pub mod Reaping
use ssh_gateway.Prelude.{
  ℕ, suc, Text, str, text_eq, option_eq, Bool, true, false, not, Option, none, some, List, [], ◌∷◌,
  ◌++◌, ◌-◌, ltb, any, ◌&&◌, ◌||◌, if◌then◌else◌,
}
use ssh_gateway.Errors.{Result, ok, err, session_not_found, invalid_argument}
use ssh_gateway.Config.{DelegatedEndpoint}
use ssh_gateway.Session.Tables.{get, remove, modify}

-- A transport is a number that stands for the connection; times are seconds.
pub record SessionInfo : Type 0 where
  pub session_id : Text
  pub namespace : Text
  pub profile_name : Text
  pub transport : ℕ
  pub delegated_target : Option DelegatedEndpoint
  pub upstream_profile : Option Text
  pub owns_transport : Bool
  pub agent_path : Option Text
  pub agent_version : Option Text
  pub last_used : ℕ
  pub idle_timeout : ℕ
  pub active_operations : ℕ

-- without the handles of the task that serves the tunnel
pub record TunnelInfo : Type 0 where
  pub session_id : Text
  pub local_port : ℕ
  pub remote_host : Text
  pub remote_port : ℕ

-- without the credential store, which only the opening of sessions asks
pub record SessionManager : Type 0 where
  pub sessions : List (Text × SessionInfo)
  pub profile_index : List ((Text × Text) × Text)
  pub tunnels : List (Text × TunnelInfo)

abbrev pub in_namespace : Text → Option SessionInfo → Bool
in_namespace namespace none = false
in_namespace namespace (some s) = text_eq s.namespace namespace

abbrev pub session_of : List (Text × SessionInfo) → Option TunnelInfo → Option SessionInfo
session_of sessions none = none
session_of sessions (some t) = get t.session_id sessions

abbrev pub is_visible : Text → Text → SessionManager → Bool
is_visible namespace tunnel_id m =
    in_namespace namespace (session_of m.sessions (get tunnel_id m.tunnels))

abbrev unknown_tunnel : Text → Result TunnelInfo
unknown_tunnel tunnel_id = err (invalid_argument (str "unknown tunnel id: " ++ tunnel_id))

unfoldable pub close_found :
    Text → ℕ → Option TunnelInfo → SessionManager → Result TunnelInfo × SessionManager
close_found tunnel_id now none m = (unknown_tunnel tunnel_id, m)
close_found tunnel_id now (some t) m = (
  ok t,
  record m {
    tunnels = remove tunnel_id m.tunnels;
    sessions = modify t.session_id (λ s. record s { last_used = now }) m.sessions;
  },
)

-- The result's data are the fields of the closed tunnel.
unfoldable pub tunnel_close : Text → Text → ℕ → SessionManager → Result TunnelInfo × SessionManager
unfolding close_found
tunnel_close namespace tunnel_id now m =
    if is_visible namespace tunnel_id m
    then close_found tunnel_id now (get tunnel_id m.tunnels) m
    else (unknown_tunnel tunnel_id, m)

-- The ids of a session's tunnels.
abbrev pub tunnel_ids : Text → List (Text × TunnelInfo) → List Text
tunnel_ids session_id [] = []
tunnel_ids session_id ((id, t) ∷ tunnels) =
    if text_eq t.session_id session_id
    then id ∷ tunnel_ids session_id tunnels
    else tunnel_ids session_id tunnels

-- The loop of `close_session`; the results are dropped.
unfoldable pub close_tunnels : Text → ℕ → List Text → SessionManager → SessionManager
close_tunnels namespace now [] m = m
close_tunnels namespace now (id ∷ ids) m =
    close_tunnels namespace now ids (tunnel_close namespace id now m).1

abbrev is_key : Text → Text → Text × Text → Bool
is_key namespace profile key = text_eq key.0 namespace && text_eq key.1 profile

abbrev pub unindex : Text → Text → List ((Text × Text) × Text) → List ((Text × Text) × Text)
unindex namespace profile [] = []
unindex namespace profile ((key, id) ∷ entries) =
    if is_key namespace profile key
    then unindex namespace profile entries
    else (key, id) ∷ unindex namespace profile entries

-- The manager without the session.
abbrev pub forget : Text → SessionInfo → SessionManager → SessionManager
forget session_id s m = record m {
  sessions = remove session_id m.sessions;
  profile_index = unindex s.namespace s.profile_name m.profile_index;
}

unfoldable pub close_found_session :
    Text → Text → ℕ → Option SessionInfo → SessionManager → Result (Unit {0}) × SessionManager
unfolding close_tunnels
close_found_session namespace session_id now none m = (err (session_not_found session_id), m)
close_found_session namespace session_id now (some s) m =
    if text_eq s.namespace namespace
    then (
      ok tt,
      close_tunnels namespace now (tunnel_ids session_id m.tunnels) (forget session_id s m),
    )
    else (err (session_not_found session_id), m)

-- The disconnection of an owned transport, at the end, leaves the tables alone.
unfoldable pub close_session : Text → Text → ℕ → SessionManager → Result (Unit {0}) × SessionManager
unfolding close_found_session
close_session namespace session_id now m =
    close_found_session namespace session_id now (get session_id m.sessions) m

-- A hash map names its entries in any order, here in the list's.
abbrev pub is_other : Option Text → SessionInfo → Bool
is_other none s = false
is_other (some namespace) s = not (text_eq s.namespace namespace)

abbrev pub has_tunnel : Text → List (Text × TunnelInfo) → Bool
has_tunnel session_id = any (λ e. text_eq e.1.session_id session_id)

abbrev pub is_idle : Option Text → List (Text × TunnelInfo) → ℕ → Text → SessionInfo → Bool
is_idle namespace tunnels now id s =
    not (is_other namespace s)
    && (not (ltb 0 s.active_operations || has_tunnel id tunnels)
        && ltb s.idle_timeout (now - s.last_used))

-- `clock id` is the clock at the look at the session.
abbrev pub idle_ids :
    Option Text → List (Text × TunnelInfo) → (Text → ℕ) → List (Text × SessionInfo) → List Text
idle_ids namespace tunnels clock [] = []
idle_ids namespace tunnels clock ((id, s) ∷ sessions) =
    if is_idle namespace tunnels (clock id) id s
    then id ∷ idle_ids namespace tunnels clock sessions
    else idle_ids namespace tunnels clock sessions

close_own : Text → ℕ → Option SessionInfo → SessionManager → SessionManager
close_own session_id now none m = m
close_own session_id now (some s) m = (close_session s.namespace session_id now m).1

-- `close_all`, and the second loop of the reaping: each session is closed by its own namespace.
unfoldable pub close_each : List Text → ℕ → SessionManager → SessionManager
unfolding close_own
close_each [] now m = m
close_each (id ∷ ids) now m = close_each ids now (close_own id now (get id m.sessions) m)

unfoldable pub reap_idle_sessions_matching :
    Option Text → (Text → ℕ) → ℕ → SessionManager → SessionManager
unfolding close_each
reap_idle_sessions_matching namespace clock now m =
    close_each (idle_ids namespace m.tunnels clock m.sessions) now m

-- `saturating_sub(1)` is subtraction on ℕ.
unfoldable pub finish_exec : Text → ℕ → SessionManager → SessionManager
finish_exec session_id now m = record m {
  sessions =
      modify session_id
        (λ s. record s { active_operations = s.active_operations - 1; last_used = now }) m.sessions;
}
