-- ===== src/Session/Views.antt =====
-- src/session.rs: what is shown of sessions and tunnels, by namespace.
use ssh_gateway.Prelude.{
  Text, str, text_eq, option_eq, Bool, true, Option, none, some, List, [], ◌∷◌, ◌&&◌, ◌||◌,
  if◌then◌else◌, any, is_some,
}
use mathlib.Core.Option
use ssh_gateway.Errors.{Result, ok, err, session_not_found}
use ssh_gateway.Json.{Value, null, boolean, number, string, json, json_array, or_null}
use ssh_gateway.Config.{DelegatedEndpoint}
use ssh_gateway.Session.Tables.{get}
use ssh_gateway.Session.Manager.{SessionInfo, SessionManager, session_of}

abbrev target_json : Option DelegatedEndpoint → Value
target_json none = null
target_json (some t) =
    json
      ((str "host", string t.host) ∷ (str "user", string t.user) ∷ (str "port", number t.port) ∷ [])

-- The transport's name is `TRANSPORT_NAME` of src/ssh.rs.
unfoldable pub session_summary : SessionInfo → Value
session_summary s = json (
    (str "session_id", string s.session_id)
    ∷ (str "profile", string s.profile_name)
    ∷ (str "transport", string (str "embedded_ssh"))
    ∷ (str "upstream_profile", or_null s.upstream_profile)
    ∷ (str "delegated_target", target_json s.delegated_target)
    ∷ (str "reused", boolean true)
    ∷ (str "agent_path", or_null s.agent_path)
    ∷ (str "agent_version", or_null s.agent_version)
    ∷ (str "agent_ready", boolean (is_some s.agent_path && is_some s.agent_version))
    ∷ [])

-- The summaries of a namespace's sessions, in the list's order.
unfoldable pub summaries : Text → List (Text × SessionInfo) → List Value
summaries namespace [] = []
summaries namespace ((id, s) ∷ sessions) =
    if text_eq s.namespace namespace
    then session_summary s ∷ summaries namespace sessions
    else summaries namespace sessions

unfoldable pub sessions_json : Text → SessionManager → Value
unfolding summaries
sessions_json namespace m = json_array (summaries namespace m.sessions)

-- `.filter(|session| session.namespace == namespace)`
abbrev pub within : Text → Option SessionInfo → Option SessionInfo
within namespace none = none
within namespace (some s) = if text_eq s.namespace namespace then some s else none

shown : Text → Option SessionInfo → Result Value
shown id none = err (session_not_found id)
shown id (some s) = ok (session_summary s)

unfoldable pub session_json : Text → Text → SessionManager → Result Value
unfolding shown
session_json namespace id m = shown id (within namespace (get id m.sessions))

unfoldable pub tunnel_profile : Text → Text → SessionManager → Option Text
tunnel_profile namespace tunnel_id m =
    Option.map (λ (s : SessionInfo). s.profile_name)
      (within namespace (session_of m.sessions (get tunnel_id m.tunnels)))

abbrev pub uses_profile : Text → SessionInfo → Bool
uses_profile profile s =
    text_eq s.profile_name profile || option_eq s.upstream_profile (some profile)

unfoldable pub has_any_profile_session : Text → SessionManager → Bool
has_any_profile_session profile m = any (λ e. uses_profile profile e.1) m.sessions
