-- ===== src/Samples/Sessions.antt =====
-- Sessions and tunnels: src/session.rs.
use ssh_gateway.Prelude.{
  Text, str, text_eq, true, false, none, some, [], ◌∷◌, ◌≡◌, inl, inr, refl, All,
}
use ssh_gateway.Errors.{ok}
use ssh_gateway.Session.Tables.{get, remove}
use ssh_gateway.Session.Manager.{
  SessionInfo, TunnelInfo, SessionManager, close_session, close_found_session, is_visible,
  tunnel_ids, unindex, reap_idle_sessions_matching, has_tunnel,
}
use ssh_gateway.Session.Manager.Closing.{close_session-forgets, close_session-orphans}
use ssh_gateway.Session.Manager.Reaping.{reap-spares}

abbrev web_session : SessionInfo
web_session = record {
  session_id = str "s1";
  namespace = str "n";
  profile_name = str "web";
  transport = 7;
  delegated_target = none;
  upstream_profile = none;
  owns_transport = true;
  agent_path = none;
  agent_version = none;
  last_used = 100;
  idle_timeout = 900;
  active_operations = 0;
}

abbrev tunnel : TunnelInfo
tunnel = record {
  session_id = str "s1";
  local_port = 8080;
  remote_host = str "db";
  remote_port = 5432;
}

abbrev manager : SessionManager
manager = record {
  sessions = (str "s1", web_session) ∷ [];
  profile_index = ((str "n", str "web"), str "s1") ∷ [];
  tunnels = (str "t1", tunnel) ∷ [];
}

closed : (close_session (str "n") (str "s1") 200 manager).0 ≡ ok tt
unfolding close_session close_found_session text_eq str
closed = refl

close_session-forgets_example :
    (s : SessionInfo) × (get (str "s1") manager.sessions ≡ some s)
    × (s.namespace ≡ str "n")
    × ((close_session (str "n") (str "s1") 200 manager).1 ≡ record {
      sessions = remove (str "s1") manager.sessions;
      profile_index = unindex s.namespace s.profile_name manager.profile_index;
      tunnels = manager.tunnels;
    })
close_session-forgets_example =
    close_session-forgets (str "n") (str "s1") 200 manager (tt, tt) closed

close_session-orphans_example :
    ((close_session (str "n") (str "s1") 200 manager).1.tunnels ≡ manager.tunnels)
    × ((other : Text)
        → All
            (λ id. is_visible other id (close_session (str "n") (str "s1") 200 manager).1 ≡ false)
            (tunnel_ids (str "s1") manager.tunnels))
close_session-orphans_example =
    close_session-orphans (str "n") (str "s1") 200 manager (tt, tt) closed

web_found : get (str "s1") manager.sessions ≡ some web_session
unfolding text_eq str
web_found = refl

web_tunnelled : has_tunnel (str "s1") manager.tunnels ≡ true
unfolding text_eq str
web_tunnelled = refl

reap-spares_example :
    get (str "s1") (reap_idle_sessions_matching none (λ id. 5000) 5000 manager).sessions
    ≡ some web_session
reap-spares_example =
    reap-spares none (λ id. 5000) 5000 manager (str "s1") web_session (tt, tt) (tt, tt) web_found
      (inr (inl web_tunnelled))
