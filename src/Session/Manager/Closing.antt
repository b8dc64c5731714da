-- ===== src/Session/Manager/Closing.antt =====
-- What the closing of a session changes.
use ssh_gateway.Prelude.{
  ℕ, Text, text_eq, text_eq_iff, false, Option, none, some, List, [], ◌∷◌, ◌≡◌, refl, arith, sym,
  ap, subst, All, Bool-cases, inl, inr,
}
use ssh_gateway.Errors.{ok}
use ssh_gateway.Session.Tables.{get, remove, Distinct, Distinct-get, get-remove}
use ssh_gateway.Session.Manager.{
  SessionInfo, TunnelInfo, SessionManager, is_visible, tunnel_close, tunnel_ids, close_tunnels,
  forget, close_found_session, close_session, unindex,
}

tunnel_close-hidden :
    (namespace id : Text) (now : ℕ) (m : SessionManager)
    → is_visible namespace id m ≡ false
    → (tunnel_close namespace id now m).1 ≡ m
unfolding tunnel_close
tunnel_close-hidden namespace id now m h = rw h

close_tunnels-hidden :
    (namespace : Text) (now : ℕ) (ids : List Text) (m : SessionManager)
    → All (λ id. is_visible namespace id m ≡ false) ids
    → close_tunnels namespace now ids m ≡ m
unfolding close_tunnels
close_tunnels-hidden namespace now [] m h = refl
close_tunnels-hidden namespace now (id ∷ ids) m h =
    rw (tunnel_close-hidden namespace id now m h.0) (close_tunnels-hidden namespace now ids m h.1)

-- A tunnel of a session that is not in the table is not visible.
tunnel_ids-hidden :
    (namespace session_id : Text) (m : SessionManager) (tunnels : List (Text × TunnelInfo))
    → get session_id m.sessions ≡ none
    → All (λ e. get e.0 m.tunnels ≡ some e.1) tunnels
    → All (λ id. is_visible namespace id m ≡ false) (tunnel_ids session_id tunnels)
tunnel_ids-hidden namespace session_id m [] gone found = tt
tunnel_ids-hidden namespace session_id m ((id, t) ∷ tunnels) gone found =
    let rest = tunnel_ids-hidden namespace session_id m tunnels gone found.1 in
    elim (Bool-cases (text_eq t.session_id session_id)) [
      | inl e ↦
          let same = (text_eq_iff t.session_id session_id).0 e in
          rw e (rw (found.0, same, gone), rest)
      | inr e ↦ rw e rest
    ]

pub close_found_session-ok :
    (namespace session_id : Text) (now : ℕ) (m : SessionManager) (o : Option SessionInfo)
    → Distinct m.tunnels
    → (close_found_session namespace session_id now o m).0 ≡ ok tt
    → (s : SessionInfo) × (o ≡ some s)
      × (s.namespace ≡ namespace)
      × ((close_found_session namespace session_id now o m).1 ≡ forget session_id s m)
unfolding close_found_session
close_found_session-ok namespace session_id now m none d h = absurd (cc)
close_found_session-ok namespace session_id now m (some s) d h =
    elim (Bool-cases (text_eq s.namespace namespace)) [
      | inr e ↦ absurd (ground arith)
      | inl e ↦ (
        s,
        refl,
        (text_eq_iff s.namespace namespace).0 e,
        rw e (
            close_tunnels-hidden namespace now (tunnel_ids session_id m.tunnels)
              (forget session_id s m)
              (tunnel_ids-hidden namespace session_id (forget session_id s m) m.tunnels
                (get-remove session_id m.sessions) (Distinct-get m.tunnels d))),
      )
    ]

-- A session is only closed for its own namespace. The close then removes exactly that session and
-- its place in the index: every other session and every tunnel stays, the closed session's tunnels
-- too, since each tunnel is looked up by the session that has just been removed.
pub close_session-forgets :
    (namespace session_id : Text) (now : ℕ) (m : SessionManager)
    → Distinct m.tunnels
    → (close_session namespace session_id now m).0 ≡ ok tt
    → (s : SessionInfo) × (get session_id m.sessions ≡ some s)
      × (s.namespace ≡ namespace)
      × ((close_session namespace session_id now m).1 ≡ record {
        sessions = remove session_id m.sessions;
        profile_index = unindex s.namespace s.profile_name m.profile_index;
        tunnels = m.tunnels;
      })
unfolding close_session
close_session-forgets namespace session_id now m d h =
    close_found_session-ok namespace session_id now m (get session_id m.sessions) d h

-- After the close, whoever asks to close one of the session's tunnels is told that there is no such
-- tunnel, although every tunnel is still in the table.
pub close_session-orphans :
    (namespace session_id : Text) (now : ℕ) (m : SessionManager)
    → Distinct m.tunnels
    → (close_session namespace session_id now m).0 ≡ ok tt
    → ((close_session namespace session_id now m).1.tunnels ≡ m.tunnels)
      × ((other : Text)
          → All
              (λ id. is_visible other id (close_session namespace session_id now m).1 ≡ false)
              (tunnel_ids session_id m.tunnels))
close_session-orphans namespace session_id now m d h =
    let (s, found, own, after) = close_session-forgets namespace session_id now m d h in
    (
      ap (λ (n : SessionManager). n.tunnels) after,
      λ other.
          subst
            (λ (n : SessionManager).
              All (λ id. is_visible other id n ≡ false) (tunnel_ids session_id m.tunnels))
            (sym after)
            (tunnel_ids-hidden other session_id (forget session_id s m) m.tunnels
              (get-remove session_id m.sessions) (Distinct-get m.tunnels d)),
    )
