-- ===== src/Session/Manager/Reaping.antt =====
-- Which sessions the reaping spares.
use ssh_gateway.Prelude.{
  ℕ, Text, text_eq, text_eq_iff, text_eq_refl, true, false, Option, none, some, List, [], ◌∷◌, ◌≡◌,
  ◌⊎◌, ◌<◌, ◌≤◌, ◌+◌, refl, arith, sym, ap, subst, ◌∙◌, All, Bool-cases, inl, inr,
}
use ssh_gateway.Session.Tables.{get, Distinct, Distinct-get, get-remove_other}
use ssh_gateway.Session.Manager.{
  SessionInfo, TunnelInfo, SessionManager, forget, close_session, close_found_session, close_own,
  close_each, has_tunnel, is_idle, idle_ids, reap_idle_sessions_matching,
}
use ssh_gateway.Session.Manager.Closing.{close_found_session-ok}

close_session-own :
    (session_id : Text) (now : ℕ) (m : SessionManager) (s : SessionInfo)
    → Distinct m.tunnels
    → get session_id m.sessions ≡ some s
    → (close_session s.namespace session_id now m).1 ≡ forget session_id s m
unfolding close_session close_found_session
close_session-own session_id now m s d h =
    let (t, e, own, after) =
      close_found_session-ok s.namespace session_id now m (some s) d
        (rw (text_eq_refl s.namespace) refl) in
    ap (λ (o : Option SessionInfo). (close_found_session s.namespace session_id now o m).1) h
    ∙ after
    ∙ ap (λ (z : SessionInfo). forget session_id z m) (some-injective (sym e))
  where
    some-injective : {a b : SessionInfo} → some a ≡ some b → a ≡ b
    some-injective q = cc

module _ (id : Text) (now : ℕ) where
  -- Closing other sessions leaves the session, and the tunnels.
  close_own-spares :
      (other : Text) (m : SessionManager) (o : Option SessionInfo)
      → text_eq other id ≡ false
      → get other m.sessions ≡ o
      → Distinct m.tunnels
      → (get id (close_own other now o m).sessions ≡ get id m.sessions)
        × ((close_own other now o m).tunnels ≡ m.tunnels)
  unfolding close_own
  close_own-spares other m none differ e d = (refl, refl)
  close_own-spares other m (some s) differ e d =
      let after = close_session-own other now m s d e in
      (
        ap (λ (n : SessionManager). get id n.sessions) after
            ∙ get-remove_other other id m.sessions (λ k same.
              subst (λ (z : Text). text_eq z id ≡ false) (sym ((text_eq_iff k other).0 same))
                differ),
        ap (λ (n : SessionManager). n.tunnels) after,
      )

  close_each-spares :
      (ids : List Text) (m : SessionManager)
      → All (λ k. text_eq k id ≡ false) ids
      → Distinct m.tunnels
      → get id (close_each ids now m).sessions ≡ get id m.sessions
  unfolding close_each
  close_each-spares [] m differ d = refl
  close_each-spares (k ∷ ids) m differ d =
      let law = close_own-spares k m (get k m.sessions) differ.0 refl d in
      close_each-spares ids (close_own k now (get k m.sessions) m) differ.1
        (subst Distinct (sym law.1) d)
      ∙ law.0

  -- A busy session is not among the idle ones.
  idle_ids-differ :
      (namespace : Option Text) (tunnels : List (Text × TunnelInfo)) (clock : Text → ℕ)
      (s : SessionInfo) (all entries : List (Text × SessionInfo))
      → is_idle namespace tunnels (clock id) id s ≡ false
      → get id all ≡ some s
      → All (λ e. get e.0 all ≡ some e.1) entries
      → All (λ k. text_eq k id ≡ false) (idle_ids namespace tunnels clock entries)
  idle_ids-differ namespace tunnels clock s all [] busy here found = tt
  idle_ids-differ namespace tunnels clock s all ((k, t) ∷ entries) busy here found =
      let rest = idle_ids-differ namespace tunnels clock s all entries busy here found.1 in
      elim (Bool-cases (is_idle namespace tunnels (clock k) k t)) [
        | inr e ↦ rw e rest
        | inl e ↦ rw e (
          elim (Bool-cases (text_eq k id)) [
            | inr differ ↦ differ
            | inl same ↦
                let q = (text_eq_iff k id).0 same in
                let looked : get k all ≡ some s = ap (λ (z : Text). get z all) q ∙ here in
                let equal : some t ≡ some s = sym found.0 ∙ looked in absurd (cc)
          ],
          rest,
        )
      ]

-- The reaping, of one namespace or of all, keeps every session that has an operation under way or an
-- open tunnel, or that was used within its idle timeout.
pub reap-spares :
    (namespace : Option Text) (clock : Text → ℕ) (now : ℕ) (m : SessionManager) (id : Text)
    (s : SessionInfo)
    → Distinct m.sessions
    → Distinct m.tunnels
    → get id m.sessions ≡ some s
    → (0 < s.active_operations)
      ⊎ ((has_tunnel id m.tunnels ≡ true) ⊎ (clock id ≤ s.last_used + s.idle_timeout))
    → get id (reap_idle_sessions_matching namespace clock now m).sessions ≡ some s
unfolding reap_idle_sessions_matching
reap-spares namespace clock now m id s ds dt here busy =
    close_each-spares id now (idle_ids namespace m.tunnels clock m.sessions) m
      (idle_ids-differ id now namespace m.tunnels clock s m.sessions m.sessions (ground arith) here
        (Distinct-get m.sessions ds))
      dt
    ∙ here
