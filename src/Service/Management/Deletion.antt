-- ===== src/Service/Management/Deletion.antt =====
-- A deletion leaves a valid configuration valid.
use ssh_gateway.Prelude.{
  suc, Text, text_eq, text_eq_iff, Bool, true, false, not, List, [], ◌∷◌, ◌≡◌, ◌≢◌, refl, sym,
  subst, ◌<◌, ◌≤◌, ◌+◌, inl, inr, Bool-cases, arith, keep, length, is_empty, ◌&&◌,
}
use ssh_gateway.Errors.{ok, >>-eq-ok}
use ssh_gateway.Config.{AppConfig, Profile}
use ssh_gateway.Resolution.Auth.{Platform, CredentialStore, require, resolve_auth}
use ssh_gateway.Resolution.Profiles.{on_stack, resolved_profile}
use ssh_gateway.Resolution.Profiles.Removal.{
  without, Unreferenced, resolved_profile-without, differs,
}
use ssh_gateway.Resolution.Validation.{
  validate, validate_with_credentials, check_general, check_names, check_resolves, validate_mcp,
  resolves,
}
use ssh_gateway.Service.Management.{ensure_profile_deletable, removed}
use ssh_gateway.Service.Management.Committed.{ensure_profile_deletable-ok}

abbrev stays : Text → Profile → Bool
stays name p = not (text_eq p.name name)

module _ (env : Platform) where
  not-true : {b : Bool} → not b ≡ true → b ≡ false
  not-true {b} h = ground arith

  require-ok : (b : Bool) (m : Text) → require b m ≡ ok tt → b ≡ true
  require-ok true m h = refl
  require-ok false m h = absurd (cc)

  nonempty : (ps : List Profile) → 0 < length ps → is_empty ps ≡ false
  nonempty [] h = absurd (omega arith)
  nonempty (p ∷ ps) h = refl

  -- A name that nothing before has.
  check_names-fewer :
      (name : Text) (seen fewer : List Text) (ps : List Profile)
      → ((t : Text) → on_stack t seen ≡ false → on_stack t fewer ≡ false)
      → check_names env seen ps ≡ ok tt
      → check_names env fewer (keep (stays name) ps) ≡ ok tt
  unfolding check_names
  check_names-fewer name seen fewer [] sub h = refl
  check_names-fewer name seen fewer (p ∷ ps) sub h =
      let (new, rest) = >>-eq-ok (require (not (on_stack p.name seen)) _) _ h in
      let free = sub p.name (not-true (require-ok _ _ new)) in
      elim (Bool-cases (stays name p)) [
        | inl e ↦
            rw (e, free)
              (check_names-fewer name (p.name ∷ seen) (p.name ∷ fewer) ps
                (λ t n. ground (arith, sub t)) rest)
        | inr e ↦
            rw e
              (check_names-fewer name (p.name ∷ seen) fewer ps (λ t n. ground (arith, sub t)) rest)
      ]

  check_names-keeps :
      (name : Text) (seen : List Text) (ps : List Profile)
      → on_stack name seen ≡ true
      → check_names env seen ps ≡ ok tt
      → length ps ≤ length (keep (stays name) ps)
  unfolding check_names
  check_names-keeps name seen [] s h = omega arith
  check_names-keeps name seen (p ∷ ps) s h =
      let (new, rest) = >>-eq-ok (require (not (on_stack p.name seen)) _) _ h in
      let later = check_names-keeps name (p.name ∷ seen) ps (ground arith) rest in
      elim (Bool-cases (text_eq p.name name)) [
        | inl e ↦
            let old : on_stack p.name seen ≡ true =
              subst (λ (t : Text). on_stack t seen ≡ true) (sym ((text_eq_iff p.name name).0 e))
                s in
            absurd (ground (arith, require-ok _ _ new, old))
        | inr e ↦ ground (arith, later, e)
      ]

  check_names-one :
      (name : Text) (seen : List Text) (ps : List Profile)
      → check_names env seen ps ≡ ok tt
      → length ps ≤ length (keep (stays name) ps) + 1
  unfolding check_names
  check_names-one name seen [] h = omega arith
  check_names-one name seen (p ∷ ps) h =
      let (new, rest) = >>-eq-ok (require (not (on_stack p.name seen)) _) _ h in
      elim (Bool-cases (text_eq p.name name)) [
        | inl e ↦
            let later = check_names-keeps name (p.name ∷ seen) ps (ground arith) rest in
            ground (arith, later, e)
        | inr e ↦
            let later = check_names-one name (p.name ∷ seen) ps rest in ground (arith, later, e)
      ]

  module _ (credentials : CredentialStore) (base_dir : Text) where
    check_resolves-fewer :
        (gone : Text) (config : AppConfig) (ps : List Profile)
        → Unreferenced gone config
        → check_resolves env credentials base_dir config ps ≡ ok tt
        → check_resolves env credentials base_dir (without gone config) (keep (stays gone) ps)
          ≡ ok tt
    unfolding check_resolves
    check_resolves-fewer gone config [] u h = refl
    check_resolves-fewer gone config (p ∷ ps) u h =
        let (here, rest) =
          >>-eq-ok
            (resolves env credentials base_dir
              (resolved_profile env credentials base_dir config p.name))
            _ h in
        let later = check_resolves-fewer gone config ps u rest in
        elim (Bool-cases (stays gone p)) [
          | inl e ↦
              let other : text_eq gone p.name ≡ false =
                differs gone p.name
                  (λ same. ground (arith, (text_eq_iff p.name gone).1 (sym same), e)) in
              rw
                (
                  e,
                  resolved_profile-without env credentials base_dir gone p.name config other u,
                  here,
                )
                later
          | inr e ↦ rw e later
        ]

  is_empty-left :
      (name : Text) (ps : List Profile)
      → length ps ≤ length (keep (stays name) ps) + 1
      → length ps ≢ 1
      → is_empty (keep (stays name) ps) ≡ is_empty ps
  is_empty-left name [] h s = refl
  is_empty-left name (p ∷ ps) h s =
      let several : suc (length ps) ≢ 1 = s in
      let one : suc (length ps) ≤ length (keep (stays name) (p ∷ ps)) + 1 = h in
      nonempty (keep (stays name) (p ∷ ps)) (omega (arith, several, one))

  check_general-fewer :
      (name : Text) (config : AppConfig)
      → check_names env [] config.profiles ≡ ok tt
      → length config.profiles ≢ 1
      → check_general env config ≡ ok tt
      → check_general env (removed name config) ≡ ok tt
  unfolding check_general validate_mcp
  check_general-fewer name config n s h =
      let (some_left, rest) =
        >>-eq-ok (require (not (is_empty config.profiles && is_empty config.mcp.tenants)) _) _ h in
      let one = check_names-one name [] config.profiles n in
      rw (is_empty-left name config.profiles one s, some_left) rest

  -- Where a configuration is valid and a profile of it may be deleted, the configuration without that
  -- profile is valid.
  pub removed-stays_valid :
      (name : Text) (config : AppConfig)
      → validate env config ≡ ok tt
      → ensure_profile_deletable config name ≡ ok tt
      → validate env (removed name config) ≡ ok tt
  unfolding validate validate_with_credentials
  removed-stays_valid name config v d =
      let (general, a) = >>-eq-ok (check_general env config) _ v in
      let (names, b) = >>-eq-ok (check_names env [] config.profiles) _ a in
      let (resolved, approval) =
        >>-eq-ok
          (check_resolves env (resolve_auth env) (env.parent config.source_path) config
            config.profiles)
          _ b in
      let (free, several) = ensure_profile_deletable-ok config name d in
      let g = check_general-fewer name config names several general in
      let n = check_names-fewer name [] [] config.profiles (λ t e. e) names in
      let r =
        check_resolves-fewer (resolve_auth env) (env.parent config.source_path) name config
          config.profiles free resolved in
      rw (g, n, r) approval
