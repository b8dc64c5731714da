-- ===== src/Resolution/Auth/Sources.antt =====
-- The credentials that `AuthConfig::resolve` accepts.
use ssh_gateway.Prelude.{
  is_none, Text, str, Bool, true, false, Option, none, some, ◌++◌, ◌≡◌, ◌⊎◌, subst, refl, inl, inr,
  not,
}
use ssh_gateway.Errors.{Result, ok, >>=-eq-ok, >>-eq-ok, ok-injective}
use ssh_gateway.Config.{AuthKind, AuthConfig, ResolvedAuthConfig}
use ssh_gateway.Resolution.Auth.{
  Platform, resolve_auth, infer_kind, resolve_config_path, by_kind, key_auth, password_auth,
  require, or_error, kind_or, is_blank_id,
}

module _ (env : Platform) where
  abbrev Kinded : Option AuthKind → AuthKind → Type 0
  Kinded given kind = (given ≡ none) ⊎ (given ≡ some kind)

  -- One credential only: a password alone, or a key with at most a passphrase.
  abbrev pub Names : AuthConfig → Text → ResolvedAuthConfig → Type 0
  Names auth base_dir (ResolvedAuthConfig.password password) =
      Kinded auth.kind AuthKind.password
      × (auth.password ≡ some password)
      × (auth.key_path ≡ none)
      × (auth.passphrase ≡ none)
      × (auth.credential_id ≡ none)
  Names auth base_dir (ResolvedAuthConfig.key path passphrase) =
      Kinded auth.kind AuthKind.key
      × ((raw : Text) × (auth.key_path ≡ some raw)
          × (resolve_config_path env base_dir raw ≡ ok path))
      × (auth.passphrase ≡ passphrase)
      × (auth.password ≡ none)
      × (auth.credential_id ≡ none)

  require-true : (b : Bool) (m : Text) → require b m ≡ ok tt → b ≡ true
  require-true true m h = refl
  require-true false m h = absurd (cc)

  is_none-none : (o : Option Text) → is_none o ≡ true → o ≡ none
  is_none-none none h = refl
  is_none-none (some t) h = cc

  absent : (o : Option Text) (m : Text) → require (is_none o) m ≡ ok tt → o ≡ none
  absent o m h = is_none-none o (require-true (is_none o) m h)

  present : {A : Type 0} (o : Option A) (m : Text) {a : A} → or_error o m ≡ ok a → o ≡ some a
  present none m h = absurd (cc)
  present (some a) m h = cc

  kind_or-Kinded :
      (given : Option AuthKind) (inferred : Result AuthKind) (kind : AuthKind)
      → kind_or given inferred ≡ ok kind
      → Kinded given kind
  kind_or-Kinded none inferred kind h = inl refl
  kind_or-Kinded (some given) inferred kind h = inr (cc)

  infer_kind-Kinded :
      (auth : AuthConfig) (label : Text) (kind : AuthKind)
      → infer_kind env auth label ≡ ok kind
      → Kinded auth.kind kind
  unfolding infer_kind
  infer_kind-Kinded auth label kind h =
      let (_, h1) =
        >>-eq-ok
          (require (not (is_blank_id env auth.credential_id))
            (label ++ str " credential_id must not be empty"))
          _ h in
      let (_, h2) =
        >>-eq-ok (require _ (label ++ str " external auth requires only credential_id")) _ h1 in
      kind_or-Kinded auth.kind _ kind h2

  key_auth-Names :
      (auth : AuthConfig) (base_dir label : Text) (r : ResolvedAuthConfig)
      → Kinded auth.kind AuthKind.key
      → key_auth env auth base_dir label ≡ ok r
      → Names auth base_dir r
  unfolding key_auth
  key_auth-Names auth base_dir label r kinded h =
      let (c, h1) =
        >>-eq-ok
          (require (is_none auth.credential_id)
            (label ++ str " cannot combine credential_id with key_path"))
          _ h in
      let (raw, k, h2) =
        >>=-eq-ok (or_error auth.key_path (label ++ str " auth.key_path is empty")) _ h1 in
      let (p, h3) =
        >>-eq-ok
          (require (is_none auth.password) (label ++ str " auth.type=key cannot also set password"))
          _ h2 in
      let (path, q, h4) = >>=-eq-ok (resolve_config_path env base_dir raw) _ h3 in
      subst (Names auth base_dir) (ok-injective h4) (
        kinded,
        (raw, present auth.key_path _ k, q),
        refl,
        absent auth.password _ p,
        absent auth.credential_id _ c,
      )

  password_auth-Names :
      (auth : AuthConfig) (base_dir label : Text) (r : ResolvedAuthConfig)
      → Kinded auth.kind AuthKind.password
      → password_auth env auth label ≡ ok r
      → Names auth base_dir r
  unfolding password_auth
  password_auth-Names auth base_dir label r kinded h =
      let (c, h1) =
        >>-eq-ok
          (require (is_none auth.credential_id)
            (label ++ str " cannot combine credential_id with password"))
          _ h in
      let (password, p, h2) =
        >>=-eq-ok (or_error auth.password (label ++ str " auth.password is empty")) _ h1 in
      let (k, h3) =
        >>-eq-ok
          (require (is_none auth.key_path)
            (label ++ str " auth.type=password cannot also set key_path"))
          _ h2 in
      let (q, h4) =
        >>-eq-ok
          (require (is_none auth.passphrase)
            (label ++ str " auth.type=password cannot also set passphrase"))
          _ h3 in
      subst (Names auth base_dir) (ok-injective h4) (
        kinded,
        present auth.password _ p,
        absent auth.key_path _ k,
        absent auth.passphrase _ q,
        absent auth.credential_id _ c,
      )

  by_kind-Names :
      (auth : AuthConfig) (base_dir label : Text) (kind : AuthKind) (r : ResolvedAuthConfig)
      → Kinded auth.kind kind
      → by_kind env auth base_dir label kind ≡ ok r
      → Names auth base_dir r
  unfolding by_kind
  by_kind-Names auth base_dir label AuthKind.key r kinded h =
      key_auth-Names auth base_dir label r kinded h
  by_kind-Names auth base_dir label AuthKind.password r kinded h =
      password_auth-Names auth base_dir label r kinded h
  by_kind-Names auth base_dir label AuthKind.external r kinded h = absurd (cc)

  -- Credentials that resolve from the file are named once: a password resolves only if no key, no
  -- passphrase and no reference is set with it, and a key, at its path in the configuration's
  -- directory or the home, only if no password and no reference is; a type that is given is theirs.
  pub resolve_auth-Names :
      (auth : AuthConfig) (base_dir label : Text) (r : ResolvedAuthConfig)
      → resolve_auth env auth base_dir label ≡ ok r
      → Names auth base_dir r
  unfolding resolve_auth
  resolve_auth-Names auth base_dir label r h =
      let (kind, k, h1) = >>=-eq-ok (infer_kind env auth label) _ h in
      by_kind-Names auth base_dir label kind r (infer_kind-Kinded auth label kind k) h1
