-- ===== src/Redaction/Collected.antt =====
-- The secrets of the configuration are among those that are redacted.
use ssh_gateway.Prelude.{
  Text, text_eq, text_eq_iff, true, false, List, [], ◌∷◌, ◌++◌, ◌≡◌, ◌≢◌, ◌∙◌, ◌⊎◌, inl, inr,
  Bool-cases, Any, length, ltb, Option, some, is_empty, refl,
}
use ssh_gateway.Errors.{ok}
use ssh_gateway.Config.{
  AppConfig, Profile, ResolvedProfile, ResolvedAuthConfig, ResolvedEndpoint, ResolvedTransport,
}
use ssh_gateway.Resolution.Auth.{Platform, CredentialStore}
use ssh_gateway.Resolution.Profiles.{resolved_profile}
use ssh_gateway.Redaction.{
  insert_longest, longest_first, dedup_from, dedup, collect_resolved, collect_profiles,
  collect_transport, collect_auth, collect_each, secret, from_config, secret_of, redact,
}
use ssh_gateway.Redaction.Masks.{is_free}
use ssh_gateway.Redaction.Hidden.{redact-hides}

abbrev Has : Text → List Text → Type 0
Has s = Any (λ t. t ≡ s)

insert_longest-Has :
    (s t : Text) (texts : List Text) → Has s (t ∷ texts) → Has s (insert_longest t texts)
unfolding insert_longest
insert_longest-Has s t [] h = h
insert_longest-Has s t (u ∷ texts) h = elim (Bool-cases (ltb (length t) (length u))) [
  | inl e ↦ rw e (elim h [
    | inl here ↦ inr (insert_longest-Has s t texts (inl here))
    | inr (inl next) ↦ inl next
    | inr (inr later) ↦ inr (insert_longest-Has s t texts (inr later))
  ])
  | inr e ↦ rw e h
]

longest_first-Has : (s : Text) (texts : List Text) → Has s texts → Has s (longest_first texts)
unfolding longest_first
longest_first-Has s [] h = h
longest_first-Has s (t ∷ texts) (inl here) = insert_longest-Has s t (longest_first texts) (inl here)
longest_first-Has s (t ∷ texts) (inr later) =
    insert_longest-Has s t (longest_first texts) (inr (longest_first-Has s texts later))

dedup_from-Has : (s t : Text) (texts : List Text) → Has s (t ∷ texts) → Has s (dedup_from t texts)
unfolding dedup_from
dedup_from-Has s t [] h = h
dedup_from-Has s t (u ∷ texts) h = elim (Bool-cases (text_eq t u)) [
  | inl e ↦ rw e (elim h [
    | inl here ↦ dedup_from-Has s t texts (inl here)
    | inr (inl next) ↦ dedup_from-Has s t texts (inl ((text_eq_iff t u).0 e ∙ next))
    | inr (inr later) ↦ dedup_from-Has s t texts (inr later)
  ])
  | inr e ↦ rw e (elim h [ inl here ↦ inl here | inr later ↦ inr (dedup_from-Has s u texts later) ])
]

dedup-Has : (s : Text) (texts : List Text) → Has s texts → Has s (dedup texts)
unfolding dedup
dedup-Has s [] h = h
dedup-Has s (t ∷ texts) h = dedup_from-Has s t texts h

Has-append : (s : Text) (front back : List Text) → Has s front ⊎ Has s back → Has s (front ++ back)
Has-append s [] back (inl h) = absurd h
Has-append s [] back (inr h) = h
Has-append s (t ∷ front) back (inl (inl h)) = inl h
Has-append s (t ∷ front) back (inl (inr h)) = inr (Has-append s front back (inl h))
Has-append s (t ∷ front) back (inr h) = inr (Has-append s front back (inr h))

-- The path of a key, its passphrase or a password.
pub data IsSecretOf : Text → ResolvedAuthConfig → Type 0 where
  of_path :
      (path : Text) (phrase : Option Text) → IsSecretOf path (ResolvedAuthConfig.key path phrase)
  of_passphrase : (path p : Text) → IsSecretOf p (ResolvedAuthConfig.key path (some p))
  of_password : (p : Text) → IsSecretOf p (ResolvedAuthConfig.password p)

-- A secret of the host itself or of a bastion on the way to it.
pub data IsSecretOn : Text → ResolvedTransport → Type 0 where
  on_target :
      (s : Text) (t : ResolvedEndpoint) (bastions : List ResolvedEndpoint)
      → IsSecretOf s t.auth
      → IsSecretOn s (ResolvedTransport.direct t bastions)
  on_bastion :
      (s : Text) (t : ResolvedEndpoint) (bastions : List ResolvedEndpoint)
      → Any (λ b. IsSecretOf s b.auth) bastions
      → IsSecretOn s (ResolvedTransport.direct t bastions)

collect_auth-Has :
    (s : Text) (auth : ResolvedAuthConfig)
    → is_empty s ≡ false
    → IsSecretOf s auth
    → Has s (collect_auth auth)
unfolding collect_auth
collect_auth-Has _ _ n (IsSecretOf.of_path path o) = rw n (inl refl)
collect_auth-Has _ _ n (IsSecretOf.of_passphrase path p) =
    Has-append p (secret path) _ (inr (rw n (inl refl)))
collect_auth-Has _ _ n (IsSecretOf.of_password p) = rw n (inl refl)

collect_each-Has :
    (s : Text) (endpoints : List ResolvedEndpoint)
    → is_empty s ≡ false
    → Any (λ e. IsSecretOf s e.auth) endpoints
    → Has s (collect_each endpoints)
unfolding collect_each
collect_each-Has s [] n h = absurd h
collect_each-Has s (e ∷ endpoints) n (inl h) =
    Has-append s _ (collect_each endpoints) (inl (collect_auth-Has s e.auth n h))
collect_each-Has s (e ∷ endpoints) n (inr h) =
    Has-append s (collect_auth e.auth) _ (inr (collect_each-Has s endpoints n h))

collect_transport-Has :
    (s : Text) (t : ResolvedTransport)
    → is_empty s ≡ false
    → IsSecretOn s t
    → Has s (collect_transport t)
unfolding collect_transport
collect_transport-Has _ _ n (IsSecretOn.on_target s t bastions h) =
    Has-append s _ (collect_each bastions) (inl (collect_auth-Has s t.auth n h))
collect_transport-Has _ _ n (IsSecretOn.on_bastion s t bastions h) =
    Has-append s (collect_auth t.auth) _ (inr (collect_each-Has s bastions n h))

module _ (env : Platform) (credentials : CredentialStore) where
  collect_profiles-Has :
      (config : AppConfig) (ps : List Profile) (name s : Text) {r : ResolvedProfile}
      → Any (λ p. p.name ≡ name) ps
      → resolved_profile env credentials (env.parent config.source_path) config name ≡ some (ok r)
      → Has s (collect_transport r.transport)
      → Has s (collect_profiles env credentials config ps)
  unfolding collect_profiles collect_resolved
  collect_profiles-Has config [] name s m h c = elim m [ ]
  collect_profiles-Has config (p ∷ ps) name s {r} (inl e) h c =
      Has-append s _ (collect_profiles env credentials config ps) (inl (rw (e, h) c))
  collect_profiles-Has config (p ∷ ps) name s {r} (inr m) h c =
      Has-append s _ (collect_profiles env credentials config ps)
        (inr (collect_profiles-Has config ps name s {r = r} m h c))

  -- A secret of a profile of the configuration that resolves directly, the path of a key, its
  -- passphrase or a password, of the host or of a bastion, occurs nowhere in a redacted text, if it is
  -- not empty and has no byte of the text `[REDACTED PRIVATE KEY]` that stands for what was removed.
  pub from_config-hides :
      (config : AppConfig) (token : Option Text) (name : Text) (r : ResolvedProfile)
      (hidden input before after : Text)
      → Any (λ p. p.name ≡ name) config.profiles
      → resolved_profile env credentials (env.parent config.source_path) config name ≡ some (ok r)
      → IsSecretOn hidden r.transport
      → is_empty hidden ≡ false
      → is_free hidden ≡ true
      → redact (from_config env credentials config token) input ≢ before ++ (hidden ++ after)
  unfolding from_config
  from_config-hides config token name r hidden input before after m h c n f =
      let ps = collect_profiles env credentials config config.profiles in
      let found = Has-append hidden ps (secret_of token) (
        inl (
          collect_profiles-Has config config.profiles name hidden {r = r} m h
            (collect_transport-Has hidden r.transport n c))) in
      redact-hides (from_config env credentials config token) hidden input before after n f
        (dedup-Has hidden _ (longest_first-Has hidden _ found))
