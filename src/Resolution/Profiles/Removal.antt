-- ===== src/Resolution/Profiles/Removal.antt =====
-- Removing a profile that no other goes via leaves the resolution of the others alone.
use ssh_gateway.Prelude.{
  ℕ, zero, suc, Text, text_eq, text_eq_iff, Bool, false, not, Option, none, some, List, [], ◌∷◌,
  ◌++◌, ◌+◌, ◌-◌, ◌≤◌, ◌≡◌, ◌≢◌, refl, arith, Bool-cases, Option-cases, inl, inr, keep, find?,
  find?-Any, All, All-lookup, length, sym, subst, ap, ◌∙◌,
}
use ssh_gateway.Errors.{Result, Result-cases}
use ssh_gateway.Config
use ssh_gateway.Config.{AppConfig, Profile, ResolvedProfile, ResolvedTransport}
use ssh_gateway.Resolution.Auth.{Platform, CredentialStore}
use ssh_gateway.Resolution.Profiles.{
  on_stack, transport, finish, resolve_profile, resolve_profile_with, resolved_profile,
  validate_common, check_via, unless_checked,
}
use ssh_gateway.Resolution.Profiles.Chains.{named, profile-found, resolved_profile-Ends}

abbrev pub without : Text → AppConfig → AppConfig
without name config = record config { profiles = keep (λ p. not (named name p)) config.profiles }

find-keep :
    (gone name : Text) (ps : List Profile)
    → text_eq gone name ≡ false
    → find? (named name) (keep (λ p. not (named gone p)) ps) ≡ find? (named name) ps
find-keep gone name [] h = refl
find-keep gone name (p ∷ ps) h = elim (Bool-cases (named gone p)) [
  | inl e ↦
      let other : named name p ≡ false =
        subst (λ (z : Text). text_eq z name ≡ false) (sym ((text_eq_iff p.name gone).0 e)) h in
      rw (e, other) (find-keep gone name ps h)
  | inr e ↦ rw e (ground (arith, find-keep gone name ps h))
]

profile-without :
    (gone name : Text) (config : AppConfig)
    → text_eq gone name ≡ false
    → Config.profile (without gone config) name ≡ Config.profile config name
unfolding Config.profile
profile-without gone name config h = rw (find-keep gone name config.profiles h)

-- No profile goes via this one.
abbrev pub Unreferenced : Text → AppConfig → Type 0
Unreferenced name config = All (λ p. p.via_profile ≢ some name) config.profiles

pub differs : (a b : Text) → a ≢ b → text_eq a b ≡ false
differs a b d = elim (Bool-cases (text_eq a b)) [
  | inl e ↦ absurd (d ((text_eq_iff a b).0 e))
  | inr e ↦ e
]

module _ (env : Platform) (credentials : CredentialStore) (base_dir : Text) where
  transport-same :
      (p : Profile) (via : Option Text) (up other : Text → Option (Result ResolvedProfile))
      → ((name : Text) → via ≡ some name → up name ≡ other name)
      → transport env credentials base_dir p via up ≡ transport env credentials base_dir p via other
  unfolding transport
  transport-same p none up other h = refl
  transport-same p (some via) up other h = rw (h via refl)

  resolve_profile_with-without :
      (f : ℕ) (gone name : Text) (config : AppConfig) (stack : List Text)
      → text_eq gone name ≡ false
      → Unreferenced gone config
      → resolve_profile_with env credentials base_dir f (without gone config) name stack
        ≡ resolve_profile_with env credentials base_dir f config name stack
  unfolding resolve_profile_with resolve_profile
  resolve_profile_with-without zero gone name config stack h u = refl
  resolve_profile_with-without (suc f) gone name config stack h u =
      elim (Bool-cases (on_stack name stack)) [
        | inl e ↦ rw e refl
        | inr e ↦ elim (Result-cases (Config.profile config name)) [
          | inr (m, c) ↦ rw (e, profile-without gone name config h, c) refl
          | inl (p, c) ↦
              let here = find?-Any (named name) config.profiles (profile-found config name c) in
              let free =
                All-lookup (λ (q : Profile). q.via_profile ≢ some gone) config.profiles u here in
              rw (e, profile-without gone name config h, c)
                (ap
                  (λ t.
                    finish env credentials base_dir config p
                      (unless_checked env credentials base_dir (validate_common env p) t))
                  (transport-same p p.via_profile _ _ (λ via goes.
                    resolve_profile_with-without f gone via config (stack ++ name ∷ [])
                      (differs gone via (λ same. free (goes ∙ ap some (sym same)))) u)))
        ]
      ]

  transport-more :
      (p : Profile) (via : Option Text) (up other : Text → Option (Result ResolvedProfile))
      → ((name : Text) (a : Result ResolvedProfile) → up name ≡ some a → other name ≡ some a)
      → {t : Result ResolvedTransport} → transport env credentials base_dir p via up ≡ some t
      → transport env credentials base_dir p via other ≡ some t
  unfolding transport
  transport-more p none up other h e = e
  transport-more p (some via) up other h {t} e =
      elim (Result-cases (check_via env credentials base_dir p)) [
        | inr (m, c) ↦ rw c (rw c at e)
        | inl (_, c) ↦ elim (Option-cases (up via)) [
          | inl q ↦ absurd (ground (arith, c, q))
          | inr (a, q) ↦ rw (c, h via a q) (rw (c, q) at e)
        ]
      ]

  finish-more :
      (config : AppConfig) (p : Profile) (o other : Option (Result ResolvedTransport))
      → ((t : Result ResolvedTransport) → o ≡ some t → other ≡ some t)
      → {r : Result ResolvedProfile} → finish env credentials base_dir config p o ≡ some r
      → finish env credentials base_dir config p other ≡ some r
  finish-more config p none other h e = absurd (cc)
  finish-more config p (some t) other h e = rw (h t refl) e

  resolve_profile_with-more :
      (f : ℕ) (config : AppConfig) (name : Text) (stack : List Text) {r : Result ResolvedProfile}
      → resolve_profile_with env credentials base_dir f config name stack ≡ some r
      → resolve_profile_with env credentials base_dir (suc f) config name stack ≡ some r
  unfolding resolve_profile_with resolve_profile
  resolve_profile_with-more zero config name stack h = absurd (cc)
  resolve_profile_with-more (suc f) config name stack {r} h =
      elim (Bool-cases (on_stack name stack)) [
        | inl e ↦ rw e (rw e at h)
        | inr e ↦ elim (Result-cases (Config.profile config name)) [
          | inr (m, c) ↦ rw (e, c) (rw (e, c) at h)
          | inl (p, c) ↦ elim (Result-cases (validate_common env p)) [
            | inr (m, v) ↦ rw (e, c, v) (rw (e, c, v) at h)
            | inl (_, v) ↦
                rw (e, c, v)
                  (finish-more config p _ _
                    (λ t q.
                      transport-more p p.via_profile _ _
                        (λ via a z.
                          resolve_profile_with-more f config via (stack ++ name ∷ []) {r = a} z)
                        {t = t} q)
                    {r = r} (rw (e, c, v) at h))
          ]
        ]
      ]

  resolve_profile_with-lift :
      (k f g : ℕ) (config : AppConfig) (name : Text) (stack : List Text)
      {r : Result ResolvedProfile}
      → k + f ≡ g
      → resolve_profile_with env credentials base_dir f config name stack ≡ some r
      → resolve_profile_with env credentials base_dir g config name stack ≡ some r
  resolve_profile_with-lift zero f g config name stack {r} e h =
      let same : f ≡ g = omega arith in
      subst (λ n. resolve_profile_with env credentials base_dir n config name stack ≡ some r) same h
  resolve_profile_with-lift (suc k) f zero config name stack {r} e h = absurd (omega arith)
  resolve_profile_with-lift (suc k) f (suc g) config name stack {r} e h =
      resolve_profile_with-more g config name stack {r = r}
        (resolve_profile_with-lift k f g config name stack {r = r} (omega arith) h)

  length-keep : (q : Profile → Bool) (ps : List Profile) → length (keep q ps) ≤ length ps
  length-keep q [] = omega arith
  length-keep q (p ∷ ps) = ground (arith, length-keep q ps)

  -- Without a profile that no profile goes via, every other profile resolves, or fails to, as before.
  pub resolved_profile-without :
      (gone name : Text) (config : AppConfig)
      → text_eq gone name ≡ false
      → Unreferenced gone config
      → resolved_profile env credentials base_dir (without gone config) name
        ≡ resolved_profile env credentials base_dir config name
  unfolding resolved_profile
  resolved_profile-without gone name config h u =
      let fewer = length-keep (λ p. not (named gone p)) config.profiles in
      let less = length (without gone config).profiles + 1 in
      let (r, ends) = resolved_profile-Ends env credentials base_dir (without gone config) name in
      let same = sym (resolve_profile_with-without less gone name config [] h u) ∙ ends in
      let gap = length config.profiles - length (without gone config).profiles in
      let lifted =
        resolve_profile_with-lift gap less (length config.profiles + 1) config name [] {r = r}
          (omega (arith, fewer)) same in
      ends ∙ sym lifted
