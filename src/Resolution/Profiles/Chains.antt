-- ===== src/Resolution/Profiles/Chains.antt =====
-- The resolution of a profile ends, and succeeds only along a chain without a cycle.
use ssh_gateway.Prelude.{
  ℕ, zero, suc, Text, text_eq, text_eq_iff, text_eq_refl, Bool, true, false, not, Option, none,
  some, List, [], ◌∷◌, ◌++◌, ◌+◌, ◌<◌, ◌≤◌, ◌≡◌, refl, arith, ◌⊎◌, Bool-cases, Option-cases, inl,
  inr, count, find?, length, ◌||◌, sym, subst, ap, ◌∙◌,
}
use ssh_gateway.Errors.{Result, Result-cases, ok, err}
use ssh_gateway.Config
use ssh_gateway.Config.{AppConfig, Profile, ResolvedProfile, ResolvedTransport}
use ssh_gateway.Resolution.Auth.{Platform, CredentialStore}
use ssh_gateway.Resolution.Profiles.{
  on_stack, transport, finish, resolve_profile, resolve_profile_with, resolved_profile,
  validate_common, check_via, via_transport,
}

on_stack-push :
    (x name : Text) (stack : List Text)
    → on_stack x (stack ++ name ∷ []) ≡ (on_stack x stack || text_eq name x)
on_stack-push x name [] = ground arith
on_stack-push x name (s ∷ stack) = ground (arith, on_stack-push x name stack)

-- The profiles that are not on the stack.
abbrev fresh : List Text → List Profile → ℕ
fresh stack = count (λ p. not (on_stack p.name stack))

fresh-push :
    (name : Text) (stack : List Text) (ps : List Profile)
    → fresh (stack ++ name ∷ []) ps ≤ fresh stack ps
fresh-push name stack [] = omega arith
fresh-push name stack (p ∷ ps) =
    ground (arith, fresh-push name stack ps, on_stack-push p.name name stack)

abbrev pub named : Text → Profile → Bool
named name p = text_eq p.name name

fresh-found :
    (name : Text) (stack : List Text) (ps : List Profile) {p : Profile}
    → on_stack name stack ≡ false
    → find? (named name) ps ≡ some p
    → fresh (stack ++ name ∷ []) ps < fresh stack ps
fresh-found name stack [] h f = absurd (cc)
fresh-found name stack (q ∷ ps) {p} h f = elim (Bool-cases (text_eq q.name name)) [
  | inl e ↦
      let same = (text_eq_iff q.name name).0 e in
      let out : on_stack q.name stack ≡ false =
        subst (λ (z : Text). on_stack z stack ≡ false) (sym same) h in
      let pushed : on_stack q.name (stack ++ name ∷ []) ≡ true =
        on_stack-push q.name name stack ∙ rw (out, same, text_eq_refl name) refl in
      rw (out, pushed) (ground (arith, fresh-push name stack ps))
  | inr e ↦
      let rest = fresh-found name stack ps {p = p} h (rw e at f) in
      ground (arith, rest, on_stack-push q.name name stack, e)
]

pub profile-found :
    (config : AppConfig) (name : Text) {p : Profile}
    → Config.profile config name ≡ ok p
    → find? (named name) config.profiles ≡ some p
unfolding Config.profile
profile-found config name {p} h = elim (Option-cases (find? (named name) config.profiles)) [
  | inl e ↦ absurd (ground (arith, e))
  | inr (q, e) ↦ let same : q ≡ p = ground (arith, e) in e ∙ ap some same
]

-- The run has a result.
abbrev pub Ends : {A : Type 0} → Option A → Type 0
Ends {A} o = (a : A) × (o ≡ some a)

-- The chain of names from a profile through the profiles that it goes via.
abbrev pub Follows : AppConfig → Option Text → List Text → Type 0
Follows config none [] = Unit
Follows config none (n ∷ chain) = ⊥
Follows config (some name) [] = ⊥
Follows config (some name) (n ∷ chain) =
    (n ≡ name)
    × ((p : Profile) × (Config.profile config name ≡ ok p) × Follows config p.via_profile chain)

-- No name of the chain is on the stack or occurs twice.
abbrev pub Apart : List Text → List Text → Type 0
Apart stack [] = Unit
Apart stack (n ∷ chain) = (on_stack n stack ≡ false) × Apart (stack ++ n ∷ []) chain

module _ (env : Platform) (credentials : CredentialStore) (base_dir : Text) where
  transport-Ends :
      (p : Profile) (via : Option Text) (up : Text → Option (Result ResolvedProfile))
      → ((name : Text) → Ends (up name))
      → Ends (transport env credentials base_dir p via up)
  unfolding transport
  transport-Ends p none up h = (_, refl)
  transport-Ends p (some via) up h = elim (Result-cases (check_via env credentials base_dir p)) [
    | inl (u, e) ↦ rw (e, (h via).1) (_, refl)
    | inr (e, c) ↦ rw c (_, refl)
  ]

  resolve_profile-Ends :
      (config : AppConfig) (p : Profile) (up : Text → Option (Result ResolvedProfile))
      → ((name : Text) → Ends (up name))
      → Ends (resolve_profile env credentials base_dir config p up)
  unfolding resolve_profile
  resolve_profile-Ends config p up h = elim (Result-cases (validate_common env p)) [
    | inl (u, e) ↦ rw (e, (transport-Ends p p.via_profile up h).1) (_, refl)
    | inr (e, c) ↦ rw c (_, refl)
  ]

  resolve_profile_with-Ends :
      (f : ℕ) (config : AppConfig) (name : Text) (stack : List Text)
      → fresh stack config.profiles < f
      → Ends (resolve_profile_with env credentials base_dir f config name stack)
  unfolding resolve_profile_with
  resolve_profile_with-Ends zero config name stack h = absurd (omega arith)
  resolve_profile_with-Ends (suc f) config name stack h = elim (Bool-cases (on_stack name stack)) [
    | inl e ↦ rw e (_, refl)
    | inr e ↦ elim (Result-cases (Config.profile config name)) [
      | inr (m, c) ↦ rw (e, c) (_, refl)
      | inl (p, c) ↦
          let less =
            fresh-found name stack config.profiles {p = p} e (profile-found config name c) in
          rw (e, c)
            (resolve_profile-Ends config p
              (λ via.
                resolve_profile_with env credentials base_dir f config via (stack ++ name ∷ []))
              (λ via.
                resolve_profile_with-Ends f config via (stack ++ name ∷ []) (omega (arith, less))))
    ]
  ]

  count-le-length : (q : Profile → Bool) (ps : List Profile) → count q ps ≤ length ps
  count-le-length q [] = omega arith
  count-le-length q (p ∷ ps) = ground (arith, count-le-length q ps)

  -- The resolution of every profile of every configuration ends, cycles of `via_profile` included,
  -- within one round more than there are profiles.
  pub resolved_profile-Ends :
      (config : AppConfig) (name : Text)
      → Ends (resolved_profile env credentials base_dir config name)
  unfolding resolved_profile
  resolved_profile-Ends config name =
      resolve_profile_with-Ends (length config.profiles + 1) config name []
        (omega (arith, count-le-length (λ p. not (on_stack p.name [])) config.profiles))

  transport-ok :
      (p : Profile) (via : Option Text) (up : Text → Option (Result ResolvedProfile))
      (t : ResolvedTransport)
      → transport env credentials base_dir p via up ≡ some (ok t)
      → (via ≡ none)
        ⊎ ((name : Text) × (hop : ResolvedProfile) × (via ≡ some name) × (up name ≡ some (ok hop)))
  unfolding transport via_transport
  transport-ok p none up t h = inl refl
  transport-ok p (some via) up t h = elim (Result-cases (check_via env credentials base_dir p)) [
    | inr (e, c) ↦ absurd (ground (arith, c))
    | inl (u, c) ↦ elim (Option-cases (up via)) [
      | inl e ↦ absurd (ground (arith, c, e))
      | inr (some_hop, e) ↦ elim (Result-cases some_hop) [
        | inl (hop, q) ↦ inr (via, hop, refl, e ∙ ap some q)
        | inr (m, q) ↦ absurd (ground (arith, c, e, q))
      ]
    ]
  ]

  finish-ok :
      (config : AppConfig) (p : Profile) (o : Option (Result ResolvedTransport))
      (r : ResolvedProfile)
      → finish env credentials base_dir config p o ≡ some (ok r)
      → (t : ResolvedTransport) × (o ≡ some (ok t)) × (r.transport ≡ t) × (r.name ≡ p.name)
  finish-ok config p none r h = absurd (cc)
  finish-ok config p (some (err e)) r h = absurd (cc)
  finish-ok config p (some (ok t)) r h = (t, refl, ground arith, ground arith)

  resolve_profile-ok :
      (config : AppConfig) (p : Profile) (up : Text → Option (Result ResolvedProfile))
      (r : ResolvedProfile)
      → resolve_profile env credentials base_dir config p up ≡ some (ok r)
      → (r.name ≡ p.name)
        × ((p.via_profile ≡ none)
            ⊎ ((name : Text) × (hop : ResolvedProfile) × (p.via_profile ≡ some name)
                × (up name ≡ some (ok hop))))
  unfolding resolve_profile
  resolve_profile-ok config p up r h = elim (Result-cases (validate_common env p)) [
    | inr (m, c) ↦ absurd (ground (arith, c))
    | inl (u, c) ↦
        let (t, e, _, named_so) =
          finish-ok config p (transport env credentials base_dir p p.via_profile up) r
            (rw c at h) in
        (named_so, transport-ok p p.via_profile up t e)
  ]

  abbrev Chained : AppConfig → Option Text → List Text → Type 0
  Chained config name stack = (chain : List Text) × Follows config name chain × Apart stack chain

  resolve_profile_with-Chained :
      (f : ℕ) (config : AppConfig) (name : Text) (stack : List Text) (r : ResolvedProfile)
      → resolve_profile_with env credentials base_dir f config name stack ≡ some (ok r)
      → Chained config (some name) stack
  unfolding resolve_profile_with
  resolve_profile_with-Chained zero config name stack r h = absurd (cc)
  resolve_profile_with-Chained (suc f) config name stack r h =
      elim (Bool-cases (on_stack name stack)) [
        | inl e ↦ absurd (ground (arith, e))
        | inr e ↦ elim (Result-cases (Config.profile config name)) [
          | inr (m, c) ↦ absurd (ground (arith, e, c))
          | inl (p, c) ↦
              let ran : resolve_profile env credentials base_dir config p (λ via.
                resolve_profile_with env credentials base_dir f config via (stack ++ name ∷ []))
                  ≡ some (ok r) =
                rw (e, c) at h in
              elim ((resolve_profile-ok config p _ r ran).1) [
                | inl last ↦ (name ∷ [], (refl, (p, c, rw last tt)), (e, tt))
                | inr (via, hop, goes, upstream) ↦
                    let (chain, follows, apart) =
                      resolve_profile_with-Chained f config via (stack ++ name ∷ []) hop upstream in
                    (name ∷ chain, (refl, (p, c, rw goes follows)), (e, apart))
              ]
        ]
      ]

  -- A profile only resolves if following `via_profile` from it leads, through profiles that all exist
  -- and of which none comes up twice, to one that goes via no other.
  pub resolved_profile-Chained :
      (config : AppConfig) (name : Text) (r : ResolvedProfile)
      → resolved_profile env credentials base_dir config name ≡ some (ok r)
      → (chain : List Text) × Follows config (some name) chain × Apart [] chain
  unfolding resolved_profile
  resolved_profile-Chained config name r h =
      resolve_profile_with-Chained (length config.profiles + 1) config name [] r h
