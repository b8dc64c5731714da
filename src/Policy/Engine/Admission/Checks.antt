-- ===== src/Policy/Engine/Admission/Checks.antt =====
-- The single checks of a request, and runs of them that get through.
use ssh_gateway.Prelude.{
  Text, true, false, Option, none, some, List, [], ◌∷◌, ◌≡◌, ◌≢◌, ◌↔◌, ◌⊎◌, inl, inr, refl, arith,
  Any, any-Any, Any-any, Any-map, text_eq, text_eq_iff, if◌then◌else◌, is_empty, ap, sym, subst,
}
use ssh_gateway.Errors.{ArrtError, Result, ok, err, ◌>>=◌, ◌>>◌, ok-injective}
use ssh_gateway.Config.{AgentPolicyConfig, PolicyEffectConfig, PolicyRuleConfig}
use ssh_gateway.Protocol.{Request}
use ssh_gateway.Policy.Paths.Confined.{require_path-confines}
use ssh_gateway.Policy.Engine.{
  PolicyEffect, Capability, has_capability, require_capability, require_allowed_command,
  require_command, require_cwd, first_rule, decide, effect_of, allowed,
}
use ssh_gateway.Policy.Engine.Rules.{First, first_rule-Decided, First-first_rule}
use ssh_gateway.Policy.Engine.Admission.{RulesAdmit, CommandAdmitted, CwdAdmitted}

effect_of-deny :
    (e : PolicyEffectConfig) → (effect_of e ≢ PolicyEffect.deny) ↔ (e ≢ PolicyEffectConfig.deny)
effect_of-deny PolicyEffectConfig.allow = (λ h e. cc, λ h e. cc)
effect_of-deny PolicyEffectConfig.confirm = (λ h e. cc, λ h e. cc)
effect_of-deny PolicyEffectConfig.deny = (λ h e. h refl, λ h e. h refl)

rules_admit :
    (policy : AgentPolicyConfig) (rules : List PolicyRuleConfig) (request : Request)
    → ((first_rule rules request).effect ≢ PolicyEffect.deny) ↔ (
        (rule : PolicyRuleConfig) × First request rules rule
        × (rule.effect ≢ PolicyEffectConfig.deny))
rules_admit policy rules request = (
  λ h. elim (first_rule-Decided request rules) [
    | inl (rule, f, e) ↦ (rule, f, (effect_of-deny rule.effect).0 (rw e at h))
    | inr (all, e) ↦ absurd (h (ap (λ d. d.effect) e))
  ],
  λ (rule, f, n). rw (First-first_rule f) ((effect_of-deny rule.effect).1 n),
)

decide-rules :
    (policy : AgentPolicyConfig) (rules : List PolicyRuleConfig) (request : Request)
    → ((if is_empty rules then allowed else first_rule rules request).effect ≢ PolicyEffect.deny)
      ↔ ((rules ≡ [])
          ⊎ ((rule : PolicyRuleConfig) × First request rules rule
              × (rule.effect ≢ PolicyEffectConfig.deny)))
decide-rules policy [] request = (λ h. inl refl, λ h e. cc)
decide-rules policy (r ∷ rs) request =
    let law = rules_admit policy (r ∷ rs) request in
    (λ h. inr (law.0 h), elim [ inl e ↦ absurd cc | inr h ↦ law.1 h ])

decide-RulesAdmit :
    (policy : AgentPolicyConfig) (request : Request)
    → ((decide (some policy) request).effect ≢ PolicyEffect.deny) ↔ RulesAdmit policy request
unfolding decide
decide-RulesAdmit policy request = decide-rules policy policy.rules request

-- A run of the checks that gets through, and whose decision is not to deny.
unfoldable pub Passes : Request → Result (Option AgentPolicyConfig) → Type 0
Passes request checked =
    (o : Option AgentPolicyConfig) × (checked ≡ ok o)
    × ((decide o request).effect ≢ PolicyEffect.deny)

module _ (request : Request) where
  pub Passes-bind :
      {A : Type 0} (r : Result A) (f : A → Result (Option AgentPolicyConfig))
      → Passes request (r >>= f) ↔ ((a : A) × (r ≡ ok a) × Passes request (f a))
  unfolding Passes
  Passes-bind (ok a) f =
      (λ h. (a, refl, h), λ (b, e, p). subst (λ x. Passes request (f x)) (sym (ok-injective e)) p)
  Passes-bind (err e) f = (λ (o, h, n). absurd (cc), λ (a, h, p). absurd (cc))

  pub Passes-then :
      (r : Result (Unit {0})) (k : Result (Option AgentPolicyConfig))
      → Passes request (r >> k) ↔ ((r ≡ ok tt) × Passes request k)
  unfolding Passes
  Passes-then (ok a) k = (λ h. (refl, h), λ h. h.1)
  Passes-then (err e) k = (λ (o, h, n). absurd (cc), λ (h, p). absurd (cc))

  pub Passes-policy :
      (policy : AgentPolicyConfig) → Passes request (ok (some policy)) ↔ RulesAdmit policy request
  unfolding Passes
  Passes-policy policy = (
    λ (o, e, n). (decide-RulesAdmit policy request).0 (rw (ok-injective e) n),
    λ h. (some policy, refl, (decide-RulesAdmit policy request).1 h),
  )

  pub Passes-none : Passes request (ok none)
  unfolding Passes decide
  Passes-none = (none, refl, λ e. cc)

  pub Passes-err : (e : ArrtError) → ¬ Passes request (err e)
  unfolding Passes
  Passes-err e (o, h, n) = cc

pub capability_iff :
    (policy : AgentPolicyConfig) (c : Capability)
    → (require_capability policy c ≡ ok tt) ↔ (has_capability policy c ≡ true)
unfolding require_capability
capability_iff policy c = ground arith

allowed_command_iff :
    (policy : AgentPolicyConfig) (command : Text)
    → (require_allowed_command policy command ≡ ok tt)
      ↔ Any (λ permitted. permitted ≡ command) policy.allowed_commands
unfolding require_allowed_command
allowed_command_iff policy command = (
  λ h.
      Any-map (λ c. text_eq c command ≡ true) (λ c. c ≡ command) policy.allowed_commands
        (λ c. (text_eq_iff c command).0)
        (any-Any (λ c. text_eq c command) policy.allowed_commands (ground arith)),
  λ h. rw (
      Any-any (λ c. text_eq c command) policy.allowed_commands
        (Any-map (λ c. c ≡ command) (λ c. text_eq c command ≡ true) policy.allowed_commands
          (λ c. (text_eq_iff c command).1) h)),
)

is_empty_iff {ℓ} : {A : Type ℓ} (xs : List A) → (is_empty xs ≡ true) ↔ (xs ≡ [])
is_empty_iff [] = (λ h. refl, λ h. refl)
is_empty_iff (x ∷ xs) = (λ h. cc, λ h. cc)

pub command_iff :
    (policy : AgentPolicyConfig) (command : Text)
    → (require_command policy command ≡ ok tt) ↔ CommandAdmitted policy command
command_iff policy command = ground (
  arith,
  is_empty_iff policy.rules,
  is_empty_iff policy.allowed_commands,
  allowed_command_iff policy command,
)

pub cwd_iff :
    (policy : AgentPolicyConfig) (cwd : Option Text)
    → (require_cwd policy cwd ≡ ok tt) ↔ CwdAdmitted policy cwd
cwd_iff policy none = (λ h. tt, λ h. refl)
cwd_iff policy (some cwd) = require_path-confines policy cwd false
