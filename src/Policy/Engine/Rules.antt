-- ===== src/Policy/Engine/Rules.antt =====
-- The rules of a policy: the first that covers the request decides, and none means deny.
use ssh_gateway.Prelude.{
  Text, str, text_eq, text_eq_iff, true, false, List, [], ◌∷◌, ◌≡◌, ◌↔◌, ◌⊎◌, inl, inr, refl, All,
  Any, any, any-Any, Any-any, Bool-cases, ◌&&◌, &&-true,
}
use ssh_gateway.Config.{PolicyRuleConfig}
use ssh_gateway.Protocol.{Request}
use ssh_gateway.Policy.Wildcard.{wildcard_match}
use ssh_gateway.Policy.Engine.{rule_matches, ruled, unmatched, first_rule}

-- The rule is for the operation, and one of its patterns matches the text.
abbrev CoversText : Text → Text → Text → List Text → Type 0
CoversText operation name value patterns =
    (operation ≡ name) × Any (λ p. wildcard_match p value ≡ true) patterns

-- What a rule is about: commands by the command patterns, remote paths by the path patterns.
abbrev pub Covers : PolicyRuleConfig → Request → Type 0
Covers rule (Request.exec profile command cwd timeout env) =
    CoversText rule.matcher.operation (str "exec") command rule.matcher.commands
Covers rule (Request.read profile path) =
    CoversText rule.matcher.operation (str "read") path rule.matcher.paths
Covers rule (Request.write profile path mode content) =
    CoversText rule.matcher.operation (str "write") path rule.matcher.paths
Covers rule (Request.upload profile src dst) =
    CoversText rule.matcher.operation (str "upload") dst rule.matcher.paths
Covers rule (Request.download profile src dst) =
    CoversText rule.matcher.operation (str "download") src rule.matcher.paths
Covers rule _ = ⊥

text-Covers :
    (operation name value : Text) (patterns : List Text)
    → ((text_eq operation name && any (λ p. wildcard_match p value) patterns) ≡ true)
      ↔ CoversText operation name value patterns
text-Covers operation name value patterns = (
  λ h.
      let (a, b) =
        &&-true (text_eq operation name) (any (λ p. wildcard_match p value) patterns) h in
      ((text_eq_iff operation name).0 a, any-Any (λ p. wildcard_match p value) patterns b),
  λ h.
      let a = (text_eq_iff operation name).1 h.0 in
      let b = Any-any (λ p. wildcard_match p value) patterns h.1 in rw (a, b),
)

rule_matches-Covers :
    (rule : PolicyRuleConfig) (request : Request)
    → (rule_matches rule request ≡ true) ↔ Covers rule request
unfolding rule_matches
rule_matches-Covers rule (Request.exec profile command cwd timeout env) =
    text-Covers rule.matcher.operation (str "exec") command rule.matcher.commands
rule_matches-Covers rule (Request.read profile path) =
    text-Covers rule.matcher.operation (str "read") path rule.matcher.paths
rule_matches-Covers rule (Request.write profile path mode content) =
    text-Covers rule.matcher.operation (str "write") path rule.matcher.paths
rule_matches-Covers rule (Request.upload profile src dst) =
    text-Covers rule.matcher.operation (str "upload") dst rule.matcher.paths
rule_matches-Covers rule (Request.download profile src dst) =
    text-Covers rule.matcher.operation (str "download") src rule.matcher.paths
rule_matches-Covers rule _ = (λ h. cc, λ h. absurd h)

-- `First rules request rule`: the rule covers the request, and none before it does.
pub data First (request : Request) : List PolicyRuleConfig → PolicyRuleConfig → Type 0 where
  here :
      {rule : PolicyRuleConfig} {rules : List PolicyRuleConfig}
      → Covers rule request
      → First request (rule ∷ rules) rule
  later :
      {other rule : PolicyRuleConfig} {rules : List PolicyRuleConfig}
      → ¬ Covers other request
      → First request rules rule
      → First request (other ∷ rules) rule

abbrev pub Decided : Request → List PolicyRuleConfig → Type 0
Decided request rules =
    ((rule : PolicyRuleConfig) × First request rules rule × (first_rule rules request ≡ ruled rule))
    ⊎ (All (λ rule. ¬ Covers rule request) rules × (first_rule rules request ≡ unmatched))

-- The first rule that covers the request gives its effect, id, reason and risk; where no rule
-- covers it the decision is to deny.
pub first_rule-Decided : (request : Request) (rules : List PolicyRuleConfig) → Decided request rules
unfolding first_rule
first_rule-Decided request [] = inr (tt, refl)
first_rule-Decided request (rule ∷ rules) = elim (Bool-cases (rule_matches rule request)) [
  | inl e ↦ inl (rule, here ((rule_matches-Covers rule request).0 e), rw e)
  | inr e ↦
      let missed =
        λ (c : Covers rule request). no_match e ((rule_matches-Covers rule request).1 c) in
      elim (first_rule-Decided request rules) [
        | inl (r, f, h) ↦ inl (r, later missed f, rw (e, first_rule) h)
        | inr (all, h) ↦ inr ((missed, all), rw (e, first_rule) h)
      ]
]
  where
    no_match : rule_matches rule request ≡ false → rule_matches rule request ≡ true → ⊥
    no_match e h = cc

module _ {request : Request} where
  pub First-first_rule :
      {rules : List PolicyRuleConfig} {rule : PolicyRuleConfig}
      → First request rules rule
      → first_rule rules request ≡ ruled rule
  unfolding first_rule
  First-first_rule {rule = rule} (here c) = rw ((rule_matches-Covers rule request).1 c)
  First-first_rule (later {other = other} n f) = elim (Bool-cases (rule_matches other request)) [
    | inl e ↦ absurd (n ((rule_matches-Covers other request).0 e))
    | inr e ↦ rw e (First-first_rule f)
  ]
