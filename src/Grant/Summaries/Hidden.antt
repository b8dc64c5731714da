-- ===== src/Grant/Summaries/Hidden.antt =====
-- The value of a token, a password or a secret does not reach the summaries.
use ssh_gateway.Prelude.{
  suc, text_eq, if◌then◌else◌, ℕ, Text, str, true, false, Option, some, List, [], ◌∷◌, ◌++◌, ◌≡◌,
  ◌==◌, inl, inr, refl, map, any, arith, starts_with, sym, ap, ◌∙◌, Bool-cases, Any,
}
use ssh_gateway.Errors.{ok, >>=-eq-ok, ok-injective}
use ssh_gateway.Json.{Value, Fields, object, close, field}
use ssh_gateway.Externals.{Externals, Files, request_hash}
use ssh_gateway.Protocol.{Request, EnvVar}
use ssh_gateway.Redaction.{SecretRedactor, redact}
use ssh_gateway.Grant.Summaries.{
  split_whitespace, to_ascii_uppercase, before_equals, secret_keys, redact_part, join,
  redact_assignments, summary, shown_summary, request_name, plan_entry, summaries_from,
  plan_summaries,
}

abbrev pub secret_names : List Text
secret_names = str "TOKEN" ∷ str "PASSWORD" ∷ str "SECRET" ∷ []

-- One of the names, in either case.
abbrev pub IsSecretName : Text → Type 0
IsSecretName name = Any (λ k. to_ascii_uppercase name ≡ k) secret_names

to_ascii_uppercase-append :
    (a b : Text) → to_ascii_uppercase (a ++ b) ≡ to_ascii_uppercase a ++ to_ascii_uppercase b
unfolding to_ascii_uppercase
to_ascii_uppercase-append [] b = refl
to_ascii_uppercase-append (c ∷ a) b = rw (to_ascii_uppercase-append a b)

before_equals-append :
    (name v : Text)
    → any (λ c. c == 61) (to_ascii_uppercase name) ≡ false
    → before_equals (name ++ 61 ∷ v) ≡ some name
unfolding before_equals to_ascii_uppercase
before_equals-append [] v h = refl
before_equals-append (c ∷ name) v h = elim (Bool-cases (c == 61)) [
  | inl e ↦ absurd (ground (arith, e, h))
  | inr e ↦ rw e (rw (before_equals-append name v (ground (arith, h))))
]

secret_name :
    (name v : Text)
    → IsSecretName name
    → (any (λ c. c == 61) (to_ascii_uppercase name) ≡ false)
      × (any (starts_with (to_ascii_uppercase name ++ 61 ∷ v)) secret_keys ≡ true)
unfolding starts_with str
secret_name name v (inl e) = rw e (refl, refl)
secret_name name v (inr (inl e)) = rw e (refl, refl)
secret_name name v (inr (inr (inl e))) = rw e (refl, refl)
secret_name name v (inr (inr (inr e))) = absurd e

redact_part-masked :
    (name v : Text) → IsSecretName name → redact_part (name ++ 61 ∷ v) ≡ name ++ str "=[REDACTED]"
unfolding redact_part to_ascii_uppercase
redact_part-masked name v n =
    let (free, key) = secret_name name (to_ascii_uppercase v) n in
    rw (to_ascii_uppercase-append name (61 ∷ v), before_equals-append name v free, key) refl

map-same :
    (before after : List Text) (a b : Text)
    → redact_part a ≡ redact_part b
    → map redact_part (before ++ a ∷ after) ≡ map redact_part (before ++ b ∷ after)
map-same [] after a b h = rw h refl
map-same (part ∷ before) after a b h =
    ap (λ (parts : List Text). redact_part part ∷ parts) (map-same before after a b h)

-- The summaries of two commands with the same words, except for the value of a secret, are the same.
shown_summary-hides :
    (self : SecretRedactor) (profile command command' : Text) (cwd : Option Text)
    (timeout : Option ℕ) (vars : List EnvVar) (before after : List Text) (name v v' : Text)
    → IsSecretName name
    → split_whitespace command ≡ before ++ (name ++ 61 ∷ v) ∷ after
    → split_whitespace command' ≡ before ++ (name ++ 61 ∷ v') ∷ after
    → shown_summary self (Request.exec profile command cwd timeout vars)
      ≡ shown_summary self (Request.exec profile command' cwd timeout vars)
unfolding shown_summary summary redact_assignments
shown_summary-hides self profile command command' cwd timeout vars before after name v v' n h h' =
    let same = redact_part-masked name v n ∙ sym (redact_part-masked name v' n) in
    let parts = map-same before after (name ++ 61 ∷ v) (name ++ 61 ∷ v') same in
    rw (h, h') (ap (λ (ws : List Text). redact self (join ws)) parts)

-- Without the fields that are called `request_hash`.
drop_hash : Fields → Fields
drop_hash close = close
drop_hash (field name v rest) =
    let others = drop_hash rest in
    if text_eq name (str "request_hash") then others else field name v others

unfoldable pub hashless : Value → Value
unfolding drop_hash
hashless (object fields) = object (drop_hash fields)
hashless v = v

plan_entry-hashless :
    (self : SecretRedactor) (i : ℕ) (a : Request) (hash : Text)
    → hashless (plan_entry self i a hash) ≡ hashless (plan_entry self i a [])
unfolding plan_entry hashless drop_hash text_eq str
plan_entry-hashless self i a hash = refl

-- The entries of actions with the hashes left out.
entries : SecretRedactor → ℕ → List Request → List Value
entries self i [] = []
entries self i (a ∷ actions) = hashless (plan_entry self i a []) ∷ entries self (suc i) actions

entries-same :
    (self : SecretRedactor) (i : ℕ) (front back : List Request) (a b : Request)
    → ((j : ℕ) → plan_entry self j a [] ≡ plan_entry self j b [])
    → entries self i (front ++ a ∷ back) ≡ entries self i (front ++ b ∷ back)
unfolding entries
entries-same self i [] back a b h = rw (h i) refl
entries-same self i (c ∷ front) back a b h =
    ap (λ (vs : List Value). hashless (plan_entry self i c []) ∷ vs)
      (entries-same self (suc i) front back a b h)

summaries_from-hashless :
    (x : Externals) (files : Files) (self : SecretRedactor) (i : ℕ) (actions : List Request)
    {shown : List Value}
    → summaries_from x files self i actions ≡ ok shown
    → map hashless shown ≡ entries self i actions
unfolding summaries_from entries
summaries_from-hashless x files self i [] h =
    ap (λ (vs : List Value). map hashless vs) (sym (ok-injective h))
summaries_from-hashless x files self i (a ∷ actions) h =
    let (hash, _, later) = >>=-eq-ok (request_hash x files a) _ h in
    let (rest, r, whole) = >>=-eq-ok (summaries_from x files self (suc i) actions) _ later in
    let tail = summaries_from-hashless x files self (suc i) actions {shown = rest} r in
    ap (λ (vs : List Value). map hashless vs) (sym (ok-injective whole))
    ∙ ap (λ (v : Value). v ∷ map hashless rest) (plan_entry-hashless self i a hash)
    ∙ ap (λ (vs : List Value). hashless (plan_entry self i a []) ∷ vs) tail

-- If the actions of two plans differ in the command of one action only, the two commands have the
-- same words, except for the value that one word assigns to `token`, `password` or `secret`, in either
-- case, and both plans' actions can be shown, then what is shown differs in nothing but request hashes.
pub plan_summaries-hides :
    (x : Externals) (files : Files) (self : SecretRedactor) (front back : List Request)
    (profile command command' : Text) (cwd : Option Text) (timeout : Option ℕ) (vars : List EnvVar)
    (before after : List Text) (name v v' : Text) (shown shown' : List Value)
    → IsSecretName name
    → split_whitespace command ≡ before ++ (name ++ 61 ∷ v) ∷ after
    → split_whitespace command' ≡ before ++ (name ++ 61 ∷ v') ∷ after
    → plan_summaries x files self (front ++ Request.exec profile command cwd timeout vars ∷ back)
      ≡ ok shown
    → plan_summaries x files self (front ++ Request.exec profile command' cwd timeout vars ∷ back)
      ≡ ok shown'
    → map hashless shown ≡ map hashless shown'
unfolding plan_summaries plan_entry request_name
plan_summaries-hides x files self front back profile command command' cwd timeout vars before after
      name v v' shown shown' n h h' p p' =
    let a = Request.exec profile command cwd timeout vars in
    let b = Request.exec profile command' cwd timeout vars in
    let same =
      shown_summary-hides self profile command command' cwd timeout vars before after name v v' n h
        h' in
    summaries_from-hashless x files self 0 (front ++ a ∷ back) {shown = shown} p
    ∙ entries-same self 0 front back a b (λ j. rw same refl)
    ∙ sym (summaries_from-hashless x files self 0 (front ++ b ∷ back) {shown = shown'} p')
