-- ===== src/Service/Decisions/Authorized.antt =====
-- A request runs only with an authority.
use ssh_gateway.Prelude.{
  Text, true, false, Option, none, some, ◌≡◌, refl, ap, ◌∙◌, ◌⊎◌, inl, inr, Any, arith, Bool-cases,
  unwrap_or_default,
}
use ssh_gateway.Errors.{ok, Result-cases}
use ssh_gateway.Config.{AppConfig}
use ssh_gateway.Protocol.{CallerType, enforces_agent_policy, Request, CommandResult}
use ssh_gateway.Externals.{Externals, Files}
use ssh_gateway.Policy.Engine
use ssh_gateway.Policy.Engine.{PolicyEffect, PolicyDecision}
use ssh_gateway.Approval.Service.{ApprovalService, Proposal, create}
use ssh_gateway.Grant.Service.{GrantService, consume, expire_grants}
use ssh_gateway.Grant.Service.Matches.{Serves, consume-Serves}
use ssh_gateway.Grant.Plans.{Plans, PlanCodec, PlanAuthorization, claim_plan_action, expire_plans}
use ssh_gateway.Grant.Plans.Next.{Authorizes, claim_plan_action-Authorizes}
use ssh_gateway.Resolution.Auth.{Platform}
use ssh_gateway.Service.Action.{Action, ◌>>=◌, lift}
use ssh_gateway.Service.World.{Operations}
use ssh_gateway.Service.Operations.{execute_authorized}
use ssh_gateway.Service.Decisions.Worlds.{Keeps, >>=-Keeps, execute_enveloped-world}
use ssh_gateway.Service.Decisions.{
  Gateway, Moments, open_approvals, open_grants, request_profile, is_allow, is_deny, runs_at_once,
  on_world, use_grant, claim_plan, ask, ask_approval, run_at_once, after_grant, confirm_by,
  after_plan, by_decision, resolve_operation,
}

abbrev pub profile_of : Request → Text
profile_of request = unwrap_or_default (request_profile request)

module _ {H : Type 0} (env : Platform) (ops : Operations H) (x : Externals) (y : PlanCodec) where
  -- Why the request may run.
  pub data Authority (config : AppConfig) (caller : CallerType) (files : Files) (task : Option Text)
      (request : Request) (at : Moments) (g : Gateway H) : Type 0 where
    -- the policy allows it
    by_policy :
        (d : PolicyDecision)
        → Engine.authorize config caller request ≡ ok d
        → is_allow d.effect ≡ true
        → Authority config caller files task request at g
    -- the policy does not deny it, and it is the next action of a plan of the task
    by_plan :
        (d : PolicyDecision) (self : GrantService) (t : Text) (auth : PlanAuthorization)
        → Engine.authorize config caller request ≡ ok d
        → is_deny d.effect ≡ false
        → open_grants config ≡ ok self
        → task ≡ some t
        → Any
            (Authorizes x y self files (profile_of request) t request at.plan_choice auth)
            (expire_plans at.plan_expiry g.plans)
        → Authority config caller files task request at g
    -- the policy has it confirmed under a rule, and a grant serves the rule
    by_grant :
        (d : PolicyDecision) (self : GrantService) (rule id : Text)
        → Engine.authorize config caller request ≡ ok d
        → is_deny d.effect ≡ false
        → d.rule_id ≡ some rule
        → open_grants config ≡ ok self
        → Any
            (λ r. (r.id ≡ id) × Serves self (profile_of request) rule task at.grant_choice r)
            (expire_grants at.grant_expiry g.grants)
        → Authority config caller files task request at g

  module _ (config : AppConfig) (caller : CallerType) (namespace : Text) (files : Files)
      (task : Option Text) (request : Request) (at : Moments) (g : Gateway H) where
    -- From `h`, the world is kept, or it is the world behind the request, which has an authority.
    abbrev pub Justified : Action (Gateway H) CommandResult → Gateway H → Type 0
    Justified m h =
        ((m h).1.world ≡ g.world)
        ⊎ (((m h).1.world
              ≡ (execute_authorized env ops config caller namespace at.running request g.world).1)
            × Authority config caller files task request at g)

    ask-Keeps :
        (d : PolicyDecision) (self : ApprovalService)
        → Keeps (ask env ops x y config files caller task request d at self)
    unfolding ask
    ask-Keeps d self h =
        let p : Proposal = record {
          request = request;
          caller = caller;
          rule_id = d.rule_id;
          reason = d.reason;
          risk = d.risk;
          summary = ops.summary config request;
          task_id = task;
        } in
        elim (Result-cases (create x files self p at.created at.new_id h.approvals).0) [
          | inl (r, e) ↦ rw e
          | inr (why, e) ↦ rw e
        ]

    after_grant-Justified :
        (d : PolicyDecision) (grant : Option Text) (h : Gateway H)
        → h.world ≡ g.world
        → ((id : Text) → grant ≡ some id → Authority config caller files task request at g)
        → Justified
            (after_grant env ops x y config caller namespace files task request at d grant)
            h
    unfolding after_grant ask_approval
    after_grant-Justified d none h w why = inl (
        >>=-Keeps (lift (open_approvals config))
          (ask env ops x y config files caller task request d at) (λ h. refl) (ask-Keeps d) h
        ∙ w)
    after_grant-Justified d (some id) h w why = inr (
      execute_enveloped-world env ops x y config caller namespace at none (some id) request h
          ∙ ap (λ v. (execute_authorized env ops config caller namespace at.running request v).1) w,
      why id refl,
    )

    confirm_by-Justified :
        (d : PolicyDecision) (self : GrantService) (rule : Option Text) (rows : Plans)
        → Engine.authorize config caller request ≡ ok d
        → is_deny d.effect ≡ false
        → open_grants config ≡ ok self
        → d.rule_id ≡ rule
        → Justified
            (confirm_by env ops x y config caller namespace files task request at self d rule)
            (record g { plans = rows })
    unfolding confirm_by use_grant
    confirm_by-Justified d self none rows a n o r = inl refl
    confirm_by-Justified d self (some rule) rows a n o r =
        let used =
          consume self (profile_of request) rule task at.grant_expiry at.grant_choice
            at.grant_attempts g.grants in
        after_grant-Justified d used.0 (record g { plans = rows; grants = used.1 }) refl
          (λ id e. by_grant d self rule id a n r o (
            consume-Serves self (profile_of request) rule task at.grant_expiry at.grant_choice
              at.grant_attempts g.grants id e))

    after_plan-Justified :
        (d : PolicyDecision) (self : GrantService) (plan : Option PlanAuthorization) (rows : Plans)
        → Engine.authorize config caller request ≡ ok d
        → is_deny d.effect ≡ false
        → open_grants config ≡ ok self
        → ((auth : PlanAuthorization)
            → plan ≡ some auth
            → Authority config caller files task request at g)
        → Justified
            (after_plan env ops x y config caller namespace files task request at self d plan)
            (record g { plans = rows })
    unfolding after_plan run_at_once on_world
    after_plan-Justified d self (some auth) rows a n o why = inr (
      execute_enveloped-world env ops x y config caller namespace at (some auth) none request
          (record g { plans = rows }),
      why auth refl,
    )
    after_plan-Justified d self none rows a n o why = elim (Bool-cases (is_allow d.effect)) [
      | inl e ↦ rw e (inr (refl, by_policy d a e))
      | inr e ↦ rw e (confirm_by-Justified d self d.rule_id rows a n o refl)
    ]

    claim_authority :
        (d : PolicyDecision) (self : GrantService) (auth : PlanAuthorization)
        → Engine.authorize config caller request ≡ ok d
        → is_deny d.effect ≡ false
        → open_grants config ≡ ok self
        → (t : Option Text) → task ≡ t
        → (claim_plan_action x y self files
            (profile_of request)
            t
            request
            at.plan_expiry
            at.plan_choice
            at.plan_lease
            g.plans).0
          ≡ ok (some auth)
        → Authority config caller files task request at g
    unfolding claim_plan_action
    claim_authority d self auth a n o none u h = absurd (cc)
    claim_authority d self auth a n o (some t) u h = by_plan d self t auth a n o u (
        claim_plan_action-Authorizes x y self files (profile_of request) t request at.plan_expiry
          at.plan_choice at.plan_lease g.plans auth h)

    claimed-Justified :
        (d : PolicyDecision) (self : GrantService)
        → Engine.authorize config caller request ≡ ok d
        → is_deny d.effect ≡ false
        → open_grants config ≡ ok self
        → Justified
            (claim_plan env ops x y self files caller (profile_of request) task request at
              >>= after_plan env ops x y config caller namespace files task request at self d)
            g
    unfolding claim_plan
    claimed-Justified d self a n o =
        let claim =
          claim_plan_action x y self files (profile_of request) task request at.plan_expiry
            at.plan_choice at.plan_lease g.plans in
        elim (Bool-cases (enforces_agent_policy caller)) [
          | inl e ↦ elim (Result-cases claim.0) [
            | inl (plan, c) ↦
                rw (e, c)
                  (after_plan-Justified d self plan claim.1 a n o
                    (λ auth p. claim_authority d self auth a n o task refl (c ∙ ap ok p)))
            | inr (why, c) ↦ rw (e, c) (inl refl)
          ]
          | inr e ↦ rw e (after_plan-Justified d self none g.plans a n o (λ auth p. absurd (cc)))
        ]

    decision-Justified :
        (d : PolicyDecision)
        → Engine.authorize config caller request ≡ ok d
        → Justified (by_decision env ops x y config caller namespace files task request at d) g
    unfolding by_decision run_at_once on_world claim_plan
    decision-Justified d a = elim (Bool-cases (is_deny d.effect)) [
      | inl e ↦ rw e (inl refl)
      | inr n ↦ rw n (elim (Bool-cases (runs_at_once config caller task d)) [
        | inl e ↦ rw e (inr (refl, by_policy d a (ground arith)))
        | inr e ↦ rw e (elim (Result-cases (open_grants config)) [
          | inl (self, o) ↦ rw o (claimed-Justified d self a n o)
          | inr (why, o) ↦ rw o (inl refl)
        ])
      ])
    ]

  -- A request leaves the sessions and the hosts alone, or does to them what its execution does, and
  -- then it has an authority: the policy allows it; or the policy does not deny it, and it is the next
  -- action of a live plan of the caller's task in the table, or a live grant in the table serves the
  -- rule that asks for the confirmation.
  pub resolve_operation-Justified :
      (config : AppConfig) (caller : CallerType) (namespace : Text) (files : Files)
      (task : Option Text) (request : Request) (at : Moments) (g : Gateway H)
      → Justified config caller namespace files task request at g
          (resolve_operation env ops x y config caller namespace files task request at)
          g
  unfolding resolve_operation
  resolve_operation-Justified config caller namespace files task request at g =
      elim (Result-cases (Engine.authorize config caller request)) [
        | inl (d, e) ↦ rw e (decision-Justified config caller namespace files task request at g d e)
        | inr (why, e) ↦ rw e (inl refl)
      ]
