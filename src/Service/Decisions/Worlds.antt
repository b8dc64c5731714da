-- ===== src/Service/Decisions/Worlds.antt =====
-- Which actions leave the sessions and the hosts alone.
use ssh_gateway.Prelude.{ℕ, Text, Bool, Option, none, some, ◌≡◌, refl, ◌∙◌, inl, inr}
use ssh_gateway.Errors.{Result-cases}
use ssh_gateway.Config.{AppConfig}
use ssh_gateway.Protocol.{CallerType, Request, CommandResult}
use ssh_gateway.Externals.{Externals}
use ssh_gateway.Grant.Plans.{PlanCodec, PlanAuthorization, finish_plan_action}
use ssh_gateway.Resolution.Auth.{Platform}
use ssh_gateway.Service.Action.{Action, ◌>>=◌, lift}
use ssh_gateway.Service.World.{Operations}
use ssh_gateway.Service.Operations.{execute_authorized}
use ssh_gateway.Service.Decisions.{
  Gateway, Moments, succeeded, on_world, show_grant, mark, finish_plan, execute_enveloped,
}

module _ {H : Type 0} where
  -- The action leaves the sessions and the hosts alone.
  abbrev pub Keeps : {A : Type 0} → Action (Gateway H) A → Type 0
  Keeps m = (g : Gateway H) → (m g).1.world ≡ g.world

  pub >>=-Keeps :
      {A B : Type 0} (m : Action (Gateway H) A) (next : A → Action (Gateway H) B)
      → Keeps m
      → ((a : A) → Keeps (next a))
      → Keeps (m >>= next)
  >>=-Keeps m next first rest g = elim (Result-cases (m g).0) [
    | inl (a, e) ↦ rw e (rest a (m g).1 ∙ first g)
    | inr (why, e) ↦ rw e (first g)
  ]

  show_grant-Keeps : (id : Text) (now : ℕ) → Keeps (show_grant id now)
  unfolding show_grant
  show_grant-Keeps id now g = refl

  mark-Keeps : (grant : Option Text) (now : ℕ) (r : CommandResult) → Keeps (mark grant now r)
  unfolding mark
  mark-Keeps none now r = λ g. refl
  mark-Keeps (some id) now r =
      >>=-Keeps (show_grant id now) _ (show_grant-Keeps id now) (λ a g. refl)

module _ {H : Type 0} (env : Platform) (ops : Operations H) (x : Externals) (y : PlanCodec) where
  finish_plan-Keeps :
      (plan : Option PlanAuthorization) (success : Bool)
      → Keeps (finish_plan env ops x y plan success)
  unfolding finish_plan
  finish_plan-Keeps none success g = refl
  finish_plan-Keeps (some auth) success g =
      elim (Result-cases (finish_plan_action x y auth success g.plans).0) [
        | inl (a, e) ↦ rw e refl
        | inr (why, e) ↦ rw e refl
      ]

  pub execute_enveloped-world :
      (config : AppConfig) (caller : CallerType) (namespace : Text) (at : Moments)
      (plan : Option PlanAuthorization) (grant : Option Text) (request : Request) (g : Gateway H)
      → (execute_enveloped env ops x y config caller namespace at plan grant request g).1.world
        ≡ (execute_authorized env ops config caller namespace at.running request g.world).1
  unfolding execute_enveloped on_world
  execute_enveloped-world config caller namespace at plan grant request g =
      let ran = execute_authorized env ops config caller namespace at.running request g.world in
      >>=-Keeps (finish_plan env ops x y plan (succeeded ran.0)) _
        (finish_plan-Keeps plan (succeeded ran.0))
        (λ _. >>=-Keeps (lift ran.0) _ (λ g. refl) (mark-Keeps grant at.grant_shown))
        (record g { world = ran.1 })
