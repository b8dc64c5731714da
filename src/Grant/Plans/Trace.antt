-- ===== src/Grant/Plans/Trace.antt =====
-- Histories of the plans table: any sequence of the service's operations, by any instances.
use ssh_gateway.Prelude.{ℕ, Text, Bool, Option, List, [], ◌∷◌}
use ssh_gateway.Protocol.{Request}
use ssh_gateway.Externals.{Externals, Files}
use ssh_gateway.Grant.Service.{GrantService}
use ssh_gateway.Grant.Plans.{
  Plans, PlanAuthorization, PlanCodec, PlanProposal, propose_plan, approve_plan, reject_plan,
  claim_plan_action, finish_plan_action, expire_plans,
}

-- `expires` is what `list_plans` and `show_plan` do.
pub data Op : Type 0 where
  proposes : GrantService → Files → PlanProposal → ℕ → Text → Op
  approves : Text → ℕ → ℕ → Op
  rejects : Text → Op
  claims : GrantService → Files → Text → Option Text → Request → ℕ → ℕ → ℕ → Op
  finishes : PlanAuthorization → Bool → Op
  expires : ℕ → Op

module _ (x : Externals) (y : PlanCodec) where
  unfoldable pub step : Op → Plans → Plans
  step (proposes self files p now id) rows = (propose_plan x y self files p now id rows).1
  step (approves id t0 t1) rows = (approve_plan id t0 t1 rows).1
  step (rejects id) rows = (reject_plan id rows).1
  step (claims self files profile task request t0 t1 t2) rows =
      (claim_plan_action x y self files profile task request t0 t1 t2 rows).1
  step (finishes auth success) rows = (finish_plan_action x y auth success rows).1
  step (expires now) rows = expire_plans now rows

  unfoldable pub run : List Op → Plans → Plans
  run [] rows = rows
  run (op ∷ ops) rows = run ops (step op rows)
