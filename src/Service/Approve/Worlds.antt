-- ===== src/Service/Approve/Worlds.antt =====
-- Which steps of an approval leave the sessions and the hosts alone.
use ssh_gateway.Prelude.{ℕ, Text, Option, none, some, refl, inl, inr, Bool-cases}
use ssh_gateway.Errors.{ArrtError}
use ssh_gateway.Protocol.{CommandResult}
use ssh_gateway.Externals.{Externals}
use ssh_gateway.Policy.Engine.{PolicyDecision}
use ssh_gateway.Approval.Service.{ApprovalClaim}
use ssh_gateway.Grant.Service.{GrantService}
use ssh_gateway.Redaction.{SecretRedactor}
use ssh_gateway.Service.Action.{lift}
use ssh_gateway.Service.Decisions.Worlds.{Keeps, >>=-Keeps}
use ssh_gateway.Service.Approve.{
  Approve, Course, ResultCodec, is_confirm, on_approvals, show_row, finish_with, fail_with,
  create_for, grant_step, conclude,
}

module _ {H : Type 0} (x : Externals) (codec : ResultCodec) where
  pub show_row-Keeps : (id : Text) (now : ℕ) → Keeps {H = H} (show_row x codec id now)
  unfolding show_row
  show_row-Keeps id now g = refl

  pub finish_with-Keeps : (id : Text) (r : CommandResult) → Keeps {H = H} (finish_with x codec id r)
  unfolding finish_with on_approvals
  finish_with-Keeps id r =
      >>=-Keeps (lift (codec.encode_result r)) _ (λ g. refl) (λ payload g. refl)

  pub fail_with-Keeps : (c : ApprovalClaim) (e : ArrtError) → Keeps {H = H} (fail_with x codec c e)
  unfolding fail_with
  fail_with-Keeps c e =
      >>=-Keeps (finish_with x codec c.id _) _ (finish_with-Keeps c.id _) (λ _ g. refl)

  pub conclude-Keeps :
      (c : ApprovalClaim) (at : Course) (redactor : SecretRedactor) (r : CommandResult)
      → Keeps {H = H} (conclude x codec c at redactor r)
  unfolding conclude
  conclude-Keeps c at redactor r =
      >>=-Keeps (finish_with x codec c.id _) _ (finish_with-Keeps c.id _) (λ _.
        >>=-Keeps (show_row x codec c.id at.look_after) _ (show_row-Keeps c.id at.look_after)
          (λ _ g. refl))

  create_for-Keeps :
      (self : GrantService) (a : Approve) (at : Course) (rule : Option Text)
      → Keeps {H = H} (create_for x codec self a at rule)
  unfolding create_for
  create_for-Keeps self a at none = λ g. refl
  create_for-Keeps self a at (some rule) = λ g. refl

  pub grant_step-Keeps :
      (grants : Option GrantService) (a : Approve) (at : Course) (d : PolicyDecision)
      → Keeps {H = H} (grant_step x codec grants a at d)
  unfolding grant_step
  grant_step-Keeps none a at d = λ g. refl
  grant_step-Keeps (some self) a at d = λ g. elim (Bool-cases (is_confirm d.effect)) [
    | inl e ↦ rw e (
        >>=-Keeps (create_for x codec self a at d.rule_id) _ (create_for-Keeps self a at d.rule_id)
          (λ _ g. refl) g)
    | inr e ↦ rw e
  ]
