-- ===== src/Grant/Service/Trace.antt =====
-- Histories of the grants table: any sequence of the service's operations, by any instances.
use ssh_gateway.Prelude.{ℕ, Text, text_eq, Option, none, some, List, [], ◌∷◌, ◌+◌, if◌then◌else◌}
use ssh_gateway.Errors.{Result, ok, err}
use ssh_gateway.Externals.{Externals}
use ssh_gateway.Approval.Rows.{ApprovalRow}
use ssh_gateway.Grant.Rows.{GrantRow, Grants}
use ssh_gateway.Grant.Service.{
  GrantService, Grant, Required, create_from_status, consume, revoke, cleanup_grants, expire_grants,
}

-- `creates` holds the approvals table at that moment; `expires` is what `list` and `show` do.
pub data Op : Type 0 where
  creates : GrantService → Grant → Required → Option Text → ℕ → Text → List ApprovalRow → Op
  consumes : GrantService → Text → Text → Option Text → ℕ → ℕ → (ℕ → ℕ) → Op
  revokes : Text → Op
  cleans expires : ℕ → Op

abbrev pub uses_of : Option ℕ → ℕ
uses_of none = 0
uses_of (some n) = n

abbrev pub granted : Text → Text → Result GrantRow → ℕ
granted id other (ok r) = if text_eq other id then uses_of r.max_uses else 0
granted id other (err e) = 0

abbrev pub taken : Text → Option Text → ℕ
taken id none = 0
taken id (some other) = if text_eq other id then 1 else 0

module _ (x : Externals) where
  unfoldable pub step : Op → Grants → Grants
  step (creates self g required expected now id approvals) rows =
      (create_from_status x self g required expected now id approvals rows).1
  step (consumes self profile rule task t0 t1 clock) rows =
      (consume self profile rule task t0 t1 clock rows).1
  step (revokes id) rows = (revoke id rows).1
  step (cleans now) rows = (cleanup_grants now rows).1
  step (expires now) rows = expire_grants now rows

  unfoldable pub run : List Op → Grants → Grants
  run [] rows = rows
  run (op ∷ ops) rows = run ops (step op rows)

  -- Whether the operation consumes a use of the grant.
  unfoldable pub used_by : Text → Op → Grants → ℕ
  used_by id (consumes self profile rule task t0 t1 clock) rows =
      taken id (consume self profile rule task t0 t1 clock rows).0
  used_by id _ rows = 0

  -- The uses that the operation grants, if it creates the grant.
  unfoldable pub granted_by : Text → Op → Grants → ℕ
  granted_by id (creates self g required expected now other approvals) rows =
      granted id other (create_from_status x self g required expected now other approvals rows).0
  granted_by id _ rows = 0

  -- How many uses of the grant a history consumes, and how many it grants.
  unfoldable pub use_count : Text → List Op → Grants → ℕ
  use_count id [] rows = 0
  use_count id (op ∷ ops) rows = used_by id op rows + use_count id ops (step op rows)

  unfoldable pub grant_count : Text → List Op → Grants → ℕ
  grant_count id [] rows = 0
  grant_count id (op ∷ ops) rows = granted_by id op rows + grant_count id ops (step op rows)
