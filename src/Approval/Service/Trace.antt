-- ===== src/Approval/Service/Trace.antt =====
-- Histories of the approvals table: any sequence of the service's operations, by any instances.
use ssh_gateway.Prelude.{ℕ, Text, Bool, text_eq, List, [], ◌∷◌, ◌+◌, if◌then◌else◌}
use ssh_gateway.Errors.{Result, ok, err}
use ssh_gateway.Externals.{Externals, Files}
use ssh_gateway.Approval.Service.{
  ApprovalService, Table, Proposal, expire, create, claim, reject, finish, cleanup,
}

-- `expires` is what `list` and `show` do to the table.
pub data Op : Type 0 where
  creates : ApprovalService → Files → Proposal → ℕ → Text → Op
  claims : ApprovalService → Files → Text → ℕ → ℕ → Op
  rejects : Text → ℕ → ℕ → Op
  finishes : Text → Bool → Text → Op
  cleans expires : ℕ → Op

abbrev pub succeeded {ℓ} : {A : Type ℓ} → Result A → ℕ
succeeded (ok a) = 1
succeeded (err e) = 0

abbrev pub only_for : Text → Text → ℕ → ℕ
only_for id other n = if text_eq other id then n else 0

module _ (x : Externals) where
  unfoldable pub step : Op → Table → Table
  step (creates self files p now id) rows = (create x files self p now id rows).1
  step (claims self files id t0 t1) rows = (claim x files self id t0 t1 rows).1
  step (rejects id t0 t1) rows = (reject id t0 t1 rows).1
  step (finishes id success payload) rows = finish id success payload rows
  step (cleans now) rows = (cleanup now rows).1
  step (expires now) rows = expire now rows

  unfoldable pub run : List Op → Table → Table
  run [] rows = rows
  run (op ∷ ops) rows = run ops (step op rows)

  -- Whether the operation is a successful claim, or creation, of the approval.
  unfoldable pub claimed_by : Text → Op → Table → ℕ
  claimed_by id (claims self files other t0 t1) rows =
      only_for id other (succeeded (claim x files self other t0 t1 rows).0)
  claimed_by id _ rows = 0

  unfoldable pub created_by : Text → Op → Table → ℕ
  created_by id (creates self files p now other) rows =
      only_for id other (succeeded (create x files self p now other rows).0)
  created_by id _ rows = 0

  -- How many operations of a history claim, and create, the approval.
  unfoldable pub claim_count : Text → List Op → Table → ℕ
  claim_count id [] rows = 0
  claim_count id (op ∷ ops) rows = claimed_by id op rows + claim_count id ops (step op rows)

  unfoldable pub create_count : Text → List Op → Table → ℕ
  create_count id [] rows = 0
  create_count id (op ∷ ops) rows = created_by id op rows + create_count id ops (step op rows)
