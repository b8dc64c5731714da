-- ===== src/Approval/Service/Once.antt =====
-- An approval is claimed for execution at most once for each time that it is created.
use ssh_gateway.Prelude.{
  update, ℕ, Text, text_eq, text_eq_iff, Bool, true, not, some, List, [], ◌∷◌, ◌++◌, ◌+◌, ◌≤◌, ◌≡◌,
  ◌==◌, refl, arith, if◌then◌else◌, count, keep, Bool-cases, inl, inr, ==_iff,
}
use ssh_gateway.Errors.{Result, ok, err}
use ssh_gateway.Externals.{Externals, Files}
use ssh_gateway.Protocol.{Request}
use ssh_gateway.Approval.Rows.{Status, executing, ApprovalRow, is_final}
use ssh_gateway.Approval.Service.{
  ApprovalService, Table, Proposal, expire, create, claim, reject, finish, cleanup, is_overdue,
  is_pending_id, is_rejectable, is_executing_id, commit_claim, selected, insert, new_row, claimed,
}
use ssh_gateway.Approval.Service.Trace.{
  Op, creates, claims, rejects, finishes, cleans, expires, step, run, claimed_by, created_by,
  claim_count, create_count, succeeded, only_for,
}

-- The pending rows of an id.
abbrev pub pendings : Text → Table → ℕ
pendings id = count (is_pending_id id)

-- An update that makes no row pending leaves no more of them.
pendings-update :
    (id : Text) (p : ApprovalRow → Bool) (f : ApprovalRow → ApprovalRow) (rows : Table)
    → ((r : ApprovalRow) → is_pending_id id (f r) ≡ true → is_pending_id id r ≡ true)
    → pendings id (update p f rows) ≤ pendings id rows
unfolding update
pendings-update id p f [] h = omega arith
pendings-update id p f (r ∷ rows) h = ground (arith, h r, pendings-update id p f rows h)

pendings-claimed :
    (id : Text) (rows : Table)
    → pendings id (update (is_pending_id id) (λ r. record r { status = executing }) rows) ≡ 0
unfolding update
pendings-claimed id [] = refl
pendings-claimed id (r ∷ rows) = ground (arith, pendings-claimed id rows)

pendings-append :
    (id : Text) (rows : Table) (r : ApprovalRow)
    → pendings id (rows ++ r ∷ []) ≡ pendings id rows + (if is_pending_id id r then 1 else 0)
pendings-append id [] r = ground arith
pendings-append id (s ∷ rows) r = ground (arith, pendings-append id rows r)

pendings-keep :
    (id : Text) (p : ApprovalRow → Bool) (rows : Table)
    → pendings id (keep p rows) ≤ pendings id rows
pendings-keep id p [] = omega arith
pendings-keep id p (r ∷ rows) = ground (arith, pendings-keep id p rows)

pendings-expire :
    (id : Text) (now : ℕ) (rows : Table) → pendings id (expire now rows) ≤ pendings id rows
unfolding expire
pendings-expire id now rows = pendings-update id (is_overdue now) _ rows (λ r h. ground arith)

pendings-executing :
    (id other : Text) (rows : Table)
    → pendings id (update (is_pending_id other) (λ r. record r { status = executing }) rows)
      ≤ pendings id rows
pendings-executing id other rows =
    pendings-update id (is_pending_id other) (λ r. record r { status = executing }) rows
      (λ r h. ground arith)

succeeded-le {ℓ} : {A : Type ℓ} (r : Result A) → succeeded r ≤ 1
succeeded-le (ok a) = omega arith
succeeded-le (err e) = omega arith

commit_claim-pendings :
    (id other : Text) (rows : Table) (s : Result (ApprovalRow × Request))
    → only_for id other (succeeded (commit_claim other rows s).0)
        + pendings id (commit_claim other rows s).1
      ≤ pendings id rows
unfolding commit_claim
commit_claim-pendings id other rows (err e) = ground arith
commit_claim-pendings id other rows (ok (r, request)) =
    elim (Bool-cases (count (is_pending_id other) rows == 1)) [
      | inr e ↦ rw e (ground arith)
      | inl e ↦ elim (Bool-cases (text_eq other id)) [
        | inl same ↦
            rw (e, (text_eq_iff other id).0 same)
              (ground (
                arith,
                pendings-claimed id rows,
                succeeded-le (claimed other r request),
                (==_iff (count (is_pending_id other) rows) 1).0 e,
                (text_eq_iff other id).0 same,
              ))
        | inr differs ↦ rw (e, differs) (ground (arith, pendings-executing id other rows))
      ]
    ]

new_row-id :
    (x : Externals) (files : Files) (self : ApprovalService) (p : Proposal) (now : ℕ) (id : Text)
    (r : ApprovalRow)
    → new_row x files self p now id ≡ ok r
    → r.id ≡ id
unfolding new_row
new_row-id x files self p now id r h = ground arith

insert-pendings :
    (x : Externals) (id other : Text) (rows : Table) (made : Result ApprovalRow)
    → ((r : ApprovalRow) → made ≡ ok r → r.id ≡ other)
    → pendings id (insert x rows made).1
      ≤ pendings id rows + only_for id other (succeeded (insert x rows made).0)
unfolding insert
insert-pendings x id other rows (err e) h = ground arith
insert-pendings x id other rows (ok r) h = ground (arith, h r refl, pendings-append id rows r)

module _ (x : Externals) (id : Text) where
  -- No operation but a creation adds to the pending rows, and a claim takes one away.
  step-pendings :
      (op : Op) (rows : Table)
      → claimed_by x id op rows + pendings id (step x op rows)
        ≤ pendings id rows + created_by x id op rows
  unfolding step claimed_by created_by
  step-pendings (creates self files p now other) rows =
      unfold create in
      ground (
        arith,
        insert-pendings x id other rows (new_row x files self p now other)
            (new_row-id x files self p now other),
      )
  step-pendings (claims self files other t0 t1) rows =
      unfold claim in
      ground (
        arith,
        commit_claim-pendings id other (expire t0 rows)
            (selected x files self other t1 (expire t0 rows)),
        pendings-expire id t0 rows,
      )
  step-pendings (rejects other t0 t1) rows =
      unfold reject in
      ground (
        arith,
        pendings-update id (is_rejectable other t1) (λ r. record r { status = Status.rejected })
            (expire t0 rows) (λ r h. ground arith),
        pendings-expire id t0 rows,
      )
  step-pendings (finishes other success payload) rows =
      unfold finish in
      ground (
        arith,
        pendings-update id (is_executing_id other)
            (λ r. record r {
              status = if success then Status.executed else Status.failed;
              result_payload = some payload;
            })
            rows (λ r h. ground arith),
      )
  step-pendings (cleans now) rows =
      unfold cleanup in
      ground (
        arith,
        pendings-keep id (λ r. not (is_final r.status)) (expire now rows),
        pendings-expire id now rows,
      )
  step-pendings (expires now) rows = ground (arith, pendings-expire id now rows)

  run-pendings :
      (ops : List Op) (rows : Table)
      → claim_count x id ops rows + pendings id (run x ops rows)
        ≤ pendings id rows + create_count x id ops rows
  unfolding run claim_count create_count
  run-pendings [] rows = omega arith
  run-pendings (op ∷ ops) rows =
      omega (arith, step-pendings op rows, run-pendings ops (step x op rows))

  -- In any history of any service instances, from an empty table, an approval is claimed
  -- successfully at most as often as it is created.
  pub claim_count-le-create_count :
      (ops : List Op) → claim_count x id ops [] ≤ create_count x id ops []
  claim_count-le-create_count ops = omega (arith, run-pendings ops [])
