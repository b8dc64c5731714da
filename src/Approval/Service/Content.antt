-- ===== src/Approval/Service/Content.antt =====
-- Every row keeps the content that it was created with, whatever happens to the table.
use ssh_gateway.Prelude.{
  All-update, ℕ, Text, text_eq, Option, List, [], ◌∷◌, ◌≡◌, ◌==◌, refl, All, Any, Any-map, ap,
  All-append, All-keep, Bool-cases, inl, inr, any, count,
}
use ssh_gateway.Errors.{Result, ok, err}
use ssh_gateway.Externals.{Externals}
use ssh_gateway.Protocol.{Request}
use ssh_gateway.Approval.Rows.{Status, ApprovalRow}
use ssh_gateway.Approval.Service.{
  Table, expire, create, claim, reject, finish, cleanup, is_overdue, commit_claim, selected, insert,
  new_row, reject_in, is_pending_id, is_rejectable,
}
use ssh_gateway.Approval.Service.Trace.{
  Op, creates, claims, rejects, finishes, cleans, expires, step, run,
}

-- A property of rows that a change of the status and the result leaves alone.
abbrev pub Lasting : (ApprovalRow → Type 0) → Type 0
Lasting P =
    (r : ApprovalRow) (s : Status) (result : Option Text)
    → P r
    → P (record r { status = s; result_payload = result })

module _ (x : Externals) where
  -- The operation proposes the row.
  unfoldable pub Makes : ApprovalRow → Op → Type 0
  Makes r (creates self files p now id) = new_row x files self p now id ≡ ok r
  Makes r _ = ⊥

  module _ (P : ApprovalRow → Type 0) (lasting : Lasting P) where
    pub expire-All : (now : ℕ) (rows : Table) → All P rows → All P (expire now rows)
    unfolding expire
    expire-All now rows = All-update P (is_overdue now) _ rows (λ r h. lasting r _ _ h)

    commit_claim-All :
        (id : Text) (rows : Table) (s : Result (ApprovalRow × Request))
        → All P rows
        → All P (commit_claim id rows s).1
    unfolding commit_claim
    commit_claim-All id rows (err e) all = all
    commit_claim-All id rows (ok (r, request)) all =
        elim (Bool-cases (count (is_pending_id id) rows == 1)) [
          | inl e ↦ rw e (All-update P (is_pending_id id) _ rows (λ r h. lasting r _ _ h) all)
          | inr e ↦ rw e all
        ]

    insert-All :
        (rows : Table) (made : Result ApprovalRow)
        → ((r : ApprovalRow) → made ≡ ok r → P r)
        → All P rows
        → All P (insert x rows made).1
    unfolding insert
    insert-All rows (err e) h all = all
    insert-All rows (ok r) h all = elim (Bool-cases (any (λ other. text_eq other.id r.id) rows)) [
      | inl e ↦ rw e all
      | inr e ↦ rw e (All-append P rows (r ∷ []) all (h r refl, tt))
    ]

    reject_in-All :
        (id : Text) (now : ℕ) (rows : Table) → All P rows → All P (reject_in id now rows).1
    unfolding reject_in
    reject_in-All id now rows all = elim (Bool-cases (count (is_rejectable id now) rows == 1)) [
      | inl e ↦ rw e (All-update P (is_rejectable id now) _ rows (λ r h. lasting r _ _ h) all)
      | inr e ↦ rw e (All-update P (is_rejectable id now) _ rows (λ r h. lasting r _ _ h) all)
    ]

    step-All :
        (op : Op) (rows : Table)
        → ((r : ApprovalRow) → Makes r op → P r)
        → All P rows
        → All P (step x op rows)
    unfolding step Makes
    step-All (creates self files p now id) rows h all =
        unfold create in insert-All rows (new_row x files self p now id) h all
    step-All (claims self files id t0 t1) rows h all =
        unfold claim in
        commit_claim-All id (expire t0 rows) (selected x files self id t1 (expire t0 rows))
          (expire-All t0 rows all)
    step-All (rejects id t0 t1) rows h all =
        unfold reject in reject_in-All id t1 (expire t0 rows) (expire-All t0 rows all)
    step-All (finishes id success payload) rows h all =
        unfold finish in All-update P _ _ rows (λ r h. lasting r _ _ h) all
    step-All (cleans now) rows h all =
        unfold cleanup in All-keep P _ (expire now rows) (expire-All now rows all)
    step-All (expires now) rows h all = expire-All now rows all

    run-All :
        (ops : List Op) (rows : Table)
        → All (λ op. (r : ApprovalRow) → Makes r op → P r) ops
        → All P rows
        → All P (run x ops rows)
    unfolding run
    run-All [] rows h all = all
    run-All (op ∷ ops) rows h all = run-All ops (step x op rows) h.1 (step-All op rows h.0 all)

  -- The row as the operation made it, but for its status and result.
  unfoldable pub Stems : ApprovalRow → Op → Type 0
  Stems r op =
      (made : ApprovalRow) × Makes made op
      × (r ≡ record made { status = r.status; result_payload = r.result_payload })

  pub Stems-Lasting : (ops : List Op) → Lasting (λ r. Any (Stems r) ops)
  unfolding Stems
  Stems-Lasting ops r s result h =
      Any-map (Stems r) (Stems (record r { status = s; result_payload = result })) ops
        (λ op (made, m, e).
          (made, m, ap (λ (y : ApprovalRow). record y { status = s; result_payload = result }) e))
        h

  makers_stem :
      (xs ops : List Op)
      → ((r : ApprovalRow) → Any (Stems r) xs → Any (Stems r) ops)
      → All (λ op. (r : ApprovalRow) → Makes r op → Any (Stems r) ops) xs
  unfolding Stems
  makers_stem [] ops h = tt
  makers_stem (op ∷ xs) ops h =
      (λ r m. h r (inl (r, m, refl)), makers_stem xs ops (λ r a. h r (inr a)))

  -- Every row of the table stems from a creation in the table's history.
  pub run-Stems : (ops : List Op) → All (λ r. Any (Stems r) ops) (run x ops [])
  run-Stems ops =
      run-All (λ r. Any (Stems r) ops) (Stems-Lasting ops) ops [] (makers_stem ops ops (λ r a. a))
        tt
