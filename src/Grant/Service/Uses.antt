-- ===== src/Grant/Service/Uses.antt =====
-- A grant is used at most as often as it was granted, and not at all once it is revoked.
use ssh_gateway.Prelude.{
  All-keep, Text, List, [], ◌∷◌, ◌+◌, ◌≤◌, ◌≡◌, ◌==◌, refl, arith, count, keep, update, Bool-cases,
  inl, inr,
}
use ssh_gateway.Externals.{Externals}
use ssh_gateway.Grant.Rows.{revoked, Grants, is_active, is_match, ordered}
use ssh_gateway.Grant.Service.{
  create_from_status, consume, revoke, cleanup_grants, expire_grants, new_grant, is_active_id,
}
use ssh_gateway.Grant.Service.Trace.{
  Op, creates, consumes, revokes, cleans, expires, step, run, used_by, granted_by, use_count,
  grant_count,
}
use ssh_gateway.Grant.Service.Left.{
  left, IsLimited, Limited, keep-left, expire_grants-left, expire_grants-Limited, attempts-left,
  insert_grant-left, new_grant-IsLimited, revoke-left,
}

module _ (x : Externals) (id : Text) where
  -- What a step leaves, and that it stores limits only.
  abbrev Accounts : Op → Grants → Type 0
  Accounts op rows =
      (used_by x id op rows + left id (step x op rows) ≤ left id rows + granted_by x id op rows)
      × Limited (step x op rows)

  step-left : (op : Op) (rows : Grants) → Limited rows → Accounts op rows
  unfolding step used_by granted_by
  step-left (creates self g required expected now other approvals) rows l =
      unfold create_from_status in
      let made = new_grant x self g required expected now other approvals in
      let law =
        insert_grant-left x id other rows made
          (new_grant-IsLimited x self g required expected now other approvals) l in
      (omega (arith, law.0), law.1)
  step-left (consumes self profile rule task t0 t1 clock) rows l =
      unfold consume in
      let law =
        attempts-left id clock 0
          (ordered (keep (is_match self.namespace profile rule task t1) (expire_grants t0 rows)))
          (expire_grants t0 rows) (expire_grants-Limited t0 rows l) in
      (omega (arith, law.0, expire_grants-left id t0 rows), law.1)
  step-left (revokes other) rows l =
      (omega (arith, (revoke-left id other rows l).0), (revoke-left id other rows l).1)
  step-left (cleans now) rows l =
      unfold cleanup_grants in
      (
        omega (
          arith,
          keep-left id (λ r. is_active r.status) (expire_grants now rows),
          expire_grants-left id now rows,
        ),
        All-keep (λ r. IsLimited r.max_uses) (λ r. is_active r.status) (expire_grants now rows)
            (expire_grants-Limited now rows l),
      )
  step-left (expires now) rows l =
      (omega (arith, expire_grants-left id now rows), expire_grants-Limited now rows l)

  run-left :
      (ops : List Op) (rows : Grants)
      → Limited rows
      → use_count x id ops rows ≤ left id rows + grant_count x id ops rows
  unfolding use_count grant_count
  run-left [] rows l = omega arith
  run-left (op ∷ ops) rows l =
      let law = step-left op rows l in omega (arith, law.0, run-left ops (step x op rows) law.1)

  -- In any history of any service instances, from an empty table, a grant is consumed at most as
  -- many times as the uses that its creation stored, however consumptions, revocations, expiries and
  -- removals interleave.
  pub use_count-le-grant_count : (ops : List Op) → use_count x id ops [] ≤ grant_count x id ops []
  use_count-le-grant_count ops = omega (arith, run-left ops [] tt)

  revoked_none :
      (rows : Grants)
      → left id (update (is_active_id id) (λ r. record r { status = revoked }) rows) ≡ 0
  unfolding update
  revoked_none [] = refl
  revoked_none (r ∷ rows) = ground (arith, revoked_none rows)

  revoke-none : (rows : Grants) → left id (revoke id rows).1 ≡ 0
  unfolding revoke
  revoke-none rows = elim (Bool-cases (count (is_active_id id) rows == 1)) [
    | inl e ↦ rw e (revoked_none rows)
    | inr e ↦ rw e (revoked_none rows)
  ]

  run-Limited : (ops : List Op) (rows : Grants) → Limited rows → Limited (run x ops rows)
  unfolding run
  run-Limited [] rows l = l
  run-Limited (op ∷ ops) rows l = run-Limited ops (step x op rows) (step-left op rows l).1

  -- Once a grant is revoked, at any point of any history from an empty table, what follows consumes
  -- at most the uses that later creations of the same id store: with no such creation, none.
  pub use_count-revoke :
      (before after : List Op)
      → use_count x id after (revoke id (run x before [])).1
        ≤ grant_count x id after (revoke id (run x before [])).1
  use_count-revoke before after =
      let limits = run-Limited before [] tt in
      let rows = run x before [] in
      omega (
        arith,
        run-left after (revoke id rows).1 (revoke-left id id rows limits).1,
        revoke-none rows,
      )
