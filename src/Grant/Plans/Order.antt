-- ===== src/Grant/Plans/Order.antt =====
-- The states of a plan: its actions are taken one at a time, in order.
pub mod Single
pub mod Steps
use ssh_gateway.Prelude.{
  is_none, ◌≢◌, ◌⊎◌, Any, Any-map, All-update_where, All-lookup, keep-Any, find?-Any, find?-eq_some,
  subst, ℕ, suc, Text, text_eq, text_eq_iff, Bool, true, false, Option, none, some, List, [], ◌∷◌,
  ◌++◌, ◌+◌, ◌≤◌, ◌<◌, ◌≡◌, ◌==◌, refl, arith, if◌then◌else◌, All, All-update, All-append, All-map,
  any, count, find?, keep, update, Bool-cases, inl, inr, ==_iff, is_empty, length, ◌&&◌, leb, sym,
  ap, ◌∙◌, not,
}
use ssh_gateway.Errors.{Result, ok, err}
use ssh_gateway.Protocol.{Request}
use ssh_gateway.Externals.{Externals, Files, saturating_add}
use ssh_gateway.Grant.Service.{GrantService}
use ssh_gateway.Grant.Plans.{
  PlanStatus, pending, approved, executing, completed, failed, rejected, expired, PlanRow, Plans,
  PlanAuthorization, PlanCodec, PlanProposal, propose_plan, new_plan, insert_plan, clashes,
  approve_plan, reject_plan, claim_plan_action, claim_row, commit_plan_claim, check_next,
  finish_plan_action, finish_success, finish_failure, expire_plans, is_id, is_claimed, is_claimable,
  is_overdue, lease_over, end_claim, is_approvable, is_pending_id, is_executing, status_after,
  advance, length_of, plan_claim_lease_seconds, is_current, newest, is_pending, is_waiting,
}
use ssh_gateway.Grant.Plans.Trace.{
  Op, proposes, approves, rejects, claims, finishes, expires, step, run,
}

abbrev pub IsUnclaimed : Option ℕ → Option ℕ → Type 0
IsUnclaimed claimed lease = (claimed ≡ none) × (lease ≡ none)

-- What each status says of the next index, the claim, its lease and the number of actions.
abbrev pub Shape : PlanStatus → ℕ → Option ℕ → Option ℕ → ℕ → Type 0
Shape pending next claimed lease n = (next ≡ 0) × (0 < n) × IsUnclaimed claimed lease
Shape approved next claimed lease n = (next < n) × IsUnclaimed claimed lease
Shape executing next claimed lease n = (next < n) × (claimed ≡ some next) × (lease ≢ none)
Shape completed next claimed lease n = (next ≡ n) × IsUnclaimed claimed lease
Shape _ next claimed lease n = (next < n) × IsUnclaimed claimed lease

module _ (y : PlanCodec) where
  -- The row's status agrees with its indices, `n` being the number of stored actions.
  abbrev pub IsWellFormed : PlanRow → Type 0
  IsWellFormed r =
      (n : ℕ) × (y.array_length r.actions_json ≡ some n)
      × Shape r.status r.next_index r.claimed_index r.claim_expires_at n

  ended :
      (s : PlanStatus) (next : ℕ) (claimed lease : Option ℕ) (n : ℕ)
      → is_executing s ≡ true
      → Shape s next claimed lease n
      → Shape failed next none none n
  ended executing next claimed lease n e h = (h.0, (refl, refl))
  ended pending next claimed lease n e h = cc
  ended approved next claimed lease n e h = cc
  ended completed next claimed lease n e h = cc
  ended failed next claimed lease n e h = cc
  ended rejected next claimed lease n e h = cc
  ended expired next claimed lease n e h = cc

  overdue :
      (s : PlanStatus) (next : ℕ) (claimed lease : Option ℕ) (n : ℕ)
      → is_waiting s ≡ true
      → Shape s next claimed lease n
      → Shape expired next claimed lease n
  overdue pending next claimed lease n e h = ground arith
  overdue approved next claimed lease n e h = h
  overdue executing next claimed lease n e h = cc
  overdue completed next claimed lease n e h = cc
  overdue failed next claimed lease n e h = cc
  overdue rejected next claimed lease n e h = cc
  overdue expired next claimed lease n e h = cc

  decided :
      (s : PlanStatus) (next : ℕ) (claimed lease : Option ℕ) (n : ℕ)
      → is_pending s ≡ true
      → Shape s next claimed lease n
      → Shape approved next claimed lease n × Shape rejected next claimed lease n
  decided pending next claimed lease n e h = ground arith
  decided approved next claimed lease n e h = cc
  decided executing next claimed lease n e h = cc
  decided completed next claimed lease n e h = cc
  decided failed next claimed lease n e h = cc
  decided rejected next claimed lease n e h = cc
  decided expired next claimed lease n e h = cc

  overdue_row :
      (now : ℕ) (r : PlanRow)
      → is_overdue now r ≡ true
      → IsWellFormed r
      → IsWellFormed (record r { status = expired })
  overdue_row now r e (n, a, h) =
      (n, a, overdue r.status r.next_index r.claimed_index r.claim_expires_at n (ground arith) h)

  ended_row :
      (r : PlanRow)
      → is_executing r.status ≡ true
      → IsWellFormed r
      → IsWellFormed (end_claim failed r)
  ended_row r e (n, a, h) =
      (n, a, ended r.status r.next_index r.claimed_index r.claim_expires_at n e h)

  decided_row :
      (r : PlanRow)
      → is_pending r.status ≡ true
      → IsWellFormed r
      → IsWellFormed (record r { status = approved })
        × IsWellFormed (record r { status = rejected })
  decided_row r e (n, a, h) =
      let both = decided r.status r.next_index r.claimed_index r.claim_expires_at n e h in
      ((n, a, both.0), (n, a, both.1))

-- The id is the primary key.
abbrev pub Unique : Plans → Type 0
Unique [] = Unit
Unique (r ∷ rows) = All (λ s. s.id ≢ r.id) rows × Unique rows

update-Unique :
    (p : PlanRow → Bool) (f : PlanRow → PlanRow) (rows : Plans)
    → ((r : PlanRow) → (f r).id ≡ r.id)
    → Unique rows
    → Unique (update p f rows)
unfolding update
update-Unique p f [] h u = tt
update-Unique p f (r ∷ rows) h u =
    let away : All (λ s. s.id ≢ r.id) (update p f rows) =
      All-update (λ s. s.id ≢ r.id) p f rows (λ s d e. d (sym (h s) ∙ e)) u.0 in
    elim (Bool-cases (p r)) [
      | inl e ↦ rw e (
        All-map (λ s. s.id ≢ r.id) (λ s. s.id ≢ (f r).id) (update p f rows) (λ s d e. d (e ∙ h r))
            away,
        update-Unique p f rows h u.1,
      )
      | inr e ↦ rw e (away, update-Unique p f rows h u.1)
    ]

append-Unique :
    (rows : Plans) (r : PlanRow)
    → any (clashes r) rows ≡ false
    → Unique rows
    → Unique (rows ++ r ∷ [])
append-Unique [] r h u = (tt, tt)
append-Unique (s ∷ rows) r h u = (
  All-append (λ z. z.id ≢ s.id) rows (r ∷ []) u.0
      (λ e. absurd (ground (arith, text_eq_iff s.id r.id)), tt),
  append-Unique rows r (ground arith) u.1,
)

module _ (P : PlanRow → Type 0) (p : PlanRow → Bool) (f : PlanRow → PlanRow) (r : PlanRow)
    (only : (s : PlanRow) → p s ≡ true → s.id ≡ r.id) where
  update-absent :
      (rows : Plans) → All (λ s. s.id ≢ r.id) rows → All P rows → All P (update p f rows)
  unfolding update
  update-absent [] d all = tt
  update-absent (s ∷ rows) d all = elim (Bool-cases (p s)) [
    | inl e ↦ absurd (d.0 (only s e))
    | inr e ↦ rw e (all.0, update-absent rows d.1 all.1)
  ]

  -- A change of the one row of an id.
  update-one :
      (rows : Plans)
      → Unique rows
      → Any (λ s. s ≡ r) rows
      → (p r ≡ true → P (f r))
      → All P rows
      → All P (update p f rows)
  unfolding update
  update-one [] u m h all = absurd m
  update-one (s ∷ rows) u (inl here) h all =
      let rest =
        update-absent rows (subst (λ (z : PlanRow). All (λ t. t.id ≢ z.id) rows) here u.0) all.1 in
      elim (Bool-cases (p s)) [
        | inl e ↦ rw e (
          subst (λ (z : PlanRow). P (f z)) (sym here)
              (h (subst (λ (z : PlanRow). p z ≡ true) here e)),
          rest,
        )
        | inr e ↦ rw e (all.0, rest)
      ]
  update-one (s ∷ rows) u (inr there) h all = elim (Bool-cases (p s)) [
    | inl e ↦ absurd (All-lookup (λ t. t.id ≢ s.id) rows u.0 there (sym (only s e)))
    | inr e ↦ rw e (all.0, update-one rows u.1 there h all.1)
  ]
