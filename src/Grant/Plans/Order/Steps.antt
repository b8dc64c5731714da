-- ===== src/Grant/Plans/Order/Steps.antt =====
-- Every operation on plans keeps the states of the plans in order.
use ssh_gateway.Prelude.{
  is_none, ℕ, Text, text_eq_iff, str, option_eq, true, false, Option, none, some, List, [], ◌∷◌,
  ◌≡◌, ◌==◌, refl, arith, All, Any, Any-map, All-update_where, All-append, All-lookup, any, count,
  find?, find?-Any, find?-eq_some, keep, keep-Any, update, Bool-cases, Option-cases, inl, inr,
  is_empty, length, ◌||◌, subst, not,
}
use ssh_gateway.Errors.{Result, ok, err, >>=-eq-ok, >>-eq-ok, ok-injective}
use ssh_gateway.Protocol.{Request}
use ssh_gateway.Externals.{Externals, Files, saturating_add}
use ssh_gateway.Grant.Service.{GrantService, require}
use ssh_gateway.Grant.Plans.{
  executing, failed, PlanRow, Plans, PlanAuthorization, PlanCodec, PlanProposal, propose_plan,
  new_plan, insert_plan, clashes, approve_plan, reject_plan, claim_plan_action, claim_row,
  commit_plan_claim, check_next, finish_plan_action, finish_success, finish_failure, expire_plans,
  is_id, is_claimed, is_claimable, is_overdue, lease_over, end_claim, is_approvable, is_pending_id,
  status_after, advance, length_of, plan_claim_lease_seconds, is_current, newest, is_started,
  plan_hash, request_profile,
}
use ssh_gateway.Grant.Plans.Trace.{
  Op, proposes, approves, rejects, claims, finishes, expires, step, run,
}
use ssh_gateway.Grant.Plans.Order
use ssh_gateway.Grant.Plans.Order.Single.{
  newest-Any, tested, nonempty, require-true, started, advanced,
}

module _ (y : PlanCodec) where
  -- The table is well formed, and its ids are distinct.
  abbrev pub IsOrdered : Plans → Type 0
  IsOrdered rows = All (Order.IsWellFormed y) rows × Order.Unique rows

  expire_plans-IsOrdered :
      (now : ℕ) (rows : Plans) → IsOrdered rows → IsOrdered (expire_plans now rows)
  unfolding expire_plans
  expire_plans-IsOrdered now rows (w, u) =
      let rows' = update (lease_over now) (end_claim failed) rows in
      (
        All-update_where (Order.IsWellFormed y) (is_overdue now) _ rows' (Order.overdue_row y now) (
            All-update_where (Order.IsWellFormed y) (lease_over now) (end_claim failed) rows
              (λ r e h. Order.ended_row y r (ground arith) h) w),
        Order.update-Unique (is_overdue now) _ rows' (λ r. refl)
            (Order.update-Unique (lease_over now) (end_claim failed) rows (λ r. refl) u),
      )

  approve_plan-IsOrdered :
      (id : Text) (t0 t1 : ℕ) (rows : Plans)
      → IsOrdered rows
      → IsOrdered (approve_plan id t0 t1 rows).1
  unfolding approve_plan
  approve_plan-IsOrdered id t0 t1 rows o =
      let rows' = expire_plans t0 rows in
      let (w, u) = expire_plans-IsOrdered t0 rows o in
      (
        All-update_where (Order.IsWellFormed y) (is_approvable id t1) _ rows'
            (λ r e h. (Order.decided_row y r (ground arith) h).0) w,
        Order.update-Unique (is_approvable id t1) _ rows' (λ r. refl) u,
      )

  reject_plan-IsOrdered :
      (id : Text) (rows : Plans) → IsOrdered rows → IsOrdered (reject_plan id rows).1
  unfolding reject_plan
  reject_plan-IsOrdered id rows (w, u) = (
    All-update_where (Order.IsWellFormed y) (is_pending_id id) _ rows
        (λ r e h. (Order.decided_row y r (ground arith) h).1) w,
    Order.update-Unique (is_pending_id id) _ rows (λ r. refl) u,
  )

  commit_plan_claim-IsOrdered :
      (x : Externals) (request : Request) (now : ℕ) (r : PlanRow) (rows : Plans)
      (c : Result (Unit {0}))
      → (c ≡ ok tt → is_none r.claimed_index ≡ true)
      → is_started r.status ≡ true
      → Any (λ s. s ≡ r) rows
      → IsOrdered rows
      → IsOrdered (commit_plan_claim x y request now r rows c).1
  unfolding commit_plan_claim
  commit_plan_claim-IsOrdered x request now r rows (err e) free s m o = o
  commit_plan_claim-IsOrdered x request now r rows (ok u) free s m o =
      let (n, a, h) = All-lookup (Order.IsWellFormed y) rows o.0 m in
      let less =
        started r.status r.next_index r.claimed_index r.claim_expires_at n s (free refl) h in
      let lease = λ (s : PlanRow). record s {
        status = executing;
        claimed_index = some r.next_index;
        claim_expires_at = some (saturating_add now (plan_claim_lease_seconds request));
      } in
      elim (Bool-cases (count (is_claimable r.id r.next_index) rows == 1)) [
        | inr e ↦ rw e o
        | inl e ↦ rw e (
          Order.update-one (Order.IsWellFormed y) (is_claimable r.id r.next_index) lease r
              (λ s p. ground (arith, text_eq_iff s.id r.id)) rows o.1 m
              (λ _. (n, a, (less, refl, λ q. absurd (cc)))) o.0,
          Order.update-Unique (is_claimable r.id r.next_index) lease rows (λ s. refl) o.1,
        )
      ]

  check_next-free :
      (x : Externals) (files : Files) (request : Request) (r : PlanRow)
      → check_next x y files request r ≡ ok tt
      → is_none r.claimed_index ≡ true
  unfolding check_next
  check_next-free x files request r h =
      ground (arith, (>>-eq-ok (require (is_none r.claimed_index) _) _ h).0)

  pub newest_started :
      (namespace : Option Text) (profile task : Text) (now : ℕ) (rows : Plans) {r : PlanRow}
      → newest (keep (is_current namespace profile task now) rows) ≡ some r
      → Any (λ s. (s ≡ r) × (is_current namespace profile task now s ≡ true)) rows
  newest_started namespace profile task now rows {r} h =
      keep-Any (λ s. s ≡ r) (is_current namespace profile task now) rows
        (newest-Any (keep (is_current namespace profile task now) rows) h)

  claim_plan_action-IsOrdered :
      (x : Externals) (self : GrantService) (files : Files) (profile : Text) (task : Option Text)
      (request : Request) (t0 t1 t2 : ℕ) (rows : Plans)
      → IsOrdered rows
      → IsOrdered (claim_plan_action x y self files profile task request t0 t1 t2 rows).1
  unfolding claim_plan_action
  claim_plan_action-IsOrdered x self files profile none request t0 t1 t2 rows o = o
  claim_plan_action-IsOrdered x self files profile (some task) request t0 t1 t2 rows o =
      unfold claim_row in
      let rows' = expire_plans t0 rows in
      let o' = expire_plans-IsOrdered t0 rows o in
      let q = is_current self.namespace profile task t1 in
      elim (Option-cases (newest (keep q rows'))) [
        | inl e ↦ rw e o'
        | inr (r, e) ↦
            let m = newest_started self.namespace profile task t1 rows' e in
            let here = Any-map _ (λ s. s ≡ r) rows' (λ s z. z.0) m in
            let test = tested q rows' m in
            rw e (
              commit_plan_claim-IsOrdered x request t2 r rows' (check_next x y files request r)
                (check_next-free x files request r) (ground arith) here o')
      ]

  new_plan-IsWellFormed :
      (x : Externals) (self : GrantService) (files : Files) (p : PlanProposal) (now : ℕ) (id : Text)
      (r : PlanRow)
      → ((actions : List Request) (t : Text)
          → y.encode_actions actions ≡ ok t
          → y.array_length t ≡ some (length actions))
      → new_plan x y self files p now id ≡ ok r
      → Order.IsWellFormed y r
  unfolding new_plan
  new_plan-IsWellFormed x self files p now id r lengths h =
      let given = not (is_empty (y.trim p.task_id) || is_empty p.actions) in
      let (some_action, h1) =
        >>-eq-ok (require given (str "plan requires task_id and at least one action")) _ h in
      let foreign = any (λ a. not (option_eq (request_profile a) (some p.profile))) p.actions in
      let (_, h2) =
        >>-eq-ok (require (not foreign) (str "all plan actions must use the plan profile")) _ h1 in
      let (payload, e, h3) = >>=-eq-ok (y.encode_actions p.actions) _ h2 in
      let (hash, _, h4) = >>=-eq-ok (plan_hash x y files p.actions) _ h3 in
      let filled =
        require-true given (str "plan requires task_id and at least one action") some_action in
      subst (Order.IsWellFormed y) (ok-injective h4) (
        length p.actions,
        lengths p.actions payload e,
        (refl, nonempty p.actions (ground arith), (refl, refl)),
      )

  insert_plan-IsOrdered :
      (x : Externals) (rows : Plans) (made : Result PlanRow)
      → ((r : PlanRow) → made ≡ ok r → Order.IsWellFormed y r)
      → IsOrdered rows
      → IsOrdered (insert_plan x rows made).1
  unfolding insert_plan
  insert_plan-IsOrdered x rows (err e) h o = o
  insert_plan-IsOrdered x rows (ok r) h o = elim (Bool-cases (any (clashes r) rows)) [
    | inl e ↦ rw e o
    | inr e ↦ rw e (
      All-append (Order.IsWellFormed y) rows (r ∷ []) o.0 (h r refl, tt),
      Order.append-Unique rows r e o.1,
    )
  ]

  finish_failure-IsOrdered :
      (x : Externals) (auth : PlanAuthorization) (rows : Plans)
      → IsOrdered rows
      → IsOrdered (finish_failure x y auth rows).1
  unfolding finish_failure
  finish_failure-IsOrdered x auth rows (w, u) = (
    All-update_where (Order.IsWellFormed y) (is_claimed auth) (end_claim failed) rows
        (λ r e h. Order.ended_row y r (ground arith) h) w,
    Order.update-Unique (is_claimed auth) (end_claim failed) rows (λ r. refl) u,
  )

  finish_success-IsOrdered :
      (x : Externals) (auth : PlanAuthorization) (rows : Plans) (o : Option PlanRow)
      → find? (is_id auth.plan_id) rows ≡ o
      → IsOrdered rows
      → IsOrdered (finish_success x y auth (length_of y o) rows).1
  unfolding finish_success
  finish_success-IsOrdered x auth rows none e i = i
  finish_success-IsOrdered x auth rows (some r) e i =
      let m = find?-Any (is_id auth.plan_id) rows e in
      let named = (text_eq_iff r.id auth.plan_id).0 (find?-eq_some (is_id auth.plan_id) rows e) in
      let (n, a, h) = All-lookup (Order.IsWellFormed y) rows i.0 m in
      let f = advance (status_after auth.action_index n) in
      rw a (
        Order.update-one (Order.IsWellFormed y) (is_claimed auth) f r
            (λ s c. ground (arith, text_eq_iff s.id auth.plan_id)) rows i.1 m
            (λ c. (
              n,
              a,
              advanced r.status r.next_index r.claimed_index r.claim_expires_at n auth.action_index
                  (ground arith) (ground arith) h,
            ))
            i.0,
        Order.update-Unique (is_claimed auth) f rows (λ s. refl) i.1,
      )

module _ (x : Externals) (y : PlanCodec)
    (lengths : (actions : List Request) (t : Text)
      → y.encode_actions actions ≡ ok t
      → y.array_length t ≡ some (length actions)) where
  step-IsOrdered : (op : Op) (rows : Plans) → IsOrdered y rows → IsOrdered y (step x y op rows)
  unfolding step
  step-IsOrdered (proposes self files p now id) rows o =
      unfold propose_plan in
      insert_plan-IsOrdered y x rows (new_plan x y self files p now id)
        (λ r h. new_plan-IsWellFormed y x self files p now id r lengths h) o
  step-IsOrdered (approves id t0 t1) rows o = approve_plan-IsOrdered y id t0 t1 rows o
  step-IsOrdered (rejects id) rows o = reject_plan-IsOrdered y id rows o
  step-IsOrdered (claims self files profile task request t0 t1 t2) rows o =
      claim_plan_action-IsOrdered y x self files profile task request t0 t1 t2 rows o
  step-IsOrdered (finishes auth true) rows o =
      unfold finish_plan_action in
      finish_success-IsOrdered y x auth rows (find? (is_id auth.plan_id) rows) refl o
  step-IsOrdered (finishes auth false) rows o =
      unfold finish_plan_action in finish_failure-IsOrdered y x auth rows o
  step-IsOrdered (expires now) rows o = expire_plans-IsOrdered y now rows o

  run_from-IsOrdered :
      (ops : List Op) (rows : Plans) → IsOrdered y rows → IsOrdered y (run x y ops rows)
  unfolding run
  run_from-IsOrdered [] rows o = o
  run_from-IsOrdered (op ∷ ops) rows o =
      run_from-IsOrdered ops (step x y op rows) (step-IsOrdered op rows o)

  -- After any history from an empty table, plan ids are distinct and each plan's status agrees with
  -- its indices: a pending plan is at its first action, exactly an executing plan has a claim, which
  -- is on its next action and has a lease, a completed plan has passed all its actions, and any
  -- other has not. The database's array length of an encoded list is assumed to be its length.
  pub run-IsOrdered : (ops : List Op) → IsOrdered y (run x y ops [])
  run-IsOrdered ops = run_from-IsOrdered ops [] (tt, tt)
