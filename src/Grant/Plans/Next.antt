-- ===== src/Grant/Plans/Next.antt =====
-- What a claim of a plan's action authorizes.
use ssh_gateway.Prelude.{
  is_none, ℕ, Text, str, text_eq, text_eq_iff, option_eq_iff, true, Option, none, some, List, ◌<◌,
  ◌≡◌, ◌==◌, refl, arith, sym, subst, ap, ◌∙◌, if◌then◌else◌, Any, Any-map, Bool-cases,
  Option-cases, inl, inr, count, keep, get_elem?,
}
use ssh_gateway.Errors.{Result, ok, err, policy_denied, >>=-eq-ok, >>-eq-ok}
use ssh_gateway.Protocol.{Request}
use ssh_gateway.Externals.{Externals, Files, request_hash}
use ssh_gateway.Grant.Service.{GrantService, require, or_error}
use ssh_gateway.Grant.Plans.{
  PlanRow, Plans, PlanAuthorization, PlanCodec, claim_plan_action, claim_row, commit_plan_claim,
  check_next, expire_plans, is_claimable, is_current, is_started, newest, plan_hash,
}
use ssh_gateway.Grant.Plans.Order.Single.{tested, require-true}
use ssh_gateway.Grant.Plans.Order.Steps.{newest_started}

module _ (x : Externals) (y : PlanCodec) where
  -- The request is the plan's next action, and the stored plan is the one that was hashed.
  pub record Checked (files : Files) (request : Request) (r : PlanRow) : Type 0 where
    pub free : is_none r.claimed_index ≡ true
    pub actions : List Request
    pub decoded : y.decode_actions r.actions_json ≡ ok actions
    pub intact : plan_hash x y files actions ≡ ok r.plan_hash
    pub action : Request
    pub at_next : get_elem? actions r.next_index ≡ some action
    pub same_hash : request_hash x files request ≡ request_hash x files action
    pub hash : Text
    pub hashed : request_hash x files request ≡ ok hash

  -- The authorization is for the row's next action, and the row serves the caller.
  pub record Authorizes (self : GrantService) (files : Files) (profile task : Text)
      (request : Request) (now : ℕ) (auth : PlanAuthorization) (r : PlanRow) : Type 0 where
    pub plan_is : auth.plan_id ≡ r.id
    pub index_is : auth.action_index ≡ r.next_index
    pub profile_is : r.profile ≡ profile
    pub task_is : r.task_id ≡ task
    pub namespace_is : r.authorization_namespace ≡ self.namespace
    pub started_is : is_started r.status ≡ true
    pub live : now < r.expires_at
    pub checked : Checked files request r

  or_error-ok : {A : Type 0} (o : Option A) (m : Text) {a : A} → or_error o m ≡ ok a → o ≡ some a
  or_error-ok none m h = cc
  or_error-ok (some a) m h = cc

  same_text :
      (h k : Text)
      → (if text_eq h k
          then ok (tt {0})
          else err (policy_denied (str "request does not match the next approved plan action")))
        ≡ ok tt
      → h ≡ k
  same_text h k e = ground (arith, text_eq_iff h k)

  check_next-Checked :
      (files : Files) (request : Request) (r : PlanRow)
      → check_next x y files request r ≡ ok tt
      → Checked files request r
  unfolding check_next
  check_next-Checked files request r h =
      let (f, h1) =
        >>-eq-ok (require (is_none r.claimed_index) (str "plan action is already executing")) _ h in
      let (actions, d, h2) = >>=-eq-ok (y.decode_actions r.actions_json) _ h1 in
      let (hash, p, h3) = >>=-eq-ok (plan_hash x y files actions) _ h2 in
      let (t, h4) =
        >>-eq-ok (require (text_eq hash r.plan_hash) (str "approved plan content hash mismatch")) _
          h3 in
      let (a, g, h5) =
        >>=-eq-ok (or_error (get_elem? actions r.next_index) (str "plan has no next action")) _
          h4 in
      let (u, e, h6) = >>=-eq-ok (request_hash x files a) _ h5 in
      let (v, k, h7) = >>=-eq-ok (request_hash x files request) _ h6 in
      let equal = same_text u v h7 in
      record {
        free = require-true (is_none r.claimed_index) (str "plan action is already executing") f;
        actions = actions;
        decoded = d;
        intact =
            p
            ∙ ap ok (
                (text_eq_iff hash r.plan_hash).0 (
                  require-true (text_eq hash r.plan_hash)
                    (str "approved plan content hash mismatch") t));
        action = a;
        at_next = or_error-ok (get_elem? actions r.next_index) (str "plan has no next action") g;
        same_hash = k ∙ ap ok (sym equal) ∙ sym e;
        hash = v;
        hashed = k;
      }

  commit_plan_claim-auth :
      (request : Request) (now : ℕ) (r : PlanRow) (rows : Plans) (c : Result (Unit {0}))
      (auth : PlanAuthorization)
      → (commit_plan_claim x y request now r rows c).0 ≡ ok (some auth)
      → (c ≡ ok tt) × (auth.plan_id ≡ r.id) × (auth.action_index ≡ r.next_index)
  unfolding commit_plan_claim
  commit_plan_claim-auth request now r rows (err e) auth h = absurd (cc)
  commit_plan_claim-auth request now r rows (ok u) auth h =
      elim (Bool-cases (count (is_claimable r.id r.next_index) rows == 1)) [
        | inl e ↦ (refl, ground arith, ground arith)
        | inr e ↦ absurd (ground arith)
      ]

  -- A claimed action is authorized by a plan of the table behind the expiry that is approved or
  -- executing, unexpired, of the caller's profile, task and namespace, that has no claim, whose
  -- stored actions still have the stored hash, and whose next action has the request's hash.
  pub claim_plan_action-Authorizes :
      (self : GrantService) (files : Files) (profile task : Text) (request : Request) (t0 t1 t2 : ℕ)
      (rows : Plans) (auth : PlanAuthorization)
      → (claim_plan_action x y self files profile (some task) request t0 t1 t2 rows).0
        ≡ ok (some auth)
      → Any (Authorizes self files profile task request t1 auth) (expire_plans t0 rows)
  unfolding claim_plan_action claim_row
  claim_plan_action-Authorizes self files profile task request t0 t1 t2 rows auth h =
      let rows' = expire_plans t0 rows in
      let q = is_current self.namespace profile task t1 in
      elim (Option-cases (newest (keep q rows'))) [
        | inl e ↦ absurd (ground (arith, e))
        | inr (r, e) ↦
            let (c, i, j) =
              commit_plan_claim-auth request t2 r rows' (check_next x y files request r) auth
                (rw e at h) in
            let k = check_next-Checked files request r c in
            let found = newest_started y self.namespace profile task t1 rows' e in
            let test = tested q rows' found in
            Any-map (λ s. (s ≡ r) × (q s ≡ true))
              (Authorizes self files profile task request t1 auth) rows'
              (λ s m. subst (Authorizes self files profile task request t1 auth) (sym m.0) (record {
                plan_is = i;
                index_is = j;
                profile_is = ground (arith, text_eq_iff r.profile profile);
                task_is = ground (arith, text_eq_iff r.task_id task);
                namespace_is =
                    ground (arith, option_eq_iff r.authorization_namespace self.namespace);
                started_is = ground arith;
                live = ground arith;
                checked = k;
              }))
              found
      ]
