-- ===== src/Service/Approve/Finished.antt =====
-- An approval that gives an answer is over.
use ssh_gateway.Prelude.{
  ℕ, Text, text_eq_iff, Bool, true, false, Option, none, some, List, [], ◌∷◌, ◌≡◌, refl, sym, subst,
  ap, ◌∙◌, arith, Bool-cases, inl, inr, All, All-update, update, count, ◌==◌,
}
use ssh_gateway.Errors.{ArrtError, Result, ok, err, Result-cases, ok-injective, >>=-eq-ok}
use ssh_gateway.Config.{AppConfig}
use ssh_gateway.Protocol.{Request, CommandResult}
use ssh_gateway.Externals.{Externals, request_hash}
use ssh_gateway.Policy.Engine
use ssh_gateway.Policy.Engine.{PolicyDecision}
use ssh_gateway.Approval.Rows.{
  ApprovalRow, Status, is_pending, is_executing, is_final, parse_caller,
}
use ssh_gateway.Approval.Service
use ssh_gateway.Approval.Service.{
  ApprovalService, ApprovalClaim, Table, expire, is_overdue, claim, commit_claim, selected,
  is_pending_id, is_executing_id,
}
use ssh_gateway.Grant.Service.{GrantService}
use ssh_gateway.Redaction.{SecretRedactor}
use ssh_gateway.Resolution.Auth.{Platform, CredentialStore}
use ssh_gateway.Resolution.Files.{Formats, reload_if_file_backed}
use ssh_gateway.Service.Action.{Action, ◌>>=◌, pure, lift, >>=-ran}
use ssh_gateway.Service.World.{Operations}
use ssh_gateway.Service.Decisions.{Gateway, on_world, open_approvals, is_deny}
use ssh_gateway.Service.Approve.{
  Approve, Course, ResultCodec, is_management, is_confirm, same_hash, on_approvals, show_row,
  finish_with, claim_approval, fail_with, create_for, grant_step, conclude, manage, manage_claimed,
  run_claimed, after_grant, by_policy, execute_claimed, after_claim, before_claim, claim_with,
  opened, approve,
}

-- No row of the id is pending.
abbrev Settled : Text → Table → Type 0
Settled id = All (λ r. r.id ≡ id → is_pending r.status ≡ false)

-- Every row of the id is executed, failed, rejected or expired.
abbrev pub Over : Text → Table → Type 0
Over id = All (λ r. r.id ≡ id → is_final r.status ≡ true)

module _ {A : Type 0} where
  All-unit : (xs : List A) → All (λ x. Unit {0}) xs
  All-unit [] = tt
  All-unit (x ∷ xs) = (tt, All-unit xs)

  All-update_cases :
      (P Q : A → Type 0) (p : A → Bool) (f : A → A) (xs : List A)
      → ((x : A) → p x ≡ true → P (f x))
      → ((x : A) → p x ≡ false → Q x → P x)
      → All Q xs
      → All P (update p f xs)
  unfolding update
  All-update_cases P Q p f [] changed left all = tt
  All-update_cases P Q p f (x ∷ xs) changed left all = elim (Bool-cases (p x)) [
    | inl e ↦ rw e (changed x e, All-update_cases P Q p f xs changed left all.1)
    | inr e ↦ rw e (left x e all.0, All-update_cases P Q p f xs changed left all.1)
  ]

expire-Settled :
    (id : Text) (now : ℕ) (rows : Table) → Settled id rows → Settled id (expire now rows)
unfolding expire
expire-Settled id now rows = All-update _ (is_overdue now) _ rows (λ r h e. refl)

expire-Over : (id : Text) (now : ℕ) (rows : Table) → Over id rows → Over id (expire now rows)
unfolding expire
expire-Over id now rows = All-update _ (is_overdue now) _ rows (λ r h e. refl)

commit_claim-Settled :
    (id : Text) (rows : Table) (s : Result (ApprovalRow × Request)) {c : ApprovalClaim}
    → (commit_claim id rows s).0 ≡ ok c
    → Settled id (commit_claim id rows s).1 × (c.id ≡ id)
unfolding commit_claim
commit_claim-Settled id rows (err e) h = absurd (cc)
commit_claim-Settled id rows (ok s) {c} h = elim (Bool-cases (count (is_pending_id id) rows == 1)) [
  | inl e ↦
      let (caller, p, k) = >>=-eq-ok (parse_caller s.0.caller) _ (rw e at h) in
      rw e (
        All-update_cases _ (λ r. Unit {0}) (is_pending_id id) _ rows (λ r t same. refl)
            (λ r t u same. ground (arith, (text_eq_iff r.id id).1 same, t)) (All-unit rows),
        ap (λ (d : ApprovalClaim). d.id) (sym (ok-injective k)),
      )
  | inr e ↦ absurd (ground (arith, e))
]

rest_final : (s : Status) → is_pending s ≡ false → is_executing s ≡ false → is_final s ≡ true
rest_final Status.pending p e = absurd (cc)
rest_final Status.executing p e = absurd (cc)
rest_final Status.executed p e = refl
rest_final Status.failed p e = refl
rest_final Status.rejected p e = refl
rest_final Status.expired p e = refl

finish-Over :
    (id : Text) (success : Bool) (payload : Text) (rows : Table)
    → Settled id rows
    → Over id (Service.finish id success payload rows)
unfolding Service.finish
finish-Over id success payload rows =
    All-update_cases _ _ (is_executing_id id) _ rows
      (λ r t same. elim (Bool-cases success) [ inl e ↦ rw e | inr e ↦ rw e ])
      (λ r t settled same.
        rest_final r.status (settled same) (ground (arith, (text_eq_iff r.id id).1 same, t)))

module _ {H : Type 0} where
  -- From a table where no row of the id is pending, an answer means that all of them are over.
  abbrev Ends : {A : Type 0} → Text → Action (Gateway H) A → Type 0
  Ends {A} id m =
      (g : Gateway H) (a : A) → Settled id g.approvals → (m g).0 ≡ ok a → Over id (m g).1.approvals

  abbrev Holds : {A : Type 0} → Text → Action (Gateway H) A → Type 0
  Holds id m = (g : Gateway H) → Settled id g.approvals → Settled id (m g).1.approvals

  >>=-Ends :
      {A B : Type 0} (id : Text) (m : Action (Gateway H) A) (next : A → Action (Gateway H) B)
      → Holds id m
      → ((a : A) → Ends id (next a))
      → Ends id (m >>= next)
  >>=-Ends id m next first rest g b s h =
      let (a, e, same) = >>=-ran m next g {b = b} h in
      rw same (rest a (m g).1 b (first g s) (ap (λ (r : Result _ × Gateway H). r.0) (sym same) ∙ h))

  pure-approvals :
      {A : Type 0} (m : Action (Gateway H) A) (g : Gateway H)
      → ((m >>= λ a. pure tt) g).1.approvals ≡ (m g).1.approvals
  pure-approvals m g = elim (Result-cases (m g).0) [
    | inl (a, e) ↦ rw e refl
    | inr (why, e) ↦ rw e refl
  ]

  abbrev Lasts : {A : Type 0} → Text → Action (Gateway H) A → Type 0
  Lasts id m = (g : Gateway H) → Over id g.approvals → Over id (m g).1.approvals

  >>=-Lasts :
      {A B : Type 0} (id : Text) (m : Action (Gateway H) A) (next : A → Action (Gateway H) B)
      → Ends id m
      → ((a : A) → Lasts id (next a))
      → Ends id (m >>= next)
  >>=-Lasts id m next first rest g b s h =
      let (a, e, same) = >>=-ran m next g {b = b} h in rw same (rest a (m g).1 (first g a s e))

module _ {H : Type 0} (x : Externals) (codec : ResultCodec) where
  finish_with-Ends : (id : Text) (r : CommandResult) → Ends {H = H} id (finish_with x codec id r)
  unfolding finish_with on_approvals
  finish_with-Ends id r g a s h = elim (Result-cases (codec.encode_result r)) [
    | inl (payload, e) ↦ rw e (finish-Over id r.ok payload g.approvals s)
    | inr (why, e) ↦ absurd (cc (rw e at h))
  ]

  fail_with-Ends : (c : ApprovalClaim) (e : ArrtError) → Ends {H = H} c.id (fail_with x codec c e)
  unfolding fail_with
  fail_with-Ends c e =
      >>=-Lasts c.id (finish_with x codec c.id _) _ (finish_with-Ends c.id _) (λ _ g o. o)

  show_row-Lasts :
      (id : Text) (now : ℕ) {B : Type 0} (f : ApprovalRow → B)
      → Lasts {H = H} id (show_row x codec id now >>= λ r. pure (f r))
  unfolding show_row
  show_row-Lasts id now f g o = elim (Result-cases (show_row x codec id now g).0) [
    | inl (r, e) ↦ rw e (expire-Over id now g.approvals o)
    | inr (why, e) ↦ rw e (expire-Over id now g.approvals o)
  ]

  conclude-Ends :
      (c : ApprovalClaim) (at : Course) (redactor : SecretRedactor) (r : CommandResult)
      → Ends {H = H} c.id (conclude x codec c at redactor r)
  unfolding conclude
  conclude-Ends c at redactor r =
      >>=-Lasts c.id (finish_with x codec c.id _) _ (finish_with-Ends c.id _)
        (λ _. show_row-Lasts c.id at.look_after _)

  show_row-Holds : (id : Text) (now : ℕ) → Holds {H = H} id (show_row x codec id now)
  unfolding show_row
  show_row-Holds id now g s = expire-Settled id now g.approvals s

  create_for-approvals :
      (self : GrantService) (a : Approve) (at : Course) (rule : Option Text) (g : Gateway H)
      → (create_for x codec self a at rule g).1.approvals ≡ g.approvals
  unfolding create_for
  create_for-approvals self a at none g = refl
  create_for-approvals self a at (some rule) g = refl

  grant_step-Holds :
      (id : Text) (grants : Option GrantService) (a : Approve) (at : Course) (d : PolicyDecision)
      → Holds {H = H} id (grant_step x codec grants a at d)
  unfolding grant_step
  grant_step-Holds id none a at d = λ g s. s
  grant_step-Holds id (some self) a at d = λ g s. elim (Bool-cases (is_confirm d.effect)) [
    | inr e ↦ rw e s
    | inl e ↦
        let created = create_for x codec self a at d.rule_id in
        rw e (
          subst (Settled id)
            (sym (pure-approvals created g ∙ create_for-approvals self a at d.rule_id g)) s)
  ]

module _ {H : Type 0} (env : Platform) (ops : Operations H) (x : Externals) (codec : ResultCodec)
    (formats : Formats) (credentials : CredentialStore) where
  run_claimed-Ends :
      (current : AppConfig) (namespace : Text) (at : Course) (c : ApprovalClaim)
      → Ends c.id (run_claimed env ops x codec formats credentials current namespace at c)
  unfolding run_claimed on_world
  run_claimed-Ends current namespace at c g r s h =
      elim (Result-cases (show_row x codec c.id at.look_before g).0) [
        | inr (why, e) ↦ absurd (cc (rw e at h))
        | inl (row, e) ↦ rw e (
            conclude-Ends x codec c at _ _ _ r (show_row-Holds x codec c.id at.look_before g s)
              (rw e at h))
      ]

  after_grant-Ends :
      (current : AppConfig) (namespace : Text) (at : Course) (c : ApprovalClaim)
      (u : Result (Unit {0}))
      → Ends c.id (after_grant env ops x codec formats credentials current namespace at c u)
  unfolding after_grant
  after_grant-Ends current namespace at c (err e) = fail_with-Ends x codec c e
  after_grant-Ends current namespace at c (ok u) = run_claimed-Ends current namespace at c

  by_policy-Ends :
      (current : AppConfig) (namespace : Text) (a : Approve) (at : Course)
      (grants : Option GrantService) (c : ApprovalClaim) (d : Result PolicyDecision)
      → Ends c.id (by_policy env ops x codec formats credentials current namespace a at grants c d)
  unfolding by_policy
  by_policy-Ends current namespace a at grants c (err e) = fail_with-Ends x codec c e
  by_policy-Ends current namespace a at grants c (ok d) = elim (Bool-cases (is_deny d.effect)) [
    | inl n ↦ rw n (fail_with-Ends x codec c _)
    | inr n ↦ rw n (
        >>=-Ends c.id (grant_step x codec grants a at d) _
          (grant_step-Holds x codec c.id grants a at d) (after_grant-Ends current namespace at c))
  ]

  manage_claimed-Ends :
      (config : AppConfig) (at : Course) (c : ApprovalClaim) (g : Gateway H) (r : CommandResult)
      → Settled c.id g.approvals
      → (manage_claimed env ops x codec formats credentials config at c g).0 ≡ ok r
      → Over c.id (manage_claimed env ops x codec formats credentials config at c g).1.approvals
  unfolding manage_claimed manage
  manage_claimed-Ends config at c g r s h =
      elim (Result-cases (show_row x codec c.id at.look_before g).0) [
        | inr (why, e) ↦ absurd (cc (rw e at h))
        | inl (row, e) ↦ rw e (
            conclude-Ends x codec c at _ _ (show_row x codec c.id at.look_before g).1 r
              (show_row-Holds x codec c.id at.look_before g s) (rw e at h))
      ]

  after_claim-Over :
      (config : AppConfig) (namespace : Text) (a : Approve) (at : Course)
      (grants : Option GrantService) (c : ApprovalClaim) (g : Gateway H) (r : CommandResult)
      → Settled c.id g.approvals
      → (after_claim env ops x codec formats credentials config namespace a at grants g (ok c)).0
        ≡ ok r
      → Over c.id
          (after_claim env ops x codec formats credentials config namespace a at grants g
            (ok c)).1.approvals
  unfolding after_claim execute_claimed
  after_claim-Over config namespace a at grants c g r s h =
      elim (Bool-cases (same_hash (request_hash x at.files c.request) c.request_hash)) [
        | inr e ↦ rw e (fail_with-Ends x codec c _ g r s (rw e at h))
        | inl e ↦ elim (Bool-cases (is_management c.request)) [
          | inl m ↦ rw (e, m) (manage_claimed-Ends config at c g r s (rw (e, m) at h))
          | inr m ↦
              rw (e, m)
                (>>=-Ends c.id (lift (reload_if_file_backed env formats config at.disk)) _
                  (λ g s. s)
                  (λ current.
                    by_policy-Ends current namespace a at grants c
                      (Engine.authorize current c.caller c.request))
                  g r s (rw (e, m) at h))
        ]
      ]

  opened-Over :
      (config : AppConfig) (namespace : Text) (a : Approve) (at : Course) (g : Gateway H)
      (o : Result ApprovalService) (r : CommandResult)
      → (opened env ops x codec formats credentials config namespace a at g o).0 ≡ ok r
      → Over a.approval_id
          (opened env ops x codec formats credentials config namespace a at g o).1.approvals
  unfolding opened claim_with claim_approval claim
  opened-Over config namespace a at g (err e) r h = absurd (cc)
  opened-Over config namespace a at g (ok self) r h =
      let before = before_claim env ops x codec formats credentials config a at self g in
      elim (Result-cases before.0) [
        | inr (why, e) ↦ absurd (cc (rw e at h))
        | inl (grants, e) ↦
            let rows =
              claim x at.claim_files self a.approval_id at.claim_expiry at.claim_choice
                before.1.approvals in
            elim (Result-cases rows.0) [
              | inr (why, k) ↦ absurd (cc (rw (e, k) at h))
              | inl (c, k) ↦
                  let (settled, id_is) =
                    commit_claim-Settled a.approval_id (expire at.claim_expiry before.1.approvals) _
                      {c = c} k in
                  let whole = record before.1 { approvals = rows.1 } in
                  rw (e, k)
                    (subst
                      (λ (id : Text).
                        Over id
                          (after_claim env ops x codec formats credentials config namespace a at
                            grants whole (ok c)).1.approvals)
                      id_is
                      (after_claim-Over config namespace a at grants c whole r
                        (subst (λ (id : Text). Settled id rows.1) (sym id_is) settled)
                        (rw (e, k) at h)))
            ]
      ]

  -- Where an approval gives an answer, a failure of the request included, no row of its id is pending
  -- or executing any more.
  pub approve-Over :
      (config : AppConfig) (namespace : Text) (a : Approve) (at : Course) (g : Gateway H)
      (r : CommandResult)
      → (approve env ops x codec formats credentials config namespace a at g).0 ≡ ok r
      → Over a.approval_id
          (approve env ops x codec formats credentials config namespace a at g).1.approvals
  unfolding approve
  approve-Over config namespace a at g r h =
      opened-Over config namespace a at g (open_approvals config) r h
