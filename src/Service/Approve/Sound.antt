-- ===== src/Service/Approve/Sound.antt =====
-- What an approval lets run.
use ssh_gateway.Prelude.{
  Text, text_eq, text_eq_iff, true, false, Option, none, ◌≡◌, refl, sym, ap, ◌∙◌, ◌⊎◌, inl, inr,
  ◌&&◌, Bool-cases, find?,
}
use ssh_gateway.Errors.{Result, ok, err, Result-cases}
use ssh_gateway.Config.{AppConfig}
use ssh_gateway.Externals.{Externals, request_hash}
use ssh_gateway.Policy.Engine
use ssh_gateway.Policy.Engine.{PolicyDecision}
use ssh_gateway.Approval.Rows.{ApprovalRow}
use ssh_gateway.Approval.Service.{ApprovalService, ApprovalClaim, Table, expire, claim}
use ssh_gateway.Grant.Service.{GrantService, Required, validate_grant_source}
use ssh_gateway.Resolution.Auth.{Platform, CredentialStore}
use ssh_gateway.Resolution.Files.{Formats, reload_if_file_backed}
use ssh_gateway.Service.World.{World, Operations}
use ssh_gateway.Service.Operations.{execute_authorized}
use ssh_gateway.Service.Decisions.{Gateway, on_world, open_approvals, open_grants, is_deny}
use ssh_gateway.Service.Management.{execute_profile_mutation}
use ssh_gateway.Service.Approve.Worlds.{fail_with-Keeps, conclude-Keeps, grant_step-Keeps}
use ssh_gateway.Service.Approve.{
  Approve, Course, ResultCodec, grant_of, asks_grant, names_management, is_management, shown_row,
  same_hash, namespace_or, show_row, claim_approval, check_grant, grant_step, manage,
  manage_claimed, run_claimed, after_grant, by_policy, execute_claimed, after_claim, before_claim,
  claim_with, opened, approve,
}

same_hash-eq : (r : Result Text) (hash : Text) → same_hash r hash ≡ true → r ≡ ok hash
unfolding same_hash
same_hash-eq (err e) hash h = absurd (cc)
same_hash-eq (ok actual) hash h = ap ok ((text_eq_iff actual hash).0 h)

module _ {H : Type 0} (env : Platform) (ops : Operations H) (x : Externals) (codec : ResultCodec)
    (formats : Formats) (credentials : CredentialStore) where
  -- The approval of the given id was claimed, and its request still has the hash of the claim.
  pub record Confirmed (config : AppConfig) (a : Approve) (at : Course) (g : Gateway H)
      : Type 0 where
    pub self : ApprovalService
    pub opened_as : open_approvals config ≡ ok self
    pub claimed : ApprovalClaim
    pub claimed_as :
        (claim x at.claim_files self a.approval_id at.claim_expiry at.claim_choice
          (expire at.first_look g.approvals)).0
        ≡ ok claimed
    pub unchanged : request_hash x at.files claimed.request ≡ ok claimed.request_hash

  -- The request that was claimed is not about profiles, and the policy of the configuration, loaded
  -- again, does not deny it to the caller that it is for.
  pub record Vetted (config : AppConfig) (a : Approve) (at : Course) (g : Gateway H) : Type 0 where
    pub confirmed : Confirmed config a at g
    pub operates : is_management confirmed.claimed.request ≡ false
    pub current : AppConfig
    pub reloaded : reload_if_file_backed env formats config at.disk ≡ ok current
    pub decision : PolicyDecision
    pub decided :
        Engine.authorize current confirmed.claimed.caller confirmed.claimed.request ≡ ok decision
    pub not_denied : is_deny decision.effect ≡ false

  module _ (config : AppConfig) (namespace : Text) (a : Approve) (at : Course) (g : Gateway H) where
    -- The world is left alone, or is the one behind the request that was approved.
    abbrev pub Ran : World H → Type 0
    Ran w =
        (w ≡ g.world)
        ⊎ ((v : Vetted config a at g) × (w
              ≡ (execute_authorized env ops v.current v.confirmed.claimed.caller
                  (namespace_or v.confirmed.claimed.authorization_namespace namespace) at.running
                  v.confirmed.claimed.request g.world).1))

    -- The world, and the text that the configuration file was replaced by: nothing was written, or
    -- the world is left alone and what was written is what the change that was approved writes.
    abbrev pub Outcome : World H → Option Text → Type 0
    Outcome w text =
        (Ran w × (text ≡ none))
        ⊎ ((k : Confirmed config a at g) × (is_management k.claimed.request ≡ true)
            × (w ≡ g.world)
            × (text
                ≡ (execute_profile_mutation env formats config g.world.sessions k.claimed.request
                    at.disk).1))

    run_claimed-Ran :
        (v : Vetted config a at g) (h : Gateway H)
        → h.world ≡ g.world
        → Ran
            (run_claimed env ops x codec formats credentials v.current namespace at
              v.confirmed.claimed h).1.world
    unfolding run_claimed show_row on_world
    run_claimed-Ran v h w =
        let ran =
          ap
            (λ (z : World H).
              (execute_authorized env ops v.current v.confirmed.claimed.caller
                (namespace_or v.confirmed.claimed.authorization_namespace namespace) at.running
                v.confirmed.claimed.request z).1)
            w in
        let shown = show_row x codec v.confirmed.claimed.id at.look_before h in
        elim (Result-cases shown.0) [
          | inl (r, e) ↦ rw e (inr (v, conclude-Keeps x codec v.confirmed.claimed at _ _ _ ∙ ran))
          | inr (why, e) ↦ rw e (inl w)
        ]

    after_grant-Ran :
        (v : Vetted config a at g) (u : Result (Unit {0})) (h : Gateway H)
        → h.world ≡ g.world
        → Ran
            (after_grant env ops x codec formats credentials v.current namespace at
              v.confirmed.claimed u h).1.world
    unfolding after_grant
    after_grant-Ran v (err e) h w = inl (fail_with-Keeps x codec v.confirmed.claimed e h ∙ w)
    after_grant-Ran v (ok u) h w = run_claimed-Ran v h w

    execute_claimed-Ran :
        (k : Confirmed config a at g) (grants : Option GrantService) (h : Gateway H)
        → is_management k.claimed.request ≡ false
        → h.world ≡ g.world
        → Ran
            (execute_claimed env ops x codec formats credentials config namespace a at grants
              k.claimed h).1.world
    unfolding execute_claimed by_policy
    execute_claimed-Ran k grants h m w =
        let c = k.claimed in
        elim (Result-cases (reload_if_file_backed env formats config at.disk)) [
          | inr (why, e) ↦ rw e (inl w)
          | inl (current, l) ↦ elim (Result-cases (Engine.authorize current c.caller c.request)) [
            | inr (why, e) ↦ rw (l, e) (inl (fail_with-Keeps x codec c why h ∙ w))
            | inl (d, e) ↦ elim (Bool-cases (is_deny d.effect)) [
              | inl n ↦ rw (l, e, n) (inl (fail_with-Keeps x codec c _ h ∙ w))
              | inr n ↦
                  let v : Vetted config a at g = record {
                    confirmed = k;
                    operates = m;
                    current = current;
                    reloaded = l;
                    decision = d;
                    decided = e;
                    not_denied = n;
                  } in
                  let step = grant_step x codec grants a at d h in
                  rw (l, e, n)
                    (elim (Result-cases step.0) [
                      | inl (u, s) ↦ rw s (
                          after_grant-Ran v u step.1 (grant_step-Keeps x codec grants a at d h ∙ w))
                      | inr (why, s) ↦ rw s (inl (grant_step-Keeps x codec grants a at d h ∙ w))
                    ])
            ]
          ]
        ]

    manage_claimed-Outcome :
        (k : Confirmed config a at g) (h : Gateway H)
        → is_management k.claimed.request ≡ true
        → h.world ≡ g.world
        → Outcome
            (manage_claimed env ops x codec formats credentials config at k.claimed h).1.world
            (manage_claimed env ops x codec formats credentials config at k.claimed h).2
    unfolding manage_claimed manage show_row
    manage_claimed-Outcome k h m w =
        let c = k.claimed in
        let written =
          ap
            (λ (z : World H).
              (execute_profile_mutation env formats config z.sessions c.request at.disk).1)
            w in
        elim (Result-cases (show_row x codec c.id at.look_before h).0) [
          | inl (r, e) ↦ rw e (inr (k, m, conclude-Keeps x codec c at _ _ _ ∙ w, written))
          | inr (why, e) ↦ rw e (inl (inl w, refl))
        ]

    after_claim-Outcome :
        (self : ApprovalService) (r : Result ApprovalClaim) (grants : Option GrantService)
        (h : Gateway H)
        → open_approvals config ≡ ok self
        → (claim x at.claim_files self a.approval_id at.claim_expiry at.claim_choice
            (expire at.first_look g.approvals)).0
          ≡ r
        → h.world ≡ g.world
        → Outcome
            (after_claim env ops x codec formats credentials config namespace a at grants h
              r).1.world
            (after_claim env ops x codec formats credentials config namespace a at grants h r).2
    unfolding after_claim
    after_claim-Outcome self (err e) grants h o k w = inl (inl w, refl)
    after_claim-Outcome self (ok c) grants h o k w =
        elim (Bool-cases (same_hash (request_hash x at.files c.request) c.request_hash)) [
          | inr e ↦ rw e (inl (inl (fail_with-Keeps x codec c _ h ∙ w), refl))
          | inl e ↦
              let sure : Confirmed config a at g = record {
                self = self;
                opened_as = o;
                claimed = c;
                claimed_as = k;
                unchanged = same_hash-eq _ _ e;
              } in
              elim (Bool-cases (is_management c.request)) [
                | inl m ↦ rw (e, m) (manage_claimed-Outcome sure h m w)
                | inr m ↦ rw (e, m) (inl (execute_claimed-Ran sure grants h m w, refl))
              ]
        ]

    check_grant-state : (h : Gateway H) → (check_grant x codec config a h).1 ≡ h
    unfolding check_grant
    check_grant-state h = elim (Bool-cases (asks_grant a)) [
      | inr e ↦ rw e refl
      | inl e ↦ elim (Result-cases (open_grants config)) [
        | inr (why, o) ↦ rw (e, o) refl
        | inl (self, o) ↦
            elim (Result-cases
              (validate_grant_source self (grant_of a) Required.pending none h.approvals)) [
                | inl (source, c) ↦ rw (e, o, c) refl
                | inr (why, c) ↦ rw (e, o, c) refl
              ]
      ]
    ]

    before_claim-state :
        (self : ApprovalService)
        → (before_claim env ops x codec formats credentials config a at self g).1
          ≡ record g { approvals = expire at.first_look g.approvals }
    unfolding before_claim show_row
    before_claim-state self =
        let table = expire at.first_look g.approvals in
        elim (Result-cases (
          shown_row x a.approval_id
            (find? (λ (r : ApprovalRow). text_eq r.id a.approval_id) table))) [
              | inr (why, e) ↦ rw e refl
              | inl (r, e) ↦ elim (Bool-cases (names_management r && asks_grant a)) [
                | inl m ↦ rw (e, m) refl
                | inr m ↦ rw (e, m) (check_grant-state (record g { approvals = table }))
              ]
            ]

    opened-Outcome :
        (r : Result ApprovalService)
        → open_approvals config ≡ r
        → Outcome
            (opened env ops x codec formats credentials config namespace a at g r).1.world
            (opened env ops x codec formats credentials config namespace a at g r).2
    unfolding opened claim_with claim_approval
    opened-Outcome (err e) o = inl (inl refl, refl)
    opened-Outcome (ok self) o =
        let before = before_claim env ops x codec formats credentials config a at self g in
        let same = before_claim-state self in
        let w = ap (λ (h : Gateway H). h.world) same in
        elim (Result-cases before.0) [
          | inr (why, e) ↦ rw e (inl (inl w, refl))
          | inl (grants, e) ↦
              let table = ap (λ (h : Gateway H). h.approvals) same in
              let rows =
                claim x at.claim_files self a.approval_id at.claim_expiry at.claim_choice
                  before.1.approvals in
              let claimed =
                ap
                  (λ (t : Table).
                    (claim x at.claim_files self a.approval_id at.claim_expiry at.claim_choice t).0)
                  (sym table) in
              rw e (
                after_claim-Outcome self rows.0 grants (record before.1 { approvals = rows.1 }) o
                  claimed w)
        ]

  -- An approval does at most one of two things. It does to the sessions and the hosts what executing
  -- one request does, as its caller and in its namespace, and writes nothing to the configuration
  -- file; then the approval of the given id was claimed with that request, which is not a change of
  -- profiles; the request, an uploaded file included, still has the hash of the claim; and the policy
  -- of the configuration, loaded again, does not deny it to its caller. Or it leaves the sessions and
  -- the hosts alone, and writes to the configuration file what the creation or deletion of a profile
  -- that was claimed, with the hash of the claim, writes; the policy is not asked about these.
  pub approve-Outcome :
      (config : AppConfig) (namespace : Text) (a : Approve) (at : Course) (g : Gateway H)
      → Outcome config namespace a at g
          (approve env ops x codec formats credentials config namespace a at g).1.world
          (approve env ops x codec formats credentials config namespace a at g).2
  unfolding approve
  approve-Outcome config namespace a at g =
      opened-Outcome config namespace a at g (open_approvals config) refl
