-- ===== src/Approval/Service/Integrity.antt =====
-- What a claim hands over for execution is what was proposed.
use ssh_gateway.Prelude.{
  ℕ, Text, str, text_eq, text_eq_iff, option_eq_iff, true, Option, none, some, List, [], ◌<◌, ◌≡◌,
  ◌⊎◌, refl, arith, sym, subst, ◌∙◌, ap, Any, All-lookup, Any-map, find?, find?-Any, find?-eq_some,
  Bool-cases, inl, inr, count, ◌==◌,
}
use ssh_gateway.Errors.{Result, ok, err, >>=-eq-ok, ok-injective}
use ssh_gateway.Externals.{Externals, Files, request_hash, saturating_add}
use ssh_gateway.Protocol.{CallerType, human_cli, agent_cli, mcp, Request}
use ssh_gateway.Approval.Rows.{ApprovalRow, parse_caller, caller_name}
use ssh_gateway.Approval.Service.{
  ApprovalService, ApprovalClaim, Table, Proposal, expire, claim, is_claimable, sees, commit_claim,
  selected, new_row, claimed, is_pending_id, or_processed, require_hash,
}
use ssh_gateway.Approval.Service.Trace.{Op, creates, run}
use ssh_gateway.Approval.Service.Content.{Makes, Stems, run-Stems, expire-All, Stems-Lasting}

-- A stored caller reads back as the caller that it was stored for.
pub parse_caller-caller_name : (c : CallerType) → parse_caller (caller_name c) ≡ ok c
unfolding parse_caller caller_name text_eq str
parse_caller-caller_name human_cli = refl
parse_caller-caller_name agent_cli = refl
parse_caller-caller_name mcp = refl

module _ (x : Externals) where
  record Written (files : Files) (self : ApprovalService) (p : Proposal) (now : ℕ) (id : Text)
      (r : ApprovalRow) : Type 0 where
    payload : x.encode p.request ≡ ok r.request_payload
    hash : request_hash x files p.request ≡ ok r.request_hash
    caller : r.caller ≡ caller_name p.caller
    namespace : r.authorization_namespace ≡ self.namespace
    id_is : r.id ≡ id
    expires : r.expires_at ≡ saturating_add now self.ttl_seconds

  new_row-Written :
      (files : Files) (self : ApprovalService) (p : Proposal) (now : ℕ) (id : Text)
      (r : ApprovalRow)
      → new_row x files self p now id ≡ ok r
      → Written files self p now id r
  unfolding new_row
  new_row-Written files self p now id r h = ground arith

  record Selects (self : ApprovalService) (files : Files) (id : Text) (now : ℕ) (rows : Table)
      (r : ApprovalRow) (request : Request) : Type 0 where
    found : Any (λ s. s ≡ r) rows
    id_is : r.id ≡ id
    live : now < r.expires_at
    visible : (self.namespace ≡ none) ⊎ (r.authorization_namespace ≡ self.namespace)
    decoded : x.decode r.request_payload ≡ ok request
    hashed : request_hash x files request ≡ ok r.request_hash

  sees-namespace : (n row : Option Text) → sees n row ≡ true → (n ≡ none) ⊎ (row ≡ n)
  sees-namespace none row h = inl refl
  sees-namespace (some ns) row h = inr ((option_eq_iff row (some ns)).0 h)

  or_processed-ok : (o : Option ApprovalRow) {r : ApprovalRow} → or_processed o ≡ ok r → o ≡ some r
  or_processed-ok none h = cc
  or_processed-ok (some r) h = cc

  matching_hash : (a b : Text) → require_hash a b ≡ ok tt → a ≡ b
  matching_hash a b h = ground (arith, text_eq_iff a b)

  claimable :
      (self : ApprovalService) (id : Text) (now : ℕ) (r : ApprovalRow)
      → is_claimable self id now r ≡ true
      → (r.id ≡ id) × (now < r.expires_at) × (sees self.namespace r.authorization_namespace ≡ true)
  claimable self id now r h = ground (arith, text_eq_iff r.id id)

  selected-Selects :
      (self : ApprovalService) (files : Files) (id : Text) (now : ℕ) (rows : Table)
      (r : ApprovalRow) (request : Request)
      → selected x files self id now rows ≡ ok (r, request)
      → Selects self files id now rows r request
  unfolding selected
  selected-Selects self files id now rows r request h =
      let (r', f, h1) = >>=-eq-ok (or_processed (find? (is_claimable self id now) rows)) _ h in
      let (q, d, h2) = >>=-eq-ok (x.decode r'.request_payload) _ h1 in
      let (actual, g, h3) = >>=-eq-ok (request_hash x files q) _ h2 in
      let (_, k, h4) = >>=-eq-ok (require_hash actual r'.request_hash) _ h3 in
      let row = or_processed-ok (find? (is_claimable self id now) rows) f in
      let test = find?-eq_some (is_claimable self id now) rows row in
      let same = matching_hash actual r'.request_hash k in
      subst (λ (z : ApprovalRow × Request). Selects self files id now rows z.0 z.1)
        (ok-injective h4)
        (record {
          found = find?-Any (is_claimable self id now) rows row;
          id_is = (claimable self id now r' test).0;
          live = (claimable self id now r' test).1;
          visible =
              sees-namespace self.namespace r'.authorization_namespace
                (claimable self id now r' test).2;
          decoded = d;
          hashed = g ∙ ap ok same;
        })

  -- The claim is the proposal of the operation: the same request, caller and namespace, unexpired,
  -- visible to the claiming service, with the hash unchanged (an upload's file included).
  abbrev pub Proposed : ApprovalService → Files → Text → ℕ → ApprovalClaim → Op → Type 0
  Proposed self files id now c (creates maker at_creation p created other) =
      (other ≡ id)
      × (c.id ≡ id)
      × (c.request ≡ p.request)
      × (c.caller ≡ p.caller)
      × (c.authorization_namespace ≡ maker.namespace)
      × (now < saturating_add created maker.ttl_seconds)
      × ((self.namespace ≡ none) ⊎ (maker.namespace ≡ self.namespace))
      × (request_hash x files p.request ≡ request_hash x at_creation p.request)
  Proposed self files id now c _ = ⊥

  commit_claim-claimed :
      (id : Text) (rows : Table) (s : Result (ApprovalRow × Request)) (c : ApprovalClaim)
      → (commit_claim id rows s).0 ≡ ok c
      → (z : ApprovalRow × Request) × (s ≡ ok z) × (claimed id z.0 z.1 ≡ ok c)
  unfolding commit_claim
  commit_claim-claimed id rows (err e) c h = cc
  commit_claim-claimed id rows (ok (r, request)) c h =
      elim (Bool-cases (count (is_pending_id id) rows == 1)) [
        | inl e ↦ ((r, request), refl, rw (e, commit_claim) at h)
        | inr e ↦ absurd (ground arith)
      ]

  Stems-Proposed :
      (decodes : (r : Request) (t : Text) → x.encode r ≡ ok t → x.decode t ≡ ok r)
      (self : ApprovalService) (files : Files) (id : Text) (now : ℕ) (rows : Table)
      (r : ApprovalRow) (request : Request) (c : ApprovalClaim)
      → Selects self files id now rows r request
      → claimed id r request ≡ ok c
      → (op : Op) → Stems x r op
      → Proposed self files id now c op
  unfolding Stems Makes
  Stems-Proposed decodes self files id now rows r request c s h
        (creates maker at_creation p created other) (made, m, e) =
      let w = new_row-Written at_creation maker p created other made m in
      let (caller, pc, hc) = >>=-eq-ok (parse_caller r.caller) _ h in
      let back : x.decode r.request_payload ≡ ok p.request =
        ap (λ (y : ApprovalRow). x.decode y.request_payload) e
        ∙ decodes p.request made.request_payload w.payload in
      let same : p.request ≡ request = ok-injective (sym back ∙ s.decoded) in
      let stored : parse_caller r.caller ≡ ok p.caller =
        ap (λ (y : ApprovalRow). parse_caller y.caller) e
        ∙ ap parse_caller w.caller
        ∙ parse_caller-caller_name p.caller in
      let who : p.caller ≡ caller = ok-injective (sym stored ∙ pc) in
      let claim_is = ok-injective hc in
      let id_eq = ap (λ (y : ApprovalRow). y.id) e in
      let ns_eq = ap (λ (y : ApprovalRow). y.authorization_namespace) e in
      let expiry = ap (λ (y : ApprovalRow). y.expires_at) e in
      let hash_eq = ap (λ (y : ApprovalRow). y.request_hash) e in
      (
        sym w.id_is ∙ sym id_eq ∙ s.id_is,
        sym (ap (λ (y : ApprovalClaim). y.id) claim_is),
        sym (ap (λ (y : ApprovalClaim). y.request) claim_is) ∙ sym same,
        sym (ap (λ (y : ApprovalClaim). y.caller) claim_is) ∙ sym who,
        sym (ap (λ (y : ApprovalClaim). y.authorization_namespace) claim_is) ∙ ns_eq ∙ w.namespace,
        subst (◌<◌ now) (expiry ∙ w.expires) s.live,
        subst (λ n. (self.namespace ≡ none) ⊎ (n ≡ self.namespace)) (ns_eq ∙ w.namespace) s.visible,
        ap (request_hash x files) same ∙ s.hashed ∙ ap ok hash_eq ∙ sym w.hash,
      )
  Stems-Proposed decodes self files id now rows r request c s h _ (made, m, e) = absurd m

  -- A successful claim, after any history from an empty table, hands over exactly what one creation
  -- of that id in the history proposed: its request, caller and namespace, before it expires, to a
  -- service that may see it, and with the request's hash as it was at the creation. The codec is
  -- assumed to decode what it encoded.
  pub claim-Proposed :
      (decodes : (r : Request) (t : Text) → x.encode r ≡ ok t → x.decode t ≡ ok r) (ops : List Op)
      (self : ApprovalService) (files : Files) (id : Text) (t0 t1 : ℕ) (c : ApprovalClaim)
      → (claim x files self id t0 t1 (run x ops [])).0 ≡ ok c
      → Any (Proposed self files id t1 c) ops
  unfolding claim
  claim-Proposed decodes ops self files id t0 t1 c h =
      let rows = expire t0 (run x ops []) in
      let ((r, request), e, k) =
        commit_claim-claimed id rows (selected x files self id t1 rows) c h in
      let s = selected-Selects self files id t1 rows r request e in
      let stems =
        All-lookup (λ r. Any (Stems x r) ops) rows
          (expire-All x (λ r. Any (Stems x r) ops) (Stems-Lasting x ops) t0 (run x ops [])
            (run-Stems x ops))
          s.found in
      Any-map (Stems x r) (Proposed self files id t1 c) ops
        (Stems-Proposed decodes self files id t1 rows r request c s k) stems
