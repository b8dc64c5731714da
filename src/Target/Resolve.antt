-- ===== src/Target/Resolve.antt =====
-- src/target.rs, `resolve_direct` and `validate_remote_hop`: what a Cloud gateway connects to.
use ssh_gateway.Prelude.{Text, true, List, [], ◌∷◌, ◌≡◌, ◌↔◌, All, arith, refl}
use ssh_gateway.Errors.{Result, ok, err, ◌>>◌}
use ssh_gateway.Config.{RuntimeMode, self_hosted, cloud}
use ssh_gateway.Target.{IpAddr, is_public, validate, validate_all, resolve_direct}

-- What the target policy of a runtime mode accepts.
abbrev pub Accepts : RuntimeMode → IpAddr → Type 0
Accepts self_hosted address = Unit {0}
Accepts cloud address = is_public address ≡ true

module _ (display : IpAddr → Text) (host : Text) where
  validate-Accepts :
      (mode : RuntimeMode) (address : IpAddr)
      → (validate display mode host address ≡ ok tt) ↔ Accepts mode address
  unfolding validate
  validate-Accepts self_hosted address = (λ h. tt, λ h. refl)
  validate-Accepts cloud address = ground arith

  validate_all-Accepts :
      (mode : RuntimeMode) (addresses : List IpAddr)
      → (validate_all display mode host addresses ≡ ok tt) ↔ All (Accepts mode) addresses
  unfolding validate_all
  validate_all-Accepts mode [] = (λ h. tt, λ h. refl)
  validate_all-Accepts mode (a ∷ rest) =
      ground (arith, validate-Accepts mode a, validate_all-Accepts mode rest)

  validated :
      (first address : IpAddr) (r : Result (Unit {0}))
      → ((r >> ok first) ≡ ok address) ↔ ((r ≡ ok tt) × (first ≡ address))
  validated first address (ok u) = (λ h. (refl, cc), λ (h, e). cc)
  validated first address (err e) = (λ h. absurd (cc), λ (h, e). absurd (cc))

  -- The address that is connected to is the first answer of the lookup, and it is connected to
  -- exactly if the policy accepts every answer.
  pub resolve_direct-Accepts :
      (mode : RuntimeMode) (first : IpAddr) (rest : List IpAddr) (address : IpAddr)
      → (resolve_direct display mode host (ok (first ∷ rest)) ≡ ok address)
        ↔ ((first ≡ address) × All (Accepts mode) (first ∷ rest))
  unfolding resolve_direct
  resolve_direct-Accepts mode first rest address =
      let law = validate_all-Accepts mode (first ∷ rest) in
      let run = validated first address (validate_all display mode host (first ∷ rest)) in
      (λ h. ((run.0 h).1, law.0 (run.0 h).0), λ (e, all). run.1 (law.1 all, e))
