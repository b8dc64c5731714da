-- ===== src/Target.antt =====
-- src/target.rs: which addresses the gateway may connect to.
pub mod Blocks
pub mod Resolve
use ssh_gateway.Prelude.{
  ℕ, ◌/◌, ◌%◌, Text, str, Bool, true, false, not, Option, none, some, List, [], ◌∷◌, ◌++◌, ◌==◌,
  leb, ◌&&◌, ◌||◌, if◌then◌else◌,
}
use ssh_gateway.Errors.{Result, ok, err, policy_denied, ssh, ◌>>=◌, ◌>>◌}
use ssh_gateway.Config.{RuntimeMode, self_hosted, cloud}

-- Octets of an IPv4 address, and the eight 16-bit segments of an IPv6 address.
pub data IpAddr : Type 0 where
  v4 : ℕ → ℕ → ℕ → ℕ → IpAddr
  v6 : ℕ → ℕ → ℕ → ℕ → ℕ → ℕ → ℕ → ℕ → IpAddr

unfoldable pub public_v4 : ℕ → ℕ → ℕ → ℕ → Bool
public_v4 a b c d = not (
    a == 0
    || a == 10
    || a == 127
    || leb 224 a
    || (a == 100 && (leb 64 b && leb b 127))
    || (a == 169 && b == 254)
    || (a == 172 && (leb 16 b && leb b 31))
    || (a == 192 && (b == 0 || b == 168 || (b == 88 && c == 99)))
    || (a == 198 && (b == 18 || b == 19 || (b == 51 && c == 100)))
    || (a == 203 && (b == 0 && c == 113)))

-- `Ipv6Addr::to_ipv4_mapped`: ::ffff:a.b.c.d
abbrev pub is_mapped : ℕ → ℕ → ℕ → ℕ → ℕ → ℕ → Bool
is_mapped s0 s1 s2 s3 s4 s5 =
    s0 == 0 && (s1 == 0 && (s2 == 0 && (s3 == 0 && (s4 == 0 && s5 == 0xffff))))

-- The predicates of `Ipv6Addr` test leading bits of the first segment, here by division.
unfoldable pub is_public : IpAddr → Bool
unfolding public_v4
is_public (v4 a b c d) = public_v4 a b c d
is_public (v6 s0 s1 s2 s3 s4 s5 s6 s7) =
    if is_mapped s0 s1 s2 s3 s4 s5
    then public_v4 (s6 / 256) (s6 % 256) (s7 / 256) (s7 % 256)
    else not (
        s0 == 0
          && (s1 == 0 && (s2 == 0 && (s3 == 0 && (s4 == 0 && (s5 == 0 && (s6 == 0 && s7 == 0))))))
        || (s0 == 0
            && (s1 == 0
                && (s2 == 0 && (s3 == 0 && (s4 == 0 && (s5 == 0 && (s6 == 0 && s7 == 1)))))))
        || s0 / 256 == 0xff
        || s0 / 512 == 0xfc00 / 512
        || s0 / 64 == 0xfe80 / 64
        || s0 / 64 == 0xfe80 / 64)

abbrev is_cloud : RuntimeMode → Bool
is_cloud self_hosted = false
is_cloud cloud = true

module _ (display : IpAddr → Text) where
  -- `RuntimeTargetPolicy::validate`
  unfoldable pub validate : RuntimeMode → Text → IpAddr → Result (Unit {0})
  validate mode host address =
      if is_cloud mode && not (is_public address)
      then err (
          policy_denied (
            str "Cloud target policy rejects "
            ++ (host ++ (str " resolved to " ++ display address))))
      else ok tt

  -- `for address in &addresses { policy.validate(host, address.ip())?; }`
  unfoldable pub validate_all : RuntimeMode → Text → List IpAddr → Result (Unit {0})
  unfolding validate
  validate_all mode host [] = ok tt
  validate_all mode host (address ∷ rest) =
      validate mode host address >> validate_all mode host rest

  -- `resolve_direct` on the answer of `lookup_host`: the address that is connected to.
  unfoldable pub resolve_direct : RuntimeMode → Text → Result (List IpAddr) → Result IpAddr
  unfolding validate_all
  resolve_direct mode host (err e) = err e
  resolve_direct mode host (ok []) = err (ssh (str "no address found for " ++ host))
  resolve_direct mode host (ok (address ∷ rest)) =
      validate_all mode host (address ∷ rest) >> ok address

  -- `validate_remote_hop`, with the parser of literal addresses as an argument
  unfoldable pub validate_remote_hop :
      (Text → Option IpAddr) → RuntimeMode → Text → Result (Unit {0})
  unfolding validate
  validate_remote_hop parse mode host = elim (parse host) [
    | none ↦
        err
          (policy_denied (str "Cloud target policy requires a literal IP for bastion hop " ++ host))
    | some address ↦ validate mode host address
  ]
