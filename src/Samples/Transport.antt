-- ===== src/Samples/Transport.antt =====
-- Addresses, host keys and the quoting of remote commands: src/target.rs and src/ssh.rs.
use ssh_gateway.Prelude.{
  Text, str, true, false, none, some, [], ◌∷◌, ◌≡◌, ◌↔◌, ◌⊎◌, refl, arith, All,
}
use ssh_gateway.Errors.{ok}
use ssh_gateway.Config.{cloud, insecure_compatibility}
use ssh_gateway.Target.{IpAddr, v4, public_v4, resolve_direct}
use ssh_gateway.Target.Blocks.{number, InBlock, reserved, public_v4-reserved}
use ssh_gateway.Target.Resolve.{Accepts, resolve_direct-Accepts}
use ssh_gateway.Ssh.{ConfiguredHostKeyVerifier, verify, verify-pinned}
use ssh_gateway.Ssh.Quoting.{gap, words_from, shell_join, words-shell_join}

abbrev no_display : IpAddr → Text
no_display address = []

abbrev pinned : ConfiguredHostKeyVerifier
pinned = record { mode = insecure_compatibility; pin = some (str "SHA256:a") }

public_v4-reserved_example :
    (public_v4 8 8 8 8 ≡ true) ↔ All (λ r. ¬ InBlock (number 8 8 8 8) r) reserved
public_v4-reserved_example =
    public_v4-reserved 8 8 8 8 (omega arith) (omega arith) (omega arith) (omega arith)

private_refused : public_v4 172 31 0 1 ≡ false
unfolding public_v4
private_refused = refl

resolve_direct-Accepts_example :
    (resolve_direct no_display cloud (str "web") (ok (v4 8 8 8 8 ∷ v4 10 0 0 1 ∷ []))
      ≡ ok (v4 8 8 8 8))
    ↔ ((v4 8 8 8 8 ≡ v4 8 8 8 8) × All (Accepts cloud) (v4 8 8 8 8 ∷ v4 10 0 0 1 ∷ []))
resolve_direct-Accepts_example =
    resolve_direct-Accepts no_display (str "web") cloud (v4 8 8 8 8) (v4 10 0 0 1 ∷ []) (v4 8 8 8 8)

words-shell_join_example :
    words_from gap [] (shell_join (str "echo" ∷ str "it's" ∷ str "" ∷ []))
    ≡ some (str "echo" ∷ str "it's" ∷ str "" ∷ [])
words-shell_join_example = words-shell_join (str "echo" ∷ str "it's" ∷ str "" ∷ [])

verify-pinned_example : (verify pinned (str "web") (str "SHA256:b") ≡ ok tt) ↔ (
    (pinned.pin ≡ some (str "SHA256:b"))
    ⊎ ((pinned.pin ≡ none) × (pinned.mode ≡ insecure_compatibility)))
verify-pinned_example = verify-pinned pinned (str "web") (str "SHA256:b")
