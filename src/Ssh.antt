-- ===== src/Ssh.antt =====
-- src/ssh.rs: the host key check, and the quoting of remote commands.
pub mod Quoting
use ssh_gateway.Prelude.{
  ℕ, Text, text_eq, text_eq_iff, Bool, true, false, Option, none, some, List, [], ◌∷◌, ◌++◌, ◌==◌,
  ◌≡◌, ◌↔◌, ◌⊎◌, inl, inr, if◌then◌else◌, arith,
}
use ssh_gateway.Errors.{Result, ok, err, host_key_changed, host_key_untrusted}
use ssh_gateway.Config.{HostKeyMode, strict, insecure_compatibility}

-- `ConfiguredHostKeyVerifier`
pub record ConfiguredHostKeyVerifier : Type 0 where
  pub mode : HostKeyMode
  pub pin : Option Text

unpinned : HostKeyMode → Text → Text → Result (Unit {0})
unpinned insecure_compatibility host fingerprint = ok tt
unpinned strict host fingerprint = err (host_key_untrusted host fingerprint)

verify_pin : HostKeyMode → Option Text → Text → Text → Result (Unit {0})
unfolding unpinned
verify_pin mode (some expected) host fingerprint =
    if text_eq expected fingerprint then ok tt else err (host_key_changed host expected fingerprint)
verify_pin mode none host fingerprint = unpinned mode host fingerprint

unfoldable pub verify : ConfiguredHostKeyVerifier → Text → Text → Result (Unit {0})
unfolding verify_pin
verify self host fingerprint = verify_pin self.mode self.pin host fingerprint

verify_pin_iff :
    (mode : HostKeyMode) (pin : Option Text) (host fingerprint : Text)
    → (verify_pin mode pin host fingerprint ≡ ok tt)
      ↔ ((pin ≡ some fingerprint) ⊎ ((pin ≡ none) × (mode ≡ insecure_compatibility)))
unfolding verify_pin
verify_pin_iff mode (some expected) host fingerprint =
    ground (arith, text_eq_iff expected fingerprint)
verify_pin_iff strict none host fingerprint = ground arith
verify_pin_iff insecure_compatibility none host fingerprint = ground arith

-- A server key is accepted exactly if it is the pinned one, or if no key is pinned and the mode is
-- the insecure one. A key that differs from the pin is refused in both modes.
pub verify-pinned :
    (self : ConfiguredHostKeyVerifier) (host fingerprint : Text)
    → (verify self host fingerprint ≡ ok tt)
      ↔ ((self.pin ≡ some fingerprint) ⊎ ((self.pin ≡ none) × (self.mode ≡ insecure_compatibility)))
unfolding verify
verify-pinned self host fingerprint = verify_pin_iff self.mode self.pin host fingerprint
