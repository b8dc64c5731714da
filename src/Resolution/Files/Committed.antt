-- ===== src/Resolution/Files/Committed.antt =====
-- What a write of the configuration file has met.
use ssh_gateway.Prelude.{Text, text_eq_iff, some, ◌≡◌, refl, ap, ◌⊎◌, inl, inr, arith}
use ssh_gateway.Errors.{Result, ok, err, ok-injective, >>=-eq-ok, >>-eq-ok}
use ssh_gateway.Config.{AppConfig}
use ssh_gateway.Resolution.Auth.{Platform}
use ssh_gateway.Resolution.Files.{
  Formats, Disk, or_config, unchanged, renamed, exchange, require_mutable_yaml, write_yaml_atomic,
}

-- Both readings before the renaming have the expected hash, and the text is the configuration's.
pub record Exchanged (formats : Formats) (config : AppConfig) (expected : Text) (disk : Disk)
    (text : Text) : Type 0 where
  pub before : Text
  pub read_before : disk.current ≡ ok before
  pub before_is : formats.sha256 before ≡ expected
  pub last : Text
  pub read_last : disk.latest ≡ ok last
  pub last_is : formats.sha256 last ≡ expected
  pub printed : formats.to_yaml config ≡ inr text

or_config-ok : (what : Text) (o : Text ⊎ Text) {a : Text} → or_config what o ≡ ok a → o ≡ inr a
or_config-ok what (inl m) h = absurd (cc)
or_config-ok what (inr a) h = ap inr (ok-injective h)

module _ (env : Platform) (formats : Formats) where
  unchanged-same :
      (expected when bytes : Text)
      → unchanged env formats expected when bytes ≡ ok tt
      → formats.sha256 bytes ≡ expected
  unfolding unchanged
  unchanged-same expected when bytes h = ground (arith, text_eq_iff (formats.sha256 bytes) expected)

  renamed-ok :
      (disk : Disk) (text : Text) (r : Result (Unit {0})) {t : Text}
      → (renamed env formats disk text r).1 ≡ some t
      → (r ≡ ok tt) × (text ≡ t)
  unfolding renamed
  renamed-ok disk text (err e) h = absurd (cc)
  renamed-ok disk text (ok u) h = (refl, cc)

  exchange-ok :
      (disk : Disk) (expected : Text) (r : Result Text) {t : Text}
      → (exchange env formats disk expected r).1 ≡ some t
      → (r ≡ ok t) × (last : Text) × (disk.latest ≡ ok last) × (formats.sha256 last ≡ expected)
  unfolding exchange
  exchange-ok disk expected (err e) h = absurd (cc)
  exchange-ok disk expected (ok text) h =
      let (done, same) = renamed-ok disk text _ h in
      let (checked, moved) = >>-eq-ok _ disk.renamed done in
      let (p, q) = >>-eq-ok disk.prepared _ checked in
      let (last, l, u) = >>=-eq-ok disk.latest _ q in
      (ap ok same, last, l, unchanged-same expected _ last u)

  pub write_yaml_atomic-Exchanged :
      (config : AppConfig) (expected : Text) (disk : Disk) (text : Text)
      → (write_yaml_atomic env formats config expected disk).1 ≡ some text
      → Exchanged formats config expected disk text
  unfolding write_yaml_atomic
  write_yaml_atomic-Exchanged config expected disk text h =
      let (all, last, l, u) = exchange-ok disk expected _ h in
      let (first, printed) = >>-eq-ok _ _ all in
      let (mutable, checked) = >>-eq-ok (require_mutable_yaml env formats config) _ first in
      let (before, b, c) = >>=-eq-ok disk.current _ checked in
      record {
        before = before;
        read_before = b;
        before_is = unchanged-same expected _ before c;
        last = last;
        read_last = l;
        last_is = u;
        printed = or_config-ok _ (formats.to_yaml config) printed;
      }
