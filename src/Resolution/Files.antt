-- ===== src/Resolution/Files.antt =====
-- src/config.rs: loading, reloading and writing of the configuration file.
pub mod Committed
use ssh_gateway.Prelude.{
  Text, str, text_eq, option_eq, Bool, true, false, Option, none, some, ◌++◌, ◌||◌, ◌⊎◌, inl, inr,
  if◌then◌else◌, is_empty, map,
}
use mathlib.Core.Option
use ssh_gateway.Errors.{
  Result, ok, err, config as config_error, unsupported_config_format, config_conflict, ◌>>=◌, ◌>>◌,
}
use ssh_gateway.Config
use ssh_gateway.Config.{AppConfig, Profile}
use ssh_gateway.Resolution.Auth.{Platform, require}
use ssh_gateway.Resolution.Validation.{lower, validate}

-- The parsers and printers, which give a message or a value, SHA-256 in hexadecimal, and the file
-- system's view of a path.
pub record Formats : Type 0 where
  pub from_yaml : Text → Text ⊎ AppConfig
  pub from_toml : Text → Text ⊎ AppConfig
  pub to_yaml : AppConfig → Text ⊎ Text
  pub profile_to_json : Profile → Text ⊎ Text
  pub sha256 : Text → Text
  -- `extension()` and `to_str`
  pub extension : Text → Option Text
  pub is_symlink : Text → Bool

-- What an operation meets on the disk, in the order of its steps: others may write the file between
-- its readings.
pub record Disk : Type 0 where
  pub loaded : Text ⊎ Text
  pub hashed : Result Text
  pub current : Result Text
  -- the permissions are read and the temporary file is written
  pub prepared : Result (Unit {0})
  pub latest : Result Text
  pub renamed : Result (Unit {0})
  pub synced : Result (Unit {0})

abbrev or_config {ℓ} : {A : Type ℓ} → Text → Text ⊎ A → Result A
or_config what (inl m) = err (config_error (what ++ m))
or_config what (inr a) = ok a

abbrev or_else {ℓ} : {A : Type ℓ} → Text ⊎ A → Text ⊎ A → Text ⊎ A
or_else (inl m) other = other
or_else (inr a) other = inr a

-- The result, and the text that the file has been replaced by.
abbrev pub Written : Type 0
Written = Result (Unit {0}) × Option Text

module _ (env : Platform) (formats : Formats) where
  abbrev pub extension_is : Text → Text → Bool
  extension_is path name = option_eq (Option.map (map lower) (formats.extension path)) (some name)

  abbrev pub is_yaml : Text → Bool
  is_yaml path = extension_is path (str "yaml") || extension_is path (str "yml")

  unfoldable pub parse_config : Text → Text → Result AppConfig
  parse_config raw path =
      if is_yaml path
      then or_config (str "invalid yaml: ") (formats.from_yaml raw)
      else if extension_is path (str "toml")
      then or_config (str "invalid toml: ") (formats.from_toml raw)
      else or_config (str "invalid config: ")
          (or_else (formats.from_yaml raw) (formats.from_toml raw))

  unfoldable pub load_from_path : Text → Text ⊎ Text → Result AppConfig
  unfolding parse_config
  load_from_path path text = do
    raw ← or_config (str "failed to read " ++ (path ++ str ": ")) text
    parsed ← parse_config raw path
    let config : AppConfig = record parsed { source_path = path; source_hash = formats.sha256 raw }
    validate env config >> ok config

  -- `reload_if_file_backed`, which takes the same steps
  unfoldable pub reload_if_file_backed : AppConfig → Disk → Result AppConfig
  unfolding load_from_path
  reload_if_file_backed config disk =
      if is_empty config.source_path
      then ok config
      else load_from_path config.source_path disk.loaded

  unfoldable pub profile_fingerprint : AppConfig → Text → Result Text
  profile_fingerprint config name = do
    p ← Config.profile config name
    bytes ← or_config (str "serialize profile: ") (formats.profile_to_json p)
    ok (formats.sha256 bytes)

  unfoldable pub require_mutable_yaml : AppConfig → Result (Unit {0})
  require_mutable_yaml config =
      if formats.is_symlink config.source_path
      then err
          (config_error (str "profile management does not write through configuration symlinks"))
      else if is_yaml config.source_path
      then ok tt
      else err (unsupported_config_format config.source_path)

  unfoldable pub file_hash : AppConfig → Disk → Result Text
  file_hash config disk =
      if is_empty config.source_hash
      then (disk.hashed >>= λ bytes. ok (formats.sha256 bytes))
      else ok config.source_hash

  unchanged : Text → Text → Text → Result (Unit {0})
  unchanged expected when bytes =
      if text_eq (formats.sha256 bytes) expected
      then ok tt
      else err (config_conflict (str "configuration changed " ++ when))

  renamed : Disk → Text → Result (Unit {0}) → Written
  renamed disk text (err e) = (err e, none)
  renamed disk text (ok u) = (disk.synced, some text)

  -- The last reading and the renaming.
  exchange : Disk → Text → Result Text → Written
  unfolding unchanged renamed
  exchange disk expected (err e) = (err e, none)
  exchange disk expected (ok text) = renamed disk text (
      disk.prepared
      >> (disk.latest >>= unchanged expected (str "before the update was committed"))
      >> disk.renamed)

  unfoldable pub write_yaml_atomic : AppConfig → Text → Disk → Written
  unfolding exchange unchanged
  write_yaml_atomic config expected disk = exchange disk expected (
      require_mutable_yaml config
      >> (disk.current >>= unchanged expected (str "while the update was prepared"))
      >> or_config (str "serialize YAML: ") (formats.to_yaml config))
