-- ===== src/Redaction.antt =====
-- src/redaction.rs: secrets in what callers and logs see.
pub mod Masks
pub mod Hidden
pub mod Loop
pub mod Collected
use ssh_gateway.Prelude.{
  ℕ, zero, suc, Text, str, Bool, true, false, Option, none, some, List, [], ◌∷◌, ◌++◌, ◌-◌, ◌==◌,
  ◌||◌, ltb, if◌then◌else◌, starts_with, length, is_empty, is_some, text_eq,
}
use ssh_gateway.Errors.{Result, ok, err}
use ssh_gateway.Json.{
  Value, Values, Fields, null, boolean, number, string, array, object, end, item, close, field,
}
use ssh_gateway.Config.{
  AppConfig, Profile, AuthConfig, HostEndpoint, ResolvedAuthConfig, ResolvedEndpoint,
  ResolvedTransport, ResolvedProfile,
}
use ssh_gateway.Resolution.Auth.{Platform, CredentialStore}
use ssh_gateway.Resolution.Profiles.{resolved_profile}

abbrev pub redacted_mark : Text
redacted_mark = str "[REDACTED]"

abbrev pub key_mark : Text
key_mark = str "[REDACTED PRIVATE KEY]"

-- `replace`, for a pattern that is not empty: `k` bytes of a match are left to skip.
unfoldable pub replace_from : Text → Text → ℕ → Text → Text
replace_from pattern mark k [] = []
replace_from pattern mark (suc k) (c ∷ text) = replace_from pattern mark k text
replace_from pattern mark zero (c ∷ text) =
    let matched = mark ++ replace_from pattern mark (length pattern - 1) text in
    let passed = c ∷ replace_from pattern mark zero text in
    if starts_with (c ∷ text) pattern then matched else passed

unfoldable pub replace : Text → Text → Text → Text
unfolding replace_from
replace pattern mark text = replace_from pattern mark 0 text

prepend : ℕ → Option (Text × Text) → Option (Text × Text)
prepend c none = none
prepend c (some (before, rest)) = some (c ∷ before, rest)

-- `find`: the text before the first occurrence of the pattern, and the text from there on. The
-- pattern is not empty.
unfoldable pub split_at : Text → Text → Option (Text × Text)
unfolding prepend
split_at pattern [] = none
split_at pattern (c ∷ text) =
    let later = prepend c (split_at pattern text) in
    if starts_with (c ∷ text) pattern then some ([], c ∷ text) else later

-- Up to the end of the line, and behind it.
unfoldable pub split_line : Text → Text × Text
split_line [] = ([], [])
split_line (c ∷ text) =
    let rest = split_line text in if c == 10 then (c ∷ [], text) else (c ∷ rest.0, rest.1)

-- The text before what the rest of the loop gives.
abbrev pub put_before : Text → Option Text → Option Text
put_before front none = none
put_before front (some text) = some (front ++ text)

-- One turn of the loop of `redact_private_key_blocks`; `more` is the rest of the loop, and `none` is a
-- loop that is still going.
module _ (more : Text → Option Text) where
  unfoldable pub after_end : Option (Text × Text) → Option Text
  unfolding split_line
  after_end none = some []
  after_end (some (key, rest)) = more (split_line rest).1

  unfoldable pub at_begin : Text → Option (Text × Text) → Option Text
  unfolding after_end split_line split_at
  at_begin text none = some text
  at_begin text (some (before, rest)) =
      let (header, body) = split_line rest in
      if is_some (split_at (str "PRIVATE KEY") header)
      then put_before before (put_before key_mark (after_end (split_at (str "-----END ") body)))
      else put_before before (put_before header (more body))

-- The loop, with the number of turns that are left; `none` when they are used up.
unfoldable pub key_blocks : ℕ → Text → Option Text
unfolding at_begin split_at
key_blocks zero text = none
key_blocks (suc f) text = at_begin (key_blocks f) text (split_at (str "-----BEGIN ") text)

abbrev pub or_text : Text → Option Text → Text
or_text text none = text
or_text text (some redacted) = redacted

-- Every turn but the last takes a byte at least.
unfoldable pub redact_private_key_blocks : Text → Text
unfolding key_blocks
redact_private_key_blocks text = or_text text (key_blocks (suc (length text)) text)

unfoldable pub replace_all : List Text → Text → Text
unfolding replace
replace_all [] text = text
replace_all (secret ∷ secrets) text = replace_all secrets (replace secret redacted_mark text)

pub record SecretRedactor : Type 0 where
  pub secrets : List Text

unfoldable pub redact : SecretRedactor → Text → Text
unfolding replace_all redact_private_key_blocks
redact self input = redact_private_key_blocks (replace_all self.secrets input)

-- `redact_value` on a value, on an array's items and on an object's.
unfoldable mutual
  pub redact_value : SecretRedactor → Value → Value
  redact_value self (string text) = string (redact self text)
  redact_value self (array items) = array (redact_items self items)
  redact_value self (object fields) = object (redact_fields self fields)
  redact_value self null = null
  redact_value self (boolean b) = boolean b
  redact_value self (number n) = number n

  pub redact_items : SecretRedactor → Values → Values
  redact_items self end = end
  redact_items self (item v rest) = item (redact_value self v) (redact_items self rest)

  pub redact_fields : SecretRedactor → Fields → Fields
  redact_fields self close = close
  redact_fields self (field name v rest) =
      field name (redact_value self v) (redact_fields self rest)

-- What a call of `push_secret` adds.
abbrev pub secret : Text → List Text
secret value = if is_empty value then [] else value ∷ []

abbrev pub secret_of : Option Text → List Text
secret_of none = []
secret_of (some value) = secret value

unfoldable pub collect_auth : ResolvedAuthConfig → List Text
collect_auth (ResolvedAuthConfig.key path passphrase) = secret path ++ secret_of passphrase
collect_auth (ResolvedAuthConfig.password password) = secret password

unfoldable pub collect_raw_auth : Option AuthConfig → List Text
collect_raw_auth none = []
collect_raw_auth (some auth) =
    secret_of auth.password ++ (secret_of auth.passphrase ++ secret_of auth.key_path)

unfoldable pub collect_each : List ResolvedEndpoint → List Text
unfolding collect_auth
collect_each [] = []
collect_each (e ∷ endpoints) = collect_auth e.auth ++ collect_each endpoints

unfoldable pub collect_raw_each : List HostEndpoint → List Text
unfolding collect_raw_auth
collect_raw_each [] = []
collect_raw_each (e ∷ endpoints) = collect_raw_auth e.auth ++ collect_raw_each endpoints

unfoldable pub collect_transport : ResolvedTransport → List Text
unfolding collect_each
collect_transport (ResolvedTransport.direct target bastions) =
    collect_auth target.auth ++ collect_each bastions
collect_transport (ResolvedTransport.delegated via target) = []

unfoldable pub collect_resolved : Option (Result ResolvedProfile) → List Text
unfolding collect_transport
collect_resolved (some (ok p)) = collect_transport p.transport
collect_resolved (some (err e)) = []
collect_resolved none = []

-- `sort_by_key(Reverse(len))`, which is stable, and `dedup`, which drops equal neighbours.
unfoldable pub insert_longest : Text → List Text → List Text
insert_longest s [] = s ∷ []
insert_longest s (t ∷ texts) =
    let later = insert_longest s texts in
    if ltb (length s) (length t) then t ∷ later else s ∷ t ∷ texts

unfoldable pub longest_first : List Text → List Text
unfolding insert_longest
longest_first [] = []
longest_first (s ∷ texts) = insert_longest s (longest_first texts)

unfoldable pub dedup_from : Text → List Text → List Text
dedup_from s [] = s ∷ []
dedup_from s (t ∷ texts) =
    let same = dedup_from s texts in
    let other = s ∷ dedup_from t texts in if text_eq s t then same else other

unfoldable pub dedup : List Text → List Text
unfolding dedup_from
dedup [] = []
dedup (s ∷ texts) = dedup_from s texts

module _ (env : Platform) (credentials : CredentialStore) where
  unfoldable pub collect_profiles : AppConfig → List Profile → List Text
  unfolding collect_resolved
  collect_profiles config [] = []
  collect_profiles config (p ∷ profiles) =
      collect_resolved
        (resolved_profile env credentials (env.parent config.source_path) config p.name)
      ++ collect_profiles config profiles

  -- `from_config_with_credentials`; `token` is the value of the environment variable of the token.
  unfoldable pub from_config : AppConfig → Option Text → SecretRedactor
  unfolding collect_profiles dedup longest_first
  from_config config token = record {
    secrets = dedup (longest_first (collect_profiles config config.profiles ++ secret_of token));
  }

  -- `from_config_and_profile_with_credentials`
  unfoldable pub from_config_and_profile : AppConfig → Option Text → Profile → SecretRedactor
  unfolding from_config collect_raw_each
  from_config_and_profile config token p = record {
    secrets = dedup (
        longest_first (
          (from_config config token).secrets
          ++ (collect_raw_auth p.auth
              ++ (collect_raw_auth p.target.auth ++ collect_raw_each p.bastions))));
  }
