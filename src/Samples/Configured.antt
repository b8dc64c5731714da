-- ===== src/Samples/Configured.antt =====
-- A configuration of three profiles, one of which goes via another.
use ssh_gateway.Prelude.{str, true, none, some, [], ◌∷◌}
use ssh_gateway.Config.{AppConfig, Profile, AuthConfig, AuthKind, default_policy}
use ssh_gateway.Resolution.Auth.{Platform}
use ssh_gateway.Samples.Data.{web, one_profile}

-- Every path is absolute, and nothing has white space around it.
abbrev pub plain : Platform
plain = record {
  trim = λ s. s;
  decode_no_pad = λ s. none;
  home = none;
  is_absolute = λ path. true;
  join = λ base path. path;
  parent = λ path. path;
}

abbrev pub hunter : AuthConfig
hunter = record {
  kind = some AuthKind.password;
  key_path = none;
  passphrase = none;
  password = some (str "hunter2");
  credential_id = none;
}

abbrev pub front : Profile
front = record web { name = str "front"; auth = some hunter; agent_policy = default_policy }

abbrev pub back : Profile
back = record front { name = str "back"; via_profile = some (str "front"); auth = none }

abbrev pub spare : Profile
spare = record front { name = str "spare" }

abbrev pub three_profiles : AppConfig
three_profiles = record one_profile {
  profiles = front ∷ back ∷ spare ∷ [];
  mcp = record one_profile.mcp { profile_management = record { enabled = true } };
  source_path = str "gateway.yaml";
  source_hash = str "v1";
}
