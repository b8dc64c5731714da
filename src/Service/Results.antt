-- ===== src/Service/Results.antt =====
-- src/service.rs: `prevalidate`, `error_result` and `redact_result`.
use ssh_gateway.Prelude.{str, false, Option, none, some, [], ◌∷◌}
use mathlib.Core.Option
use ssh_gateway.Errors.{ArrtError, Result, ok, code, display, ◌>>=◌}
use ssh_gateway.Json.{Value, json, string}
use ssh_gateway.Protocol.{Request, CommandResult, ErrorPayload}
use ssh_gateway.Redaction.{SecretRedactor, redact, redact_value}
use ssh_gateway.Resolution.Auth.{Platform}
use ssh_gateway.Service.Operations.{absolute_local_path}

unfoldable pub prevalidate : Platform → Request → Result (Unit {0})
prevalidate env (Request.upload profile src dst) =
    absolute_local_path env src (str "upload src") >>= λ path. ok tt
prevalidate env (Request.download profile src dst) =
    absolute_local_path env dst (str "download dst") >>= λ path. ok tt
prevalidate env _ = ok tt

-- The paths of a transfer.
abbrev pub transfer_paths : Request → Option Value
transfer_paths (Request.upload profile src dst) =
    some (json ((str "local_src", string src) ∷ (str "remote_dst", string dst) ∷ []))
transfer_paths (Request.download profile src dst) =
    some (json ((str "remote_src", string src) ∷ (str "local_dst", string dst) ∷ []))
transfer_paths _ = none

unfoldable pub error_result : ArrtError → Request → CommandResult
error_result e request = record {
  ok = false;
  exit_code = none;
  stdout = [];
  stderr = [];
  duration_ms = none;
  session_id = none;
  error = some (record { code = code e; message = display e });
  payload = transfer_paths request;
}

unfoldable pub redact_result : SecretRedactor → CommandResult → CommandResult
redact_result redactor r = record r {
  stdout = redact redactor r.stdout;
  stderr = redact redactor r.stderr;
  error =
      Option.map (λ (e : ErrorPayload). record e { message = redact redactor e.message }) r.error;
  payload = Option.map (redact_value redactor) r.payload;
}
