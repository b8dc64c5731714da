-- ===== src/Samples/Summaries.antt =====
-- What a plan shows of its commands.
use ssh_gateway.Prelude.{map, Text, List, str, none, [], ◌∷◌, ◌++◌, ◌≡◌, refl, inl, starts_with}
use ssh_gateway.Errors.{ok}
use ssh_gateway.Json.{Value}
use ssh_gateway.Externals.{Externals, request_hash}
use ssh_gateway.Samples.Data.{no_files}
use ssh_gateway.Protocol.{Request}
use ssh_gateway.Redaction.{SecretRedactor}
use ssh_gateway.Grant.Summaries.{
  split_whitespace, words_from, white_length, to_ascii_uppercase, before_equals, redact_part, join,
  redact_assignments, summary, request_name, plan_entry, summaries_from, plan_summaries,
}
use ssh_gateway.Grant.Summaries.Hidden.{hashless, plan_summaries-hides}

abbrev open_redactor : SecretRedactor
open_redactor = record { secrets = [] }

split_first :
    split_whitespace (str "run Token=ab now")
    ≡ str "run" ∷ (str "Token" ++ 61 ∷ str "ab") ∷ str "now" ∷ []
unfolding split_whitespace words_from white_length str
split_first = refl

split_second :
    split_whitespace (str " run  Token=xyz now")
    ≡ str "run" ∷ (str "Token" ++ 61 ∷ str "xyz") ∷ str "now" ∷ []
unfolding split_whitespace words_from white_length str
split_second = refl

-- A command stands for its own JSON and hash.
abbrev plain_text : Externals
plain_text = record {
  encode = λ r. ok (summary r);
  decode = λ t. ok Request.ping;
  sha256 = λ bytes. bytes;
  constraint_failed = [];
  no_rows = [];
}

abbrev run_command : Text → Request
run_command command = Request.exec (str "web") command none none []

abbrev shown_of : Text → List Value
shown_of command =
    plan_entry open_redactor 0 Request.ping (str "unsupported")
    ∷ plan_entry open_redactor 1 (run_command command) command
    ∷ []

shown_first :
    plan_summaries plain_text no_files open_redactor
      (Request.ping ∷ run_command (str "run Token=ab now") ∷ [])
    ≡ ok (shown_of (str "run Token=ab now"))
unfolding plan_summaries summaries_from request_hash summary request_name
shown_first = refl

shown_second :
    plan_summaries plain_text no_files open_redactor
      (Request.ping ∷ run_command (str " run  Token=xyz now") ∷ [])
    ≡ ok (shown_of (str " run  Token=xyz now"))
unfolding plan_summaries summaries_from request_hash summary request_name
shown_second = refl

plan_summaries-hides_example :
    map hashless (shown_of (str "run Token=ab now"))
    ≡ map hashless (shown_of (str " run  Token=xyz now"))
unfolding to_ascii_uppercase str
plan_summaries-hides_example =
    plan_summaries-hides plain_text no_files open_redactor (Request.ping ∷ []) [] (str "web")
      (str "run Token=ab now") (str " run  Token=xyz now") none none [] (str "run" ∷ [])
      (str "now" ∷ []) (str "Token") (str "ab") (str "xyz") (shown_of (str "run Token=ab now"))
      (shown_of (str " run  Token=xyz now")) (inl refl) split_first split_second shown_first
      shown_second

-- A value in quotes is shown from its second word on.
quoted_value :
    redact_assignments (str "PASSWORD='my secret' run") ≡ str "PASSWORD=[REDACTED] secret' run"
unfolding redact_assignments join redact_part split_whitespace words_from white_length
    to_ascii_uppercase before_equals starts_with str
quoted_value = refl

-- A no-break space is white.
no_break : split_whitespace (97 ∷ 194 ∷ 160 ∷ 98 ∷ []) ≡ (97 ∷ []) ∷ (98 ∷ []) ∷ []
unfolding split_whitespace words_from white_length
no_break = refl
