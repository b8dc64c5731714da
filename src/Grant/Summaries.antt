-- ===== src/Grant/Summaries.antt =====
-- src/grant.rs: what is shown of the actions of a plan.
pub mod Hidden
use ssh_gateway.Prelude.{
  ℕ, zero, suc, Text, str, Bool, true, false, Option, none, some, List, [], ◌∷◌, ◌++◌, ◌-◌, ◌==◌,
  ◌&&◌, ◌||◌, leb, any, map, starts_with, if◌then◌else◌, is_empty,
}
use ssh_gateway.Errors.{Result, ok, ◌>>=◌}
use ssh_gateway.Json.{Value, json, string, number}
use ssh_gateway.Externals.{Externals, Files, request_hash}
use ssh_gateway.Protocol.{Request}
use ssh_gateway.Redaction.{SecretRedactor, redact}

-- The UTF-8 bytes of a white character at the front: how many they are, 0 for another character.
wider_white : ℕ → ℕ → Text → ℕ
wider_white a b [] = 0
wider_white a b (c ∷ t) =
    let ogham = a == 225 && (b == 154 && c == 128) in
    let spaces =
      a == 226
      && (b == 128 && ((leb 128 c && leb c 138) || (c == 168 || (c == 169 || c == 175)))) in
    let medium = a == 226 && (b == 129 && c == 159) in
    let ideographic = a == 227 && (b == 128 && c == 128) in
    if ogham || (spaces || (medium || ideographic)) then 3 else 0

wide_white : ℕ → Text → ℕ
wide_white a [] = 0
wide_white a (b ∷ t) = if a == 194 && (b == 133 || b == 160) then 2 else wider_white a b t

unfoldable pub white_length : Text → ℕ
unfolding wide_white wider_white
white_length [] = 0
white_length (a ∷ t) = if a == 32 || (leb 9 a && leb a 13) then 1 else wide_white a t

abbrev word : Text → List Text
word [] = []
word (c ∷ t) = (c ∷ t) ∷ []

-- The words, where `skip` bytes are left of a white character, and `read` of a word are read.
unfoldable pub words_from : ℕ → Text → Text → List Text
unfolding white_length
words_from skip read [] = word read
words_from (suc skip) read (c ∷ t) = words_from skip read t
words_from zero read (c ∷ t) =
    let inside = words_from zero (read ++ c ∷ []) t in
    let behind = words_from (white_length (c ∷ t) - 1) [] t in
    if white_length (c ∷ t) == 0 then inside else word read ++ behind

-- `split_whitespace`
unfoldable pub split_whitespace : Text → List Text
unfolding words_from
split_whitespace text = words_from 0 [] text

-- `to_ascii_uppercase`
unfoldable pub to_ascii_uppercase : Text → Text
to_ascii_uppercase [] = []
to_ascii_uppercase (c ∷ t) = (if leb 97 c && leb c 122 then c - 32 else c) ∷ to_ascii_uppercase t

-- `split_once('=')`, of which only the first part is used
unfoldable pub before_equals : Text → Option Text
before_equals [] = none
before_equals (c ∷ t) =
    let rest = before_equals t in
    if c == 61 then some [] else elim rest [ none ↦ none | some name ↦ some (c ∷ name) ]

abbrev pub secret_keys : List Text
secret_keys = str "TOKEN=" ∷ str "PASSWORD=" ∷ str "SECRET=" ∷ []

abbrev pub masked_part : Option Text → Text
masked_part none = str "[REDACTED]"
masked_part (some name) = name ++ str "=[REDACTED]"

unfoldable pub redact_part : Text → Text
unfolding to_ascii_uppercase before_equals starts_with
redact_part part =
    if any (λ key. starts_with (to_ascii_uppercase part) key) secret_keys
    then masked_part (before_equals part)
    else part

-- `join(" ")`
unfoldable pub join : List Text → Text
join [] = []
join (part ∷ []) = part
join (part ∷ parts) = part ++ 32 ∷ join parts

unfoldable pub redact_assignments : Text → Text
unfolding join redact_part split_whitespace
redact_assignments value = join (map redact_part (split_whitespace value))

unfoldable pub request_name : Request → Text
request_name (Request.exec profile command cwd timeout env) = str "exec"
request_name (Request.read profile path) = str "read"
request_name (Request.write profile path mode content) = str "write"
request_name (Request.upload profile src dst) = str "upload"
request_name (Request.download profile src dst) = str "download"
request_name _ = str "unsupported"

unfoldable pub summary : Request → Text
unfolding request_name
summary (Request.exec profile command cwd timeout env) = command
summary (Request.read profile path) = str "read " ++ path
summary (Request.write profile path mode content) = str "write " ++ path
summary (Request.upload profile src dst) = str "upload to " ++ dst
summary (Request.download profile src dst) = str "download " ++ src
summary r = request_name r

-- `redactor.redact(&redact_assignments(&summary(a)))`, the field `summary` in `plan_summaries`
unfoldable pub shown_summary : SecretRedactor → Request → Text
unfolding redact_assignments summary redact
shown_summary redactor a = redact redactor (redact_assignments (summary a))

-- What a plan shows of its action at an index, with the action's hash.
unfoldable pub plan_entry : SecretRedactor → ℕ → Request → Text → Value
unfolding shown_summary request_name
plan_entry redactor i a hash = json (
    (str "index", number i)
    ∷ (str "operation", string (request_name a))
    ∷ (str "summary", string (shown_summary redactor a))
    ∷ (str "request_hash", string hash)
    ∷ [])

unfoldable pub summaries_from :
    Externals → Files → SecretRedactor → ℕ → List Request → Result (List Value)
unfolding plan_entry
summaries_from x files redactor i [] = ok []
summaries_from x files redactor i (a ∷ actions) = request_hash x files a >>= λ hash.
    summaries_from x files redactor (suc i) actions >>= λ rest.
    ok (plan_entry redactor i a hash ∷ rest)

unfoldable pub plan_summaries :
    Externals → Files → SecretRedactor → List Request → Result (List Value)
unfolding summaries_from
plan_summaries x files redactor actions = summaries_from x files redactor 0 actions
