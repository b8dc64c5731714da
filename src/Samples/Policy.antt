-- ===== src/Samples/Policy.antt =====
-- The policy: src/policy.rs.
use ssh_gateway.Prelude.{
  str, Bool, true, false, none, some, [], ◌∷◌, ◌≡◌, ◌≢◌, ◌↔◌, ◌⊎◌, refl, arith, Any, text_eq,
  starts_with, codes,
}
use ssh_gateway.Errors.{ok}
use ssh_gateway.Protocol.{agent_cli, enforces_agent_policy}
use ssh_gateway.Policy.Wildcard.{wildcard_match}
use ssh_gateway.Policy.Wildcard
use ssh_gateway.Policy.Wildcard.Glob.{Glob}
use ssh_gateway.Policy.Wildcard.Correct.{wildcard_match_sound, wildcard_match-plain_iff, scan-Ends}
use ssh_gateway.Policy.Wildcard.Literal.{wildcard_match-trailing_star}
use ssh_gateway.Policy.Paths.{
  normalize_remote_path, require_path, allowed_roots, join, components, split, push_part,
}
use ssh_gateway.Policy.Paths.Components.{normalize_remote_path_idem}
use ssh_gateway.Policy.Paths.Confined.{IsAbsolute, Under, require_path-confines}
use ssh_gateway.Policy.Engine.{PolicyEffect, PolicyDecision, authorize}
use ssh_gateway.Policy.Engine.Rules.{Decided, first_rule-Decided}
use ssh_gateway.Policy.Engine.Admission.{Admitted}
use ssh_gateway.Policy.Engine.Admission.Exact.{authorize-admits}
use ssh_gateway.Samples.Data.{one_profile, log_policy, read_log, deny_rm, allow_reads}

deny_rule_missed : wildcard_match (str "rm *") (str "rm *.log") ≡ false
unfolding wildcard_match str
deny_rule_missed = refl

deny_rule_applies : wildcard_match (str "rm *") (str "rm a.log") ≡ true
unfolding wildcard_match str
deny_rule_applies = refl

traversal_refused :
    normalize_remote_path (str "/var/log/../../etc//./shadow") ≡ ok (str "/etc/shadow")
unfolding normalize_remote_path str starts_with text_eq join components split push_part
traversal_refused = refl

authorize-admits_example :
    ((d : PolicyDecision) × (authorize one_profile agent_cli read_log ≡ ok d)
      × (d.effect ≢ PolicyEffect.deny))
    ↔ Admitted one_profile read_log
unfolding enforces_agent_policy
authorize-admits_example = authorize-admits one_profile agent_cli read_log refl

first_rule-Decided_example : Decided read_log (deny_rm ∷ allow_reads ∷ [])
first_rule-Decided_example = first_rule-Decided read_log (deny_rm ∷ allow_reads ∷ [])

require_path-confines_example : (require_path log_policy (str "/var/log/a") false ≡ ok tt) ↔ (
    (allowed_roots log_policy false ≡ [])
    ⊎ (IsAbsolute (str "/var/log/a")
        × Any (Under (str "/var/log/a")) (allowed_roots log_policy false)))
require_path-confines_example = require_path-confines log_policy (str "/var/log/a") false

normalize_remote_path_idem_example :
    normalize_remote_path (str "/etc/shadow") ≡ ok (str "/etc/shadow")
unfolding normalize_remote_path str starts_with text_eq join components split push_part
normalize_remote_path_idem_example =
    normalize_remote_path_idem (str "/var/../etc//shadow") (str "/etc/shadow") refl

wildcard_match-plain_iff_example :
    (wildcard_match (str "*.log") (str "a.log") ≡ true) ↔ Glob (str "*.log") (str "a.log")
unfolding str
wildcard_match-plain_iff_example =
    wildcard_match-plain_iff (str "*.log") (str "a.log") (omega arith)

wildcard_match_sound_example : Glob (str "a*c") (str "abc")
unfolding str wildcard_match
wildcard_match_sound_example = wildcard_match_sound (str "a*c") (str "abc") refl

scan-Ends_example :
    (b : Bool) × (Wildcard.scan (Wildcard.rounds (str "*") (str "ab")) (str "*") (str "ab") none
      ≡ some b)
scan-Ends_example = scan-Ends (str "*") (str "ab")

wildcard_match-trailing_star_example :
    (wildcard_match (codes "rm *") (codes "rm *.log") ≡ false)
    × Glob (codes "rm *") (codes "rm *.log")
wildcard_match-trailing_star_example = wildcard_match-trailing_star b'.' (codes "log") (codes "rm ")
