-- ===== src/Policy/Paths.antt =====
-- src/policy.rs, `normalize_remote_path` and `require_path`.
pub mod Components
pub mod Confined
use ssh_gateway.Prelude.{
  ℕ, Text, str, text_eq, starts_with, Bool, true, false, List, [], ◌∷◌, ◌++◌, ◌==◌, ◌||◌, any,
  is_empty, if◌then◌else◌,
}
use ssh_gateway.Errors.{Result, ok, err, policy_denied, ◌>>=◌}
use ssh_gateway.Config.{AgentPolicyConfig}
use mathlib.Core.List.{reverse}

abbrev pub slash : ℕ
slash = b'/'

abbrev pub dot : Text
dot = b'.' ∷ []

abbrev pub dot_dot : Text
dot_dot = b'.' ∷ b'.' ∷ []

abbrev pub cons_head : ℕ → List Text → List Text
cons_head c [] = (c ∷ []) ∷ []
cons_head c (part ∷ rest) = (c ∷ part) ∷ rest

-- `path.split('/')`: never empty
unfoldable pub split : Text → List Text
split [] = [] ∷ []
split (c ∷ s) = let rest = split s in if c == slash then [] ∷ rest else cons_head c rest

abbrev pub pop : List Text → List Text
pop [] = []
pop (part ∷ parts) = parts

-- One round of the loop. The vector `parts` is kept with its last element first.
unfoldable pub push_part : List Text → Text → List Text
push_part parts part =
    if text_eq part [] || text_eq part dot
    then parts
    else if text_eq part dot_dot
    then pop parts
    else part ∷ parts

unfoldable pub collect : List Text → List Text → List Text
collect parts [] = parts
collect parts (part ∷ rest) = collect (push_part parts part) rest

-- `parts.join("/")`
unfoldable pub join : List Text → Text
join [] = []
join (part ∷ []) = part
join (part ∷ next ∷ rest) = part ++ slash ∷ join (next ∷ rest)

-- The parts of a path once `.`, `..` and empty parts are resolved.
unfoldable pub components : Text → List Text
unfolding collect
components path = reverse (collect [] (split path))

unfoldable pub normalize_remote_path : Text → Result Text
normalize_remote_path path =
    if starts_with path (slash ∷ [])
    then ok (slash ∷ join (components path))
    else err (policy_denied (str "policy-restricted remote path must be absolute: " ++ path))

-- the closure of `allowed.iter().any`, on a root that is normalized or is not a path
unfoldable pub covers : Text → Result Text → Bool
covers normalized (err e) = false
covers normalized (ok root) =
    text_eq root (slash ∷ [])
    || text_eq normalized root
    || starts_with normalized (root ++ slash ∷ [])

abbrev pub allowed_roots : AgentPolicyConfig → Bool → List Text
allowed_roots policy write = if write then policy.allowed_write_paths else policy.allowed_read_paths

outside : Bool → Text → Result (Unit {0})
outside write path = err (
    policy_denied (
      (if write then str "write" else str "read")
      ++ str " path is outside allowed roots: "
      ++ path))

within_roots : List Text → Bool → Text → Text → Result (Unit {0})
unfolding outside
within_roots allowed write path normalized =
    if any (λ root. covers normalized (normalize_remote_path root)) allowed
    then ok tt
    else outside write path

unfoldable pub require_path : AgentPolicyConfig → Text → Bool → Result (Unit {0})
unfolding within_roots
require_path policy path write =
    let allowed = allowed_roots policy write in
    if is_empty allowed
    then ok tt
    else normalize_remote_path path >>= within_roots allowed write path
