-- ===== src/Ipc/Deadlines.antt =====
-- How long the command line waits for the answer of a command.
use ssh_gateway.Prelude.{
  ℕ, Text, Option, none, some, List, ◌<◌, ◌≤◌, ◌≡◌, ◌↔◌, ◌≢◌, ◌⊎◌, ◌==◌, if◌then◌else◌, refl, arith,
  Bool-cases, inl, inr,
}
use ssh_gateway.Externals.{saturating_add}
use ssh_gateway.Protocol.{Request, EnvVar}
use ssh_gateway.Ipc.{exec_deadline, response_timeout}

-- How long the daemon gives a remote command with a timeout: src/session.rs, `execute_prepared_exec`.
abbrev pub daemon_deadline : ℕ → Option ℕ
daemon_deadline seconds = if seconds == 0 then none else some (saturating_add seconds 10)

-- The second deadline is no earlier than the first.
abbrev pub Outlasts : Option ℕ → Option ℕ → Type 0
Outlasts none wait = wait ≡ none
Outlasts (some d) none = Unit
Outlasts (some d) (some w) = d ≤ w

exec_deadline-Outlasts :
    (seconds : ℕ) → Outlasts (daemon_deadline seconds) (exec_deadline (some seconds))
unfolding saturating_add
exec_deadline-Outlasts seconds = elim (Bool-cases (seconds == 0)) [
  | inl e ↦ rw e refl
  | inr e ↦ rw e (omega arith)
]

-- `timeout_seconds.unwrap_or(profile.timeouts.exec_seconds)`
abbrev pub timeout_or : Option ℕ → ℕ → ℕ
timeout_or none exec_seconds = exec_seconds
timeout_or (some seconds) exec_seconds = seconds

default-Outlasts : (e : ℕ) → Outlasts (daemon_deadline e) (some 900) ↔ ((0 < e) × (e ≤ 890))
unfolding saturating_add
default-Outlasts e = elim (Bool-cases (e == 0)) [
  | inl z ↦ rw z ((λ h. absurd (cc)), (λ h. ground arith))
  | inr z ↦ rw z ((λ h. (ground arith, omega arith)), (λ h. omega arith))
]

-- The command line waits at least as long as the daemon lets a remote command run, exactly if the
-- request gives a timeout, or the profile's own is between 1 and 890 seconds.
pub response_timeout-Outlasts :
    (profile command : Text) (cwd : Option Text) (timeout : Option ℕ) (vars : List EnvVar)
    (exec_seconds : ℕ)
    → Outlasts
        (daemon_deadline (timeout_or timeout exec_seconds))
        (response_timeout (Request.exec profile command cwd timeout vars))
      ↔ ((timeout ≢ none) ⊎ ((0 < exec_seconds) × (exec_seconds ≤ 890)))
unfolding response_timeout
response_timeout-Outlasts profile command cwd (some seconds) vars exec_seconds =
    (λ h. inl (λ e. cc), λ h. exec_deadline-Outlasts seconds)
response_timeout-Outlasts profile command cwd none vars exec_seconds =
    let both = default-Outlasts exec_seconds in
    (λ h. inr (both.0 h), elim [ inl given ↦ absurd (given refl) | inr bounded ↦ both.1 bounded ])
