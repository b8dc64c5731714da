-- ===== src/Grant/Plans/Lease.antt =====
-- The lease of a claimed action against the deadline of its operation.
use ssh_gateway.Prelude.{ℕ, Option, none, some, ◌<◌}

-- There is a deadline, and it comes before the lease runs out.
abbrev pub EndsBefore : Option ℕ → ℕ → Type 0
EndsBefore none lease = ⊥
EndsBefore (some deadline) lease = deadline < lease

-- The timeouts of a request, or of its profile, that the lease allows for.
abbrev pub IsLeased : Option ℕ → ℕ → Type 0
IsLeased none exec_seconds = (0 < exec_seconds) × (exec_seconds < 350)
IsLeased (some t) exec_seconds = (0 < t) × (t < 3650)
