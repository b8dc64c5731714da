-- ===== src/Lib.antt =====
-- A verification library for the ssh gateway: the part of the gateway that decides whether a request
-- of an agent may run, and on which host.
--
-- A request (src/protocol.rs) reaches the gateway's service from the command line, from an agent or
-- from the MCP server. The policy engine (src/policy.rs) allows it, refuses it or asks for a
-- confirmation. A confirmation is an approval (src/approval.rs), which a human turns into one
-- execution; or a grant (src/grant.rs) made from an approval stands in for it some number of times; or
-- a plan (src/grant.rs) that a human approved holds the request as its next action. A connection is
-- made to an address that the target policy (src/target.rs) accepts and to a server whose key the
-- verifier (src/ssh.rs) accepts, and remote commands are quoted for its shell (src/ssh.rs). Connections live in a table of sessions, with
-- the tunnels through them (src/session.rs).
--
-- Prelude: names of the libraries, Boolean tests, lists measured by native numbers, and Rust's strings
--   as lists of bytes. A literal is `str "..."`.
-- Errors: src/errors.rs, ArrtError with its codes, and Result with the bind that models `?`.
-- Config: src/config.rs, the records and enums of the configuration and of a resolved profile, their
--   defaults where another part uses them, and AppConfig::profile.
-- Json: JSON values with natural numbers, which is all that the gateway's own values hold.
-- Protocol: src/protocol.rs, CallerType, Request, CommandResult and the records in them.
-- Policy: src/policy.rs. Policy/Wildcard has wildcard_match, its loop on fuel; Policy/Paths has
--   normalize_remote_path and require_path; Policy/Engine has PolicyEngine::authorize and what it
--   calls. The children of each hold its theorems.
-- Target: src/target.rs, with the resolver's answer and the printer of addresses as arguments.
-- Ssh: src/ssh.rs, ConfiguredHostKeyVerifier, shell_quote and shell_join.
-- Externals: what the stores take from other code, that is the JSON codec, SHA-256 and the database's
--   messages, as a record of functions; local files are a function from paths to contents.
-- Approval: src/approval.rs. Approval/Rows has the columns and the texts stored in them;
--   Approval/Service has create, claim, reject, finish, cleanup and expire.
-- Grant: src/grant.rs. Grant/Rows and Grant/Service have create_from_status, consume, revoke and
--   cleanup_grants; Grant/Plans has propose_plan, approve_plan, reject_plan, claim_plan_action and
--   finish_plan_action, and Grant/Summaries the summaries of actions that a plan shows.
-- Session: src/session.rs, SessionManager. Session/Tables has hash maps as lists of entries;
--   Session/Manager has close_session, close_all, tunnel_close, the reaping of idle sessions and
--   finish_exec. Session/Views has what is shown of sessions. A transport is a number, and the task
--   behind a tunnel is left out.
-- Principal: src/principal.rs, Principal::local and execution_namespace, which the sessions' and the
--   stores' namespaces come from.
-- Resolution: src/config.rs. Resolution/Auth has AuthConfig::resolve and HostEndpoint,
--   Resolution/Profiles the resolution of a profile to hops, Resolution/Validation AppConfig::validate,
--   and Resolution/Files the loading and the atomic write of the configuration file.
-- Redaction: src/redaction.rs, SecretRedactor.
-- Service: src/service.rs. Service/Action is the monad of fallible code that changes a state,
--   Service/World what an operation works on; Service/Operations has execute_authorized,
--   Service/Decisions resolve_operation and execute_enveloped, Service/Management the creation and
--   deletion of profiles, Service/Results what becomes of errors and results, and Service/Approve what
--   execute_authorization_admin does on ApprovalApprove. The operations of a session that reach a host, and what is shown of profiles,
--   are the fields of the record Operations, about which nothing is assumed.
-- Ipc: src/ipc.rs, write_frame, read_frame and response_timeout; Ipc/Deadlines has the deadline of
--   src/session.rs for a command. The JSON of a message is the parameter FrameCodec.
-- Samples: runs of the definitions at concrete inputs.
--
-- A database table is a list of rows in the order of insertion, and an SQL statement is its effect on
-- the list, with the WHERE clause as a Boolean test. An operation returns its result and the table
-- behind it; a transaction that is rolled back returns the table before it. Clock readings, fresh
-- identifiers and the answers of the resolver are arguments, one for each time that the code asks, so
-- that time may pass, or run backwards, between two statements of one operation. Operations of several
-- processes on one database are sequences of whole operations: the grants' and plans' transactions
-- are immediate, and of the approvals', which are deferred, SQLite lets one that would write on what
-- another has changed fail. A history is a list of such operations.
--
-- Numbers are natural numbers. Where the code saturates at 64 bits, or would wrap around there, the
-- definition does. Octets and segments of addresses are numbers that the theorems bound.
--
-- The loop of wildcard_match runs on fuel, (length of the value + 1) * (length of the pattern + 1)
-- rounds, which is enough because each return to a star takes up one more byte of the value and each
-- other round one byte of the pattern. The resolution of a profile runs on one round more than there are
-- profiles, and the loop over private key blocks on one turn more than the text has bytes; both give
-- `none` when the rounds are used up, and theorems say that they are not. Every other loop is a recursion on a list.
--
-- The configuration file may be changed by others at any time: what each reading of it finds is an
-- argument, and so is whether each step of the write succeeds.
--
-- Where SQL leaves the order of equal rows open, the earlier row comes first. Failures of the database
-- other than a violated key and a missing row are not modelled, nor are file permissions, migrations
-- of old databases, and the JSON that list and show print. Log output is not modelled. The
-- other branches of execute_authorization_admin, the service's dispatch, the opening of
-- sessions and tunnels, the sockets, the command line, the daemon, the remote agent and the MCP server
-- are not modelled.
pub mod Prelude
pub mod Errors
pub mod Config
pub mod Json
pub mod Protocol
pub mod Policy
pub mod Target
pub mod Ssh
pub mod Externals
pub mod Approval
pub mod Grant
pub mod Session
pub mod Principal
pub mod Resolution
pub mod Redaction
pub mod Service
pub mod Ipc
pub mod Samples
