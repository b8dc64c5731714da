-- ===== src/Samples.antt =====
-- Runs of the models at concrete inputs, and the theorems at inputs where their conditions hold.
mod Data
mod Policy
mod Store
mod Grants
mod Sessions
mod Principals
mod Transport
mod Configured
mod Resolution
mod Service
mod Approvals
mod Messages
mod Summaries
