-- ===== src/Approval.antt =====
-- src/approval.rs: the approvals table and the operations of `ApprovalService`. A table is the list
-- of its rows; an SQL statement is its effect on the rows. `status` holds the stored text as a value.
-- Each reading of the clock is an argument, in the order of the readings.
pub mod Rows
pub mod Service
