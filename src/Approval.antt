-- ===== src/Approval.antt =====
-- src/xgen_sdk/approval: the approval line, its state machine, and the blocks of an approval form.
pub mod Blocks
pub mod Line
pub mod Engine
pub mod Policy
pub mod Store
pub mod Followup
