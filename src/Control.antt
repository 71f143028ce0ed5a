-- ===== src/Control.antt =====
-- src/xgen_sdk/control_policy: the outcome of a policy read, the rules of masking, and the container of
-- office documents.
pub mod Outcome
pub mod Rules
pub mod Cfb
