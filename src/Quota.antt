-- ===== src/Quota.antt =====
-- src/xgen_sdk/quota: token quota policies, which of them bind a user, and the decision on a usage.
pub mod Types
pub mod Resolver
pub mod Evaluator
pub mod Strictest
pub mod Override
pub mod Decisions
pub mod Violated
pub mod ReadOrder
mod Examples
