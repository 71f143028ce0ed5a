-- ===== src/Share.antt =====
-- src/xgen_sdk/agent_share.py: with whom an agent is shared, in three parts: the grants of a row, the
-- settings, and what a person may do and how grants change.
pub mod Parse
pub mod Settings
pub mod Access
pub mod Columns
