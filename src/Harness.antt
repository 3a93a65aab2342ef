-- ===== src/Harness.antt =====
-- internal/harness: the limits on the calls of model providers, and the approvals of tool calls.
pub mod Gate
pub mod Approval
pub mod Budget
