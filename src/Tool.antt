-- ===== src/Tool.antt =====
-- The execution of tools (app/tool and app/approval).
pub mod Approvals
pub mod Execute
pub mod Pipeline
pub mod Calls
mod Tests
