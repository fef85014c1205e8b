-- ===== src/Release.antt =====
-- The release service (app/release/service.py): versions, the contract gate, the gray rollout, the
-- canary stop, the release flow and the release orders of the agents of a tenant.
pub mod Model
pub mod Flow
pub mod Orders
pub mod Contract
pub mod Versions
pub mod Publishing
pub mod Canary
pub mod Resolve
mod Tests
