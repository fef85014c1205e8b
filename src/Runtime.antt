-- ===== src/Runtime.antt =====
pub mod State
pub mod Rebuild
pub mod Context
pub mod Loop
pub mod Drive
pub mod Run
pub mod Lock
pub mod Recovery
mod Tests
