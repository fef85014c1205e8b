-- ===== src/Access.antt =====
pub mod Policy
pub mod Actions
pub mod Budget
mod Tests
