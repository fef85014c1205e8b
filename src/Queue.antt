-- ===== src/Queue.antt =====
pub mod Store
pub mod Heap
pub mod Shared
mod Tests
