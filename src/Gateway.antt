-- ===== src/Gateway.antt =====
pub mod Breaker
pub mod Limiter
pub mod Router
pub mod Pool
pub mod Complete
mod Tests
