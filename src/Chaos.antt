-- ===== src/Chaos.antt =====
-- The chaos runner: runtime_chaos.
pub mod Config
mod Examples
