-- ===== src/Security.antt =====
-- The security toolkit: security_toolkit/src/core.
mod Value
pub mod Severity
pub mod Finding
pub mod Report
pub mod Plugin
pub mod Json
pub mod Engine
pub mod Profiler
mod Examples
