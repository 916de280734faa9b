-- ===== src/Webapp.antt =====
-- webapp/: the web application over the telemetry tables.
pub mod Tokens
pub mod Search
pub mod Admin
pub mod DbView
pub mod Ports
pub mod Shell
mod Tests
