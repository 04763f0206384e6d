-- ===== src/Local.antt =====
-- internal/controller/local/local.go: what is read from a device, and how its answers are parsed.
pub mod Config
pub mod Nets
pub mod Commands
