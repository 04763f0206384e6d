-- ===== src/Emulator.antt =====
-- utils/internal/emulator: the configured mappings, and how requests are answered.
pub mod Command
pub mod Config
pub mod Lifecycle
pub mod Mappings
pub mod Respond
