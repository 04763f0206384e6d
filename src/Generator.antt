-- ===== src/Generator.antt =====
-- utils/internal/generator and utils/cmd/generator: sending the configured requests to a board.
pub mod Command
pub mod Config
pub mod Run
