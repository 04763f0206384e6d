-- ===== src/Proxy.antt =====
-- utils/internal/proxy and utils/cmd/proxy: recording the traffic of a port, and saving it.
pub mod Quoting
pub mod Recorder
pub mod Replay
pub mod Command
pub mod Config
pub mod Goroutines
pub mod Run
pub mod Save
pub mod Timing
