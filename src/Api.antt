-- ===== src/Api.antt =====
-- The custom resource of api/v5alpha1: its types, the configuration operations and the DAC channels.
pub mod Types
pub mod Config
