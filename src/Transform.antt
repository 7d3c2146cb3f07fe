-- ===== src/Transform.antt =====
-- The transformers: transformers/*.go.
pub mod Config
pub mod Filtering
pub mod Suspicious
pub mod Quiet
pub mod Latency
pub mod Chain
pub mod Process
pub mod Samples
mod Examples
