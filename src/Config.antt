-- ===== src/Config.antt =====
-- The configuration of dnsutils/config.go.
pub mod Constants
pub mod Global
pub mod Collectors
pub mod Streams
pub mod Loggers
pub mod Whole
pub mod Defaults
