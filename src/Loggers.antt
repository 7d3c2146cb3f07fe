-- ===== src/Loggers.antt =====
-- The outputs of loggers/ that keep state: counters, buffers, batches and files.
pub mod Top
pub mod Worker
pub mod RestApi
pub mod Family
pub mod Prometheus
pub mod Sender
pub mod LogFile
pub mod Statsd
pub mod Loki
mod Examples
