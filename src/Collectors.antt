-- ===== src/Collectors.antt =====
-- The processors of collectors/: from what a collector receives to the messages for the loggers.
pub mod Processor
pub mod DnsProcessor
pub mod Dnstap
pub mod Pdns
mod Examples
