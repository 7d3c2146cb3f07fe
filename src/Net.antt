-- ===== src/Net.antt =====
-- The packet path of netlib.
pub mod Tcp
pub mod Defrag
pub mod Flows
mod Examples
