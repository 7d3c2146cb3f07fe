-- ===== src/Dns.antt =====
-- The wire format of DNS: dnsutils/dns.go and dnsutils/edns.go.
pub mod Error
pub mod Labels
pub mod Header
pub mod Names
pub mod Address
pub mod Rdata
pub mod Question
pub mod Answer
pub mod Edns
pub mod Payload
mod Examples
