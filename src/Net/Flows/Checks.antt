-- ===== src/Net/Flows/Checks.antt =====
-- `securityChecks` of netlib/ipdefrag.go.
use go_dns_collector.Base.{
  ◌+◌, ◌*◌, ◌≤◌, ◌≡◌, ◌≢◌, none, some, arith, length, string_key, bytes_key,
}
use go_dns_collector.Net.Defrag.{ip4, ip6}
use go_dns_collector.Net.Flows.{Datagram, overrun, security_checks}

-- The check that an IPv4 fragment does not overrun the maximum size refuses no fragment: the sum of
-- 16 bits that it compares with 65535 is never above it.
pub security_checks-overrun :
    (d : Datagram) → d.packet.family ≡ ip4 → security_checks d ≢ some overrun
unfolding security_checks
security_checks-overrun d four = rw four (λ refuse. grind arith)

-- IPv6 fragments that pass the checks end within 65535 bytes.
pub security_checks-ip6 :
    (d : Datagram)
    → d.packet.family ≡ ip6
    → security_checks d ≡ none
    → d.packet.frag_offset * 8 + length d.packet.payload ≤ 65535
unfolding security_checks
security_checks-ip6 d six = rw six (λ safe. grind arith)
