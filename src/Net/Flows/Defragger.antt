-- ===== src/Net/Flows/Defragger.antt =====
-- `IpDefragger` and `UdpProcessor` of netlib/packetproccesor.go: the loops over the channels, which are
-- lists in the order of sending.
use go_dns_collector.Base.{
  ℕ, false, not, ◌&&◌, List, [], ◌∷◌, ◌++◌, ltb, ◌==◌, if◌then◌else◌, Bytes, nil_assertion, Outcome,
  ok, panic, ◌>>=◌, string_key, bytes_key,
}
use go_dns_collector.Net.Defrag.{Reassembled, Fragments}
use go_dns_collector.Net.Tcp.{DnsPacket}
use go_dns_collector.Net.Flows.{
  Transport, udp, tcp, other_transport, Datagram, IpFlow, Answer, packet, pending, refused,
  defrag_ip,
}

-- To the channel of UDP packets, of TCP packets, or to none.
abbrev pub send_by :
    Transport → Datagram → List Datagram × List Datagram → List Datagram × List Datagram
send_by (udp src dst bytes) d (us, ts) = (d ∷ us, ts)
send_by (tcp src dst bytes) d (us, ts) = (us, d ∷ ts)
send_by other_transport d (us, ts) = (us, ts)

abbrev pub after_answer :
    Answer → Outcome ⊥ (List Datagram × List Datagram) → Outcome ⊥ (List Datagram × List Datagram)
after_answer (packet d) rest = rest >>= λ outs. ok (send_by d.transport d outs)
after_answer pending rest = rest
after_answer (refused e) rest = ok ([], [])

-- IpDefragger: what it sends to the two channels.
unfoldable pub ip_defragger :
    (Reassembled → Datagram)
    → List Datagram
    → List (IpFlow × Fragments)
    → Outcome ⊥ (List Datagram × List Datagram)
ip_defragger decode [] fs = ok ([], [])
ip_defragger decode (d ∷ ds) fs =
    defrag_ip decode d fs >>= λ (fs', a). after_answer a (ip_defragger decode ds fs')

-- The transport layer of a packet on the UDP channel is asserted to be UDP. `port_flow` is gopacket's
-- flow between two ports.
module _ (port_flow : ℕ → ℕ → Bytes) (port_filter : ℕ) where
  abbrev pub as_udp : Transport → Datagram → Outcome ⊥ (List (DnsPacket Bytes))
  as_udp (udp src dst bytes) d =
      if ltb 0 port_filter && (not (src == port_filter) && not (dst == port_filter))
      then ok []
      else ok (
          record {
            payload = bytes;
            ip_layer = d.flow;
            transport_layer = port_flow src dst;
            timestamp = d.packet.timestamp;
            ip_defragmented = d.truncated;
            tcp_reassembled = false;
          }
          ∷ [])
  as_udp (tcp src dst bytes) d = panic nil_assertion
  as_udp other_transport d = panic nil_assertion

  unfoldable pub udp_processor : List Datagram → Outcome ⊥ (List (DnsPacket Bytes))
  udp_processor [] = ok []
  udp_processor (d ∷ ds) =
      as_udp d.transport d >>= λ out. udp_processor ds >>= λ outs. ok (out ++ outs)
