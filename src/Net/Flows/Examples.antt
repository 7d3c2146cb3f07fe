-- ===== src/Net/Flows/Examples.antt =====
-- Runs of the defragmenting loop on concrete packets.
use go_dns_collector.Base.{
  ℕ, ◌≡◌, refl, Bool, true, false, List, [], ◌∷◌, ◌++◌, arith, pos, ok, string_key, bytes_key, find,
}
use go_dns_collector.Net.Defrag.{ip4, ip6, Packet, Reassembled}
use go_dns_collector.Net.Flows.{
  udp, tcp, other_transport, Datagram, flow_key, flow_of, dont_defrag, security_checks, too_small,
  defrag_ip, rebuilt,
}
use go_dns_collector.Net.Flows.Isolated.{Leaves, Below, defrag_ip-Below}
use go_dns_collector.Net.Flows.Defragger.{ip_defragger}
use go_dns_collector.Net.Flows.Whole.{udps, tcps, ip_defragger-refused}
use go_dns_collector.Net.Flows.Datagrams.{traffic, ip_defragger-fragments}

abbrev packet6 : ℕ → Bool → Packet
packet6 offset more = record {
  family = ip6;
  frag_offset = offset;
  ip_length = 16;
  more_fragments = more;
  payload = 1 ∷ 2 ∷ 3 ∷ 4 ∷ 5 ∷ 6 ∷ 7 ∷ 8 ∷ [];
  timestamp = pos offset;
}

abbrev part : ℕ → Bool → Datagram
part offset more = record {
  packet = packet6 offset more;
  flow = 1 ∷ 2 ∷ [];
  identification = 77;
  fragment_layer = true;
  dont_fragment = false;
  ihl = 0;
  transport = other_transport;
  truncated = false;
}

abbrev query : ℕ → Datagram
query port = record (part 0 false) {
  fragment_layer = false;
  transport = udp 53000 port (9 ∷ 9 ∷ []);
}

abbrev stream : Datagram
stream = record (query 53) { transport = tcp 53000 53 (8 ∷ []) }

-- The decoded packet: UDP to port 53 with the data.
abbrev decoded : Reassembled → Datagram
decoded out = record (part 0 false) { fragment_layer = false; transport = udp 53000 53 out.payload }

-- An IPv4 fragment with less than eight bytes of data.
abbrev tiny : Datagram
tiny = record (part 0 true) {
  packet = record (packet6 0 true) { family = ip4; ip_length = 24 };
  ihl = 5;
}

defrag_ip-Below_example : Leaves Below (defrag_ip decoded (part 0 true) [])
unfolding find
defrag_ip-Below_example = defrag_ip-Below decoded (part 0 true) [] (λ k f there. grind arith)

ip_defragger-refused_example :
    ip_defragger decoded (query 53 ∷ stream ∷ tiny ∷ query 53 ∷ []) []
    ≡ ok (query 53 ∷ [], stream ∷ [])
unfolding dont_defrag security_checks udps tcps
ip_defragger-refused_example =
    ip_defragger-refused decoded (query 53 ∷ stream ∷ []) tiny (query 53 ∷ []) [] too_small
      (refl, (refl, tt)) refl refl

abbrev first_part : List (List Datagram × Datagram)
first_part = (query 53 ∷ [], part 0 true) ∷ []

abbrev parts : List (List Datagram × Datagram)
parts = first_part ++ (stream ∷ [], part 1 false) ∷ []

ip_defragger-fragments_example :
    ip_defragger decoded (traffic parts) []
    ≡ ok (
      query 53
          ∷ rebuilt decoded (record {
            family = ip6;
            payload = 1 ∷ 2 ∷ 3 ∷ 4 ∷ 5 ∷ 6 ∷ 7 ∷ 8 ∷ 1 ∷ 2 ∷ 3 ∷ 4 ∷ 5 ∷ 6 ∷ 7 ∷ 8 ∷ [];
            timestamp = pos 1;
          })
          ∷ [],
      stream ∷ [],
    )
unfolding find dont_defrag security_checks udps tcps
ip_defragger-fragments_example =
    ip_defragger-fragments decoded (flow_of (part 0 true)) first_part (stream ∷ []) (part 1 false)
      [] refl ((refl, tt), refl, refl, refl, ((refl, tt), refl, refl, refl, tt)) (refl, tt) refl
      (refl, refl, omega arith, omega arith, (refl, refl, omega arith, omega arith, tt))
      (omega arith)
