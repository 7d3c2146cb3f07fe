-- ===== src/Net/Flows/Whole.antt =====
-- What `IpDefragger` and `UdpProcessor` pass on of packets that are no fragments, and what stops them.
use go_dns_collector.Base.{
  ℕ, ◌≡◌, refl, ap, inl, inr, Bool, true, false, ◌||◌, some, List, [], ◌∷◌, ◌++◌, append-nil,
  append_assoc, arith, ◌==◌, if◌then◌else◌, Bool-cases, Bytes, Outcome, ok, err, panic, ◌>>=◌,
  string_key, bytes_key,
}
use go_dns_collector.Net.Defrag.{Reassembled, Fragments}
use go_dns_collector.Net.Tcp.{DnsPacket}
use go_dns_collector.Net.Flows.{
  Transport, udp, tcp, other_transport, Datagram, IpFlow, DefragIpError, dont_defrag,
  security_checks, defrag_ip,
}
use go_dns_collector.Net.Flows.Defragger.{send_by, ip_defragger, as_udp, udp_processor}

-- No fragments.
abbrev pub AllWhole : List Datagram → Type 0
AllWhole [] = Unit
AllWhole (d ∷ ds) = (dont_defrag d ≡ true) × AllWhole ds

abbrev is_udp : Transport → Bool
is_udp (udp src dst bytes) = true
is_udp (tcp src dst bytes) = false
is_udp other_transport = false

abbrev is_tcp : Transport → Bool
is_tcp (udp src dst bytes) = false
is_tcp (tcp src dst bytes) = true
is_tcp other_transport = false

unfoldable pub udps : List Datagram → List Datagram
udps [] = []
udps (d ∷ ds) = let rest = udps ds in if is_udp d.transport then d ∷ rest else rest

unfoldable pub tcps : List Datagram → List Datagram
tcps [] = []
tcps (d ∷ ds) = let rest = tcps ds in if is_tcp d.transport then d ∷ rest else rest

-- The packets `ds` before what else is sent.
abbrev pub sent : List Datagram → List Datagram × List Datagram → List Datagram × List Datagram
sent ds (us, ts) = (udps ds ++ us, tcps ds ++ ts)

udps-append : (a b : List Datagram) → udps (a ++ b) ≡ udps a ++ udps b
unfolding udps
udps-append [] b = refl
udps-append (d ∷ a) b = ground (arith, udps-append a b)

tcps-append : (a b : List Datagram) → tcps (a ++ b) ≡ tcps a ++ tcps b
unfolding tcps
tcps-append [] b = refl
tcps-append (d ∷ a) b = ground (arith, tcps-append a b)

pub sent-append :
    (a b : List Datagram) (outs : List Datagram × List Datagram)
    → sent a (sent b outs) ≡ sent (a ++ b) outs
sent-append a b (us, ts) = rw (udps-append a b) (
    rw (tcps-append a b)
      (rw (append_assoc (udps a) (udps b) us) (rw (append_assoc (tcps a) (tcps b) ts) refl)))

sent-first :
    (t : Transport) (d : Datagram) (ds : List Datagram) (outs : List Datagram × List Datagram)
    → d.transport ≡ t
    → send_by d.transport d (sent ds outs) ≡ sent (d ∷ ds) outs
unfolding udps tcps
sent-first (udp src dst bytes) d ds outs e = rw e refl
sent-first (tcp src dst bytes) d ds outs e = rw e refl
sent-first other_transport d ds outs e = rw e refl

module _ (decode : Reassembled → Datagram) where
  send_by-bind :
      (d : Datagram) (ds : List Datagram) (o : Outcome ⊥ (List Datagram × List Datagram))
      → ((o >>= λ outs. ok (sent ds outs)) >>= λ outs. ok (send_by d.transport d outs))
        ≡ (o >>= λ outs. ok (sent (d ∷ ds) outs))
  send_by-bind d ds (ok outs) = ap ok (sent-first d.transport d ds outs refl)
  send_by-bind d ds (err e) = refl
  send_by-bind d ds (panic c) = refl

  sent-none :
      (o : Outcome ⊥ (List Datagram × List Datagram)) → o ≡ (o >>= λ outs. ok (sent [] outs))
  unfolding udps tcps
  sent-none (ok outs) = refl
  sent-none (err e) = refl
  sent-none (panic c) = refl

  pub ip_defragger-whole :
      (ws ds : List Datagram) (fs : List (IpFlow × Fragments))
      → AllWhole ws
      → ip_defragger decode (ws ++ ds) fs
        ≡ (ip_defragger decode ds fs >>= λ outs. ok (sent ws outs))
  unfolding ip_defragger defrag_ip udps tcps
  ip_defragger-whole [] ds fs whole = sent-none (ip_defragger decode ds fs)
  ip_defragger-whole (w ∷ ws) ds fs (whole, wholes) =
      rw whole
        (rw (ip_defragger-whole ws ds fs wholes) (send_by-bind w ws (ip_defragger decode ds fs)))

  -- One fragment that the security checks refuse ends the loop: what comes before it and is no
  -- fragment is sent, in its order, and nothing of what comes after it.
  pub ip_defragger-refused :
      (ws : List Datagram) (d : Datagram) (ds : List Datagram) (fs : List (IpFlow × Fragments))
      (e : DefragIpError)
      → AllWhole ws
      → dont_defrag d ≡ false
      → security_checks d ≡ some e
      → ip_defragger decode (ws ++ d ∷ ds) fs ≡ ok (udps ws, tcps ws)
  unfolding ip_defragger defrag_ip
  ip_defragger-refused ws d ds fs e wholes part bad =
      rw (ip_defragger-whole ws (d ∷ ds) fs wholes)
        (rw part (rw bad (rw (append-nil (udps ws)) (rw (append-nil (tcps ws)) refl))))

-- What `UdpProcessor` makes of packets on the UDP channel.
module _ (port_flow : ℕ → ℕ → Bytes) (port_filter : ℕ) where
  abbrev from_udp : Transport → Datagram → List (DnsPacket Bytes)
  from_udp (udp src dst bytes) d =
      record {
        payload = bytes;
        ip_layer = d.flow;
        transport_layer = port_flow src dst;
        timestamp = d.packet.timestamp;
        ip_defragmented = d.truncated;
        tcp_reassembled = false;
      }
      ∷ []
  from_udp (tcp src dst bytes) d = []
  from_udp other_transport d = []

  abbrev on_port : Transport → Bool
  on_port (udp src dst bytes) = port_filter == 0 || src == port_filter || dst == port_filter
  on_port (tcp src dst bytes) = false
  on_port other_transport = false

  -- The UDP packets of the list from or to the port.
  pub dns_packets : List Datagram → List (DnsPacket Bytes)
  dns_packets [] = []
  dns_packets (d ∷ ds) =
      let rest = dns_packets ds in
      if on_port d.transport then from_udp d.transport d ++ rest else rest

  as_udp-on_port :
      (t : Transport) (d : Datagram) (rest : List (DnsPacket Bytes))
      → is_udp t ≡ true
      → (as_udp port_flow port_filter t d >>= λ out. ok (out ++ rest))
        ≡ ok (if on_port t then from_udp t d ++ rest else rest)
  as_udp-on_port (udp src dst bytes) d rest e = ground arith
  as_udp-on_port (tcp src dst bytes) d rest e = grind arith
  as_udp-on_port other_transport d rest e = grind arith

  on_port-not_udp : (t : Transport) → is_udp t ≡ false → on_port t ≡ false
  on_port-not_udp (udp src dst bytes) e = grind arith
  on_port-not_udp (tcp src dst bytes) e = refl
  on_port-not_udp other_transport e = refl

  -- `UdpProcessor` on what the loop before it sent to the UDP channel: no panic, and exactly the
  -- packets from or to the port of the filter, all of them for port 0, in their order.
  pub udp_processor-udps :
      (ds : List Datagram) → udp_processor port_flow port_filter (udps ds) ≡ ok (dns_packets ds)
  unfolding udp_processor udps dns_packets
  udp_processor-udps [] = refl
  udp_processor-udps (d ∷ ds) = elim (Bool-cases (is_udp d.transport)) [
    | inl e ↦ rw e (rw (udp_processor-udps ds) (as_udp-on_port d.transport d (dns_packets ds) e))
    | inr e ↦ rw e (rw (udp_processor-udps ds) (rw (on_port-not_udp d.transport e) refl))
  ]
