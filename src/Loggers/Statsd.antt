-- ===== src/Loggers/Statsd.antt =====
-- loggers/statsd.go: `RecordDnsMessage` and what the timer sends. The library's top lists are a
-- parameter; dialling gives a connection or none, and a map is read in the order of its entries.
pub mod Exact
pub mod Added
pub mod Pushed
mod Examples
use go_dns_collector.Base.{
  ℕ, ◌+◌, String, List, [], ◌∷◌, ◌++◌, map, str_eq, if◌then◌else◌, length, Bytes, string_key,
  bytes_key, adjust, hit, hits_of,
}
use go_dns_collector.Message.{DnsMessage, dns_query}
use go_dns_collector.Loggers.RestApi.{nxdomain}

-- topmap: a new list for a size, `Record`, and `Get`.
pub record TopLists (Top : Type 0) : Type 0 where
  pub new_top_map : ℕ → Top
  pub put : String → ℕ → Top → Top
  pub get : Top → List (String × ℕ)

pub record StatsPerStream (Top : Type 0) : Type 0 where
  pub total_packets : ℕ
  pub total_sent_bytes : ℕ
  pub total_received_bytes : ℕ
  pub clients : List (String × ℕ)
  pub domains : List (Bytes × ℕ)
  pub nxdomains : List (Bytes × ℕ)
  pub rrtypes : List (String × ℕ)
  pub rcodes : List (String × ℕ)
  pub operations : List (String × ℕ)
  pub transports : List (String × ℕ)
  pub ip_proto : List (String × ℕ)
  pub top_rcodes : Top
  pub top_operations : Top
  pub top_ip_proto : Top
  pub top_transport : Top
  pub top_rrtypes : Top

-- A line that is sent: the stream, what is counted, and the value. All have the type of a counter.
pub data Counter : Type 0 where
  bytes_received bytes_sent requesters total_domains domains_nx packets : Counter
  packets_of rrtype_of rcode_of : String → Counter

pub record Line : Type 0 where
  pub stream : String
  pub counter : Counter
  pub value : ℕ

module _ {Top : Type 0} (top : TopLists Top) where
  abbrev pub new_stats : StatsPerStream Top
  new_stats = record {
    total_packets = 0;
    total_sent_bytes = 0;
    total_received_bytes = 0;
    clients = [];
    domains = [];
    nxdomains = [];
    rrtypes = [];
    rcodes = [];
    operations = [];
    transports = [];
    ip_proto = [];
    top_rcodes = top.new_top_map 50;
    top_operations = top.new_top_map 50;
    top_ip_proto = top.new_top_map 50;
    top_transport = top.new_top_map 50;
    top_rrtypes = top.new_top_map 50;
  }

  -- A hit of a name, and the top list with the new number of its hits.
  abbrev pub record_top : String → List (String × ℕ) → Top → Top
  record_top name hits t = top.put name (hits_of name (hit name hits)) t

  -- What `RecordDnsMessage` does to the stream of the message.
  unfoldable pub record_stats : DnsMessage → StatsPerStream Top → StatsPerStream Top
  unfolding hit hits_of
  record_stats dm s =
      let query = str_eq dm.dns.type dns_query in
      record {
        total_packets = s.total_packets + 1;
        total_received_bytes =
            if query then s.total_received_bytes + dm.dns.length else s.total_received_bytes;
        total_sent_bytes = if query then s.total_sent_bytes else s.total_sent_bytes + dm.dns.length;
        domains = hit dm.dns.qname s.domains;
        nxdomains =
            if str_eq dm.dns.rcode nxdomain then hit dm.dns.qname s.nxdomains else s.nxdomains;
        clients = hit dm.network_info.query_ip s.clients;
        ip_proto = hit dm.network_info.family s.ip_proto;
        top_ip_proto = record_top dm.network_info.family s.ip_proto s.top_ip_proto;
        transports = hit dm.network_info.protocol s.transports;
        top_transport = record_top dm.network_info.protocol s.transports s.top_transport;
        rrtypes = hit dm.dns.qtype s.rrtypes;
        top_rrtypes = record_top dm.dns.qtype s.rrtypes s.top_rrtypes;
        rcodes = hit dm.dns.rcode s.rcodes;
        top_rcodes = record_top dm.dns.rcode s.rcodes s.top_rcodes;
        operations = hit dm.dns_tap.operation s.operations;
        top_operations = record_top dm.dns_tap.operation s.operations s.top_operations;
      }

  unfoldable pub record_statsd :
      DnsMessage → List (String × StatsPerStream Top) → List (String × StatsPerStream Top)
  unfolding record_stats adjust
  record_statsd dm streams = adjust dm.dns_tap.identity new_stats (record_stats dm) streams

  abbrev pub top_lines : String → (String → Counter) → Top → List Line
  top_lines id counter t =
      map (λ (name, n). record { stream = id; counter = counter name; value = n }) (top.get t)

  abbrev pub line_of : String → Counter → ℕ → Line
  line_of id counter n = record { stream = id; counter = counter; value = n }

  -- What the timer sends of a stream.
  abbrev pub stream_lines : String → StatsPerStream Top → List Line
  stream_lines id s =
      line_of id bytes_received s.total_received_bytes
      ∷ line_of id bytes_sent s.total_sent_bytes
      ∷ line_of id requesters (length s.clients)
      ∷ line_of id total_domains (length s.domains)
      ∷ line_of id domains_nx (length s.nxdomains)
      ∷ line_of id packets s.total_packets
      ∷ (top_lines id packets_of s.top_transport
          ++ (top_lines id packets_of s.top_ip_proto
              ++ (top_lines id rrtype_of s.top_rrtypes ++ top_lines id rcode_of s.top_rcodes)))

  unfoldable pub push : List (String × StatsPerStream Top) → List Line
  push [] = []
  push ((id, s) ∷ streams) = stream_lines id s ++ push streams
