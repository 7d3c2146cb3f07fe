-- ===== src/Loggers/Prometheus.antt =====
-- The counters of loggers/prometheus.go and `Record`. A metric of the Prometheus library with labels is a
-- map from its label values; a histogram holds the observations, which the library counts in buckets. A
-- latency is in nanoseconds, as the message has it.
pub mod Metrics
pub mod Exact
pub mod Eps
pub mod Shown
use go_dns_collector.Base.{
  ℕ, ◌+◌, ◌-◌, ◌%◌, ◌^◌, String, ◌≡◌, ◌↔◌, Bool, true, false, ◌&&◌, Option, none, some, List, [],
  ◌∷◌, map, arith, str_eq, ltb, if◌then◌else◌, ℤ, pos, negsuc, length, Bytes, codes, bytes_eq,
  bytes_eq_iff, decimal, Key, string_key, bytes_key, adjust, hit, hits_of,
}
use go_dns_collector.Message.{DnsMessage, Suspicious, PublicSuffix}
use go_dns_collector.Loggers.Top.{TopMap}
use go_dns_collector.Loggers.RestApi.{nxdomain, servfail}
use go_dns_collector.Loggers.Family.{Family, names_of, no_names, hit_name, put_top, count_name}

pub record EpsCounters : Type 0 where
  pub eps : ℕ
  pub eps_max : ℕ
  pub total_events : ℕ
  pub total_events_prev : ℕ

pub record Prometheus (Top : Type 0) : Type 0 where
  pub requesters : Family Top
  pub domains : Family Top
  pub nxdomains : Family Top
  pub sfdomains : Family Top
  pub tlds : Family Top
  pub suspicious : Family Top
  pub evicted : Family Top
  pub streams_map : List (String × EpsCounters)
  pub gauge_eps : List (String × ℕ)
  pub gauge_eps_max : List (String × ℕ)
  pub counter_packets : List (List Bytes × ℕ)
  pub total_received_bytes : List (String × ℕ)
  pub total_sent_bytes : List (String × ℕ)
  pub histogram_queries_length : List (String × List ℕ)
  pub histogram_replies_length : List (String × List ℕ)
  pub histogram_qnames_length : List (String × List ℕ)
  pub histogram_latencies : List (String × List ℤ)

unfoldable pub labels_eq : List Bytes → List Bytes → Bool
labels_eq [] [] = true
labels_eq (x ∷ xs) (y ∷ ys) = bytes_eq x y && labels_eq xs ys
labels_eq _ _ = false

pub labels_eq_iff : (a b : List Bytes) → (labels_eq a b ≡ true) ↔ (a ≡ b)
unfolding labels_eq
labels_eq_iff (x ∷ a) (y ∷ b) = ground (arith, bytes_eq_iff x y, labels_eq_iff a b)
labels_eq_iff _ _ = ground arith

instance abbrev pub labels_key : Key (List Bytes)
labels_key = record { same = labels_eq; same_iff = labels_eq_iff }

abbrev pub timeout : String
timeout = "TIMEOUT"

-- strconv.FormatBool
abbrev pub format_bool : Bool → Bytes
format_bool true = codes "true"
format_bool false = codes "false"

-- The label values of the counter of packets.
abbrev pub packet_labels : DnsMessage → List Bytes
packet_labels dm =
    codes dm.dns_tap.identity
    ∷ codes dm.network_info.family
    ∷ codes dm.network_info.protocol
    ∷ codes dm.dns_tap.operation
    ∷ decimal dm.dns.opcode
    ∷ codes dm.dns.rcode
    ∷ codes dm.dns.qtype
    ∷ codes dm.dns.type
    ∷ format_bool dm.dns.flags.tc
    ∷ format_bool dm.dns.flags.aa
    ∷ format_bool dm.dns.flags.ra
    ∷ format_bool dm.dns.flags.ad
    ∷ format_bool dm.dns.malformed_packet
    ∷ format_bool dm.network_info.ip_defragmented
    ∷ format_bool dm.network_info.tcp_reassembled
    ∷ []

abbrev is_positive : ℤ → Bool
is_positive (pos n) = ltb 0 n
is_positive (negsuc n) = false

abbrev new_counters : EpsCounters
new_counters = record { eps = 0; eps_max = 0; total_events = 0; total_events_prev = 0 }

-- One more event, in 64 bits.
unfoldable pub count_event : EpsCounters → EpsCounters
count_event c = record c { total_events = (c.total_events + 1) % 2 ^ 64 }

-- Observe and Add, for a stream.
abbrev pub observe : {A : Type 0} → String → A → List (String × List A) → List (String × List A)
observe id x m = adjust id [] (λ l. x ∷ l) m

abbrev pub add_to : String → ℕ → List (String × ℕ) → List (String × ℕ)
add_to id n m = adjust id 0 (λ total. total + n) m

abbrev pub positive_score : Option Suspicious → Bool
positive_score none = false
positive_score (some s) = ltb 0 s.score

module _ {Top : Type 0} (top : TopMap Top) (top_n : ℕ) where
  -- NewPrometheus
  unfoldable pub new_prometheus : Prometheus Top
  new_prometheus = record {
    requesters = no_names top top_n;
    domains = no_names top top_n;
    nxdomains = no_names top top_n;
    sfdomains = no_names top top_n;
    tlds = no_names top top_n;
    suspicious = no_names top top_n;
    evicted = no_names top top_n;
    streams_map = [];
    gauge_eps = [];
    gauge_eps_max = [];
    counter_packets = [];
    total_received_bytes = [];
    total_sent_bytes = [];
    histogram_queries_length = [];
    histogram_replies_length = [];
    histogram_qnames_length = [];
    histogram_latencies = [];
  }

  -- The switch over the return code.
  unfoldable pub count_domain : DnsMessage → Prometheus Top → Prometheus Top
  unfolding count_name
  count_domain dm s =
      let id = dm.dns_tap.identity in
      let name = dm.dns.qname in
      if str_eq dm.dns.rcode timeout
      then record s { evicted = count_name top top_n id name s.evicted }
      else if str_eq dm.dns.rcode servfail
      then record s { sfdomains = count_name top top_n id name s.sfdomains }
      else if str_eq dm.dns.rcode nxdomain
      then record s { nxdomains = count_name top top_n id name s.nxdomains }
      else record s { domains = count_name top top_n id name s.domains }

  abbrev pub count_suffix : String → Option PublicSuffix → Family Top → Family Top
  count_suffix id none f = f
  count_suffix id (some suffix) f =
      if bytes_eq suffix.qname_public_suffix (codes "-")
      then f
      else count_name top top_n id suffix.qname_public_suffix f

  -- The hits that the top list of suspicious names records are those of `domains`.
  unfoldable pub count_suspicious : DnsMessage → Prometheus Top → Prometheus Top
  unfolding hit_name put_top
  count_suspicious dm s =
      let id = dm.dns_tap.identity in
      let name = dm.dns.qname in
      if positive_score dm.suspicious
      then record s {
        suspicious =
            put_top top top_n id name (hits_of name (names_of id s.domains))
              (hit_name id name s.suspicious);
      }
      else s

  -- The stream, the packet, the lengths and the latency.
  unfoldable pub count_packet : DnsMessage → Prometheus Top → Prometheus Top
  unfolding count_event
  count_packet dm s =
      let id = dm.dns_tap.identity in
      let size = dm.dns.length in
      let query = str_eq dm.dns.type "QUERY" in
      record s {
        streams_map = adjust id new_counters count_event s.streams_map;
        counter_packets = hit (packet_labels dm) s.counter_packets;
        total_received_bytes =
            if query then add_to id size s.total_received_bytes else s.total_received_bytes;
        histogram_queries_length =
            if query
            then observe id size s.histogram_queries_length
            else s.histogram_queries_length;
        total_sent_bytes = if query then s.total_sent_bytes else add_to id size s.total_sent_bytes;
        histogram_replies_length =
            if query
            then s.histogram_replies_length
            else observe id size s.histogram_replies_length;
        histogram_qnames_length = observe id (length dm.dns.qname) s.histogram_qnames_length;
        histogram_latencies =
            if is_positive dm.dns_tap.latency
            then observe id dm.dns_tap.latency s.histogram_latencies
            else s.histogram_latencies;
      }

  -- Record
  unfoldable pub record_message : DnsMessage → Prometheus Top → Prometheus Top
  unfolding count_packet count_domain count_suspicious count_name
  record_message dm s =
      let id = dm.dns_tap.identity in
      let counted = count_domain dm (count_packet dm s) in
      let suffixed = record counted { tlds = count_suffix id dm.public_suffix counted.tlds } in
      let marked = count_suspicious dm suffixed in
      record marked {
        requesters = count_name top top_n id (codes dm.network_info.query_ip) marked.requesters;
      }

-- One stream of ComputeEps; the counters are unsigned, so the difference wraps.
unfoldable pub compute : EpsCounters → EpsCounters
compute c =
    let eps' =
      if ltb 0 c.total_events && ltb 0 c.total_events_prev
      then (c.total_events + (2 ^ 64 - c.total_events_prev)) % 2 ^ 64
      else c.eps in
    record {
      eps = eps';
      eps_max = if ltb c.eps_max eps' then eps' else c.eps_max;
      total_events = c.total_events;
      total_events_prev = c.total_events;
    }

-- ComputeEps
unfoldable pub compute_eps : {Top : Type 0} → Prometheus Top → Prometheus Top
unfolding compute
compute_eps s =
    let streams = map (λ (id, c). (id, compute c)) s.streams_map in
    record s {
      streams_map = streams;
      gauge_eps = map (λ (id, c). (id, c.eps)) streams;
      gauge_eps_max = map (λ (id, c). (id, c.eps_max)) streams;
    }
