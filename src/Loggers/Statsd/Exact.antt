-- ===== src/Loggers/Statsd/Exact.antt =====
-- What the counters of loggers/statsd.go say of the messages recorded.
use go_dns_collector.Base.{
  ℕ, ◌+◌, String, ◌≡◌, refl, sym, ap, ◌∙◌, subst, inl, inr, Bool, ◌&&◌, List, [], ◌∷◌, arith,
  str_eq, eq_iff, if◌then◌else◌, Bool-cases, Bytes, string_key, bytes_key, value_or, find,
  find-adjust, hits_of, hits_of-hit,
}
use go_dns_collector.Message.{DnsMessage, dns_query}
use go_dns_collector.Loggers.RestApi.{nxdomain}
use go_dns_collector.Loggers.RestApi.Counts.{from_stream, from_client, of_name, has_rcode}
use go_dns_collector.Loggers.Statsd.{
  TopLists, StatsPerStream, new_stats, record_stats, record_statsd,
}

-- The messages of a stream.
pub only : String → List DnsMessage → List DnsMessage
only id [] = []
only id (dm ∷ dms) = let rest = only id dms in if from_stream id dm then dm ∷ rest else rest

-- The sum of a number for each message.
pub total : (DnsMessage → ℕ) → List DnsMessage → ℕ
total w [] = 0
total w (dm ∷ dms) = w dm + total w dms

abbrev pub one_if : Bool → ℕ
one_if b = if b then 1 else 0

abbrev pub is_query : DnsMessage → Bool
is_query dm = str_eq dm.dns.type dns_query

module _ {Top : Type 0} (top : TopLists Top) where
  pub record_stream : List DnsMessage → StatsPerStream Top → StatsPerStream Top
  record_stream [] s = s
  record_stream (dm ∷ dms) s = record_stream dms (record_stats top dm s)

  unfoldable pub record_streams :
      List DnsMessage → List (String × StatsPerStream Top) → List (String × StatsPerStream Top)
  record_streams [] streams = streams
  record_streams (dm ∷ dms) streams = record_streams dms (record_statsd top dm streams)

  abbrev pub stats_of : String → List (String × StatsPerStream Top) → StatsPerStream Top
  stats_of id streams = value_or (new_stats top) (find id streams)

  record_statsd-stats_of :
      (id : String) (dm : DnsMessage) (streams : List (String × StatsPerStream Top))
      → stats_of id (record_statsd top dm streams) ≡ (
          if from_stream id dm
          then record_stats top dm (stats_of id streams)
          else stats_of id streams)
  unfolding record_statsd
  record_statsd-stats_of id dm streams =
      rw (find-adjust id dm.dns_tap.identity (new_stats top) (record_stats top dm) streams)
        (elim (Bool-cases (str_eq dm.dns_tap.identity id)) [
          | inl e ↦
              let same : dm.dns_tap.identity ≡ id = (eq_iff dm.dns_tap.identity id).0 e in
              rw e (ap (λ k. record_stats top dm (value_or (new_stats top) (find k streams))) same)
          | inr e ↦ rw e refl
        ])

  -- The statistics of a stream are those of its own messages, in their order.
  pub record_streams-only :
      (id : String) (dms : List DnsMessage) (streams : List (String × StatsPerStream Top))
      → stats_of id (record_streams dms streams) ≡ record_stream (only id dms) (stats_of id streams)
  unfolding record_streams record_stream only
  record_streams-only id [] streams = refl
  record_streams-only id (dm ∷ dms) streams =
      record_streams-only id dms (record_statsd top dm streams)
      ∙ rw (record_statsd-stats_of id dm streams)
          (elim (Bool-cases (from_stream id dm)) [ inl e ↦ rw e refl | inr e ↦ rw e refl ])

-- The counters of a stream are those that counting its messages gives.
pub record StreamCounts {Top : Type 0} (dms : List DnsMessage) (s : StatsPerStream Top)
    : Type 0 where
  pub packets : s.total_packets ≡ total (λ dm. 1) dms
  pub received : s.total_received_bytes ≡ total (λ dm. if is_query dm then dm.dns.length else 0) dms
  pub sent : s.total_sent_bytes ≡ total (λ dm. if is_query dm then 0 else dm.dns.length) dms
  pub clients : (k : String) → hits_of k s.clients ≡ total (λ dm. one_if (from_client k dm)) dms
  pub domains : (k : Bytes) → hits_of k s.domains ≡ total (λ dm. one_if (of_name k dm)) dms
  pub nxdomains :
      (k : Bytes)
      → hits_of k s.nxdomains ≡ total (λ dm. one_if (has_rcode nxdomain dm && of_name k dm)) dms
  pub rrtypes :
      (k : String) → hits_of k s.rrtypes ≡ total (λ dm. one_if (str_eq dm.dns.qtype k)) dms
  pub rcodes : (k : String) → hits_of k s.rcodes ≡ total (λ dm. one_if (has_rcode k dm)) dms
  pub operations :
      (k : String)
      → hits_of k s.operations ≡ total (λ dm. one_if (str_eq dm.dns_tap.operation k)) dms
  pub transports :
      (k : String)
      → hits_of k s.transports ≡ total (λ dm. one_if (str_eq dm.network_info.protocol k)) dms
  pub ip_proto :
      (k : String)
      → hits_of k s.ip_proto ≡ total (λ dm. one_if (str_eq dm.network_info.family k)) dms

module _ {Top : Type 0} (top : TopLists Top) where
  record_stream-total :
      (v : StatsPerStream Top → ℕ) (w : DnsMessage → ℕ)
      → ((dm : DnsMessage) (s : StatsPerStream Top) → v (record_stats top dm s) ≡ w dm + v s)
      → (dms : List DnsMessage) (s : StatsPerStream Top)
      → v (record_stream top dms s) ≡ total w dms + v s
  unfolding record_stream total
  record_stream-total v w step [] s = omega arith
  record_stream-total v w step (dm ∷ dms) s =
      let rest = record_stream-total v w step dms (record_stats top dm s) in
      let one = step dm s in omega (arith, rest, one)

  from_new :
      (v : StatsPerStream Top → ℕ) (w : DnsMessage → ℕ)
      → ((dm : DnsMessage) (s : StatsPerStream Top) → v (record_stats top dm s) ≡ w dm + v s)
      → v (new_stats top) ≡ 0
      → (dms : List DnsMessage) → v (record_stream top dms (new_stats top)) ≡ total w dms
  from_new v w step start dms =
      let sum = record_stream-total v w step dms (new_stats top) in omega (arith, sum, start)

  record_stream-StreamCounts :
      (dms : List DnsMessage) → StreamCounts dms (record_stream top dms (new_stats top))
  unfolding record_stats hits_of find
  record_stream-StreamCounts dms = record {
    packets = from_new (λ s. s.total_packets) (λ dm. 1) (λ dm s. omega arith) refl dms;
    received =
        from_new (λ s. s.total_received_bytes) (λ dm. if is_query dm then dm.dns.length else 0)
          (λ dm s. ground arith) refl dms;
    sent =
        from_new (λ s. s.total_sent_bytes) (λ dm. if is_query dm then 0 else dm.dns.length)
          (λ dm s. ground arith) refl dms;
    clients = λ k.
        from_new (λ s. hits_of k s.clients) (λ dm. one_if (from_client k dm))
          (λ dm s. hits_of-hit k dm.network_info.query_ip s.clients) refl dms;
    domains = λ k.
        from_new (λ s. hits_of k s.domains) (λ dm. one_if (of_name k dm))
          (λ dm s. hits_of-hit k dm.dns.qname s.domains) refl dms;
    nxdomains = λ k.
        from_new (λ s. hits_of k s.nxdomains) (λ dm. one_if (has_rcode nxdomain dm && of_name k dm))
          (λ dm s. ground (arith, hits_of-hit k dm.dns.qname s.nxdomains)) refl dms;
    rrtypes = λ k.
        from_new (λ s. hits_of k s.rrtypes) (λ dm. one_if (str_eq dm.dns.qtype k))
          (λ dm s. hits_of-hit k dm.dns.qtype s.rrtypes) refl dms;
    rcodes = λ k.
        from_new (λ s. hits_of k s.rcodes) (λ dm. one_if (has_rcode k dm))
          (λ dm s. hits_of-hit k dm.dns.rcode s.rcodes) refl dms;
    operations = λ k.
        from_new (λ s. hits_of k s.operations) (λ dm. one_if (str_eq dm.dns_tap.operation k))
          (λ dm s. hits_of-hit k dm.dns_tap.operation s.operations) refl dms;
    transports = λ k.
        from_new (λ s. hits_of k s.transports) (λ dm. one_if (str_eq dm.network_info.protocol k))
          (λ dm s. hits_of-hit k dm.network_info.protocol s.transports) refl dms;
    ip_proto = λ k.
        from_new (λ s. hits_of k s.ip_proto) (λ dm. one_if (str_eq dm.network_info.family k))
          (λ dm s. hits_of-hit k dm.network_info.family s.ip_proto) refl dms;
  }

  -- After any messages, all counters of a stream are those that counting the messages of this stream
  -- gives: packets, bytes received by queries and sent by replies, and hits by client, domain,
  -- NXDOMAIN domain, type, code, operation, transport and family.
  pub record_streams-StreamCounts :
      (id : String) (dms : List DnsMessage)
      → StreamCounts (only id dms) (stats_of top id (record_streams top dms []))
  unfolding find
  record_streams-StreamCounts id dms =
      subst (StreamCounts (only id dms)) (sym (record_streams-only top id dms []))
        (record_stream-StreamCounts (only id dms))
