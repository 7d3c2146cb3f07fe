-- ===== src/Loggers/Statsd/Added.antt =====
-- What a statsd server adds up of the lines that loggers/statsd.go sends at one interval.
use go_dns_collector.Base.{
  ℕ, ◌+◌, String, ◌≡◌, refl, ◌∙◌, Bool, true, false, ◌&&◌, none, List, [], ◌∷◌, ◌++◌, map, arith,
  str_eq, if◌then◌else◌, length, string_key, bytes_key, find,
}
use go_dns_collector.Loggers.Statsd.{
  TopLists, StatsPerStream, Counter, bytes_received, bytes_sent, requesters, total_domains,
  domains_nx, packets, packets_of, rrtype_of, rcode_of, Line, stream_lines,
}

pub same_counter : Counter → Counter → Bool
same_counter bytes_received bytes_received = true
same_counter bytes_sent bytes_sent = true
same_counter requesters requesters = true
same_counter total_domains total_domains = true
same_counter domains_nx domains_nx = true
same_counter packets packets = true
same_counter (packets_of a) (packets_of b) = str_eq a b
same_counter (rrtype_of a) (rrtype_of b) = str_eq a b
same_counter (rcode_of a) (rcode_of b) = str_eq a b
same_counter _ _ = false

-- The lines of one counter of a stream.
abbrev pub of_counter : String → Counter → Line → Bool
of_counter id c l = str_eq l.stream id && same_counter l.counter c

-- What the values of some lines add up to, as a server does for the lines of one counter.
unfoldable pub added : (Line → Bool) → List Line → ℕ
added p [] = 0
added p (l ∷ ls) = (if p l then l.value else 0) + added p ls

pub added-append : (p : Line → Bool) (a b : List Line) → added p (a ++ b) ≡ added p a + added p b
unfolding added
added-append p [] b = omega arith
added-append p (l ∷ a) b = omega (arith, added-append p a b)

-- The hits of the names that pass a test.
pub sum_by : (String → Bool) → List (String × ℕ) → ℕ
sum_by q [] = 0
sum_by q ((name, n) ∷ l) = (if q name then n else 0) + sum_by q l

sum_none : (l : List (String × ℕ)) → sum_by (λ name. false) l ≡ 0
unfolding sum_by
sum_none [] = refl
sum_none ((name, n) ∷ l) = omega (arith, sum_none l)

-- No key is there twice, as in a map.
abbrev pub Distinct : {A : Type 0} → List (String × A) → Type 0
Distinct [] = Unit
Distinct ((k, a) ∷ m) = (find k m ≡ none) × Distinct m

module _ {Top : Type 0} (top : TopLists Top) where
  -- The value of a counter: packets are counted by transport and by family, too.
  pub value_of : Counter → StatsPerStream Top → ℕ
  value_of bytes_received s = s.total_received_bytes
  value_of bytes_sent s = s.total_sent_bytes
  value_of requesters s = length s.clients
  value_of total_domains s = length s.domains
  value_of domains_nx s = length s.nxdomains
  value_of packets s = s.total_packets
  value_of (packets_of name) s =
      sum_by (λ k. str_eq k name) (top.get s.top_transport)
      + sum_by (λ k. str_eq k name) (top.get s.top_ip_proto)
  value_of (rrtype_of name) s = sum_by (λ k. str_eq k name) (top.get s.top_rrtypes)
  value_of (rcode_of name) s = sum_by (λ k. str_eq k name) (top.get s.top_rcodes)

  abbrev hits_lines : String → (String → Counter) → List (String × ℕ) → List Line
  hits_lines id counter l =
      map (λ (name, n). record { stream = id; counter = counter name; value = n }) l

  module _ (id k : String) (c : Counter) where
    added-hits_lines :
        (counter : String → Counter) (l : List (String × ℕ))
        → added (of_counter id c) (hits_lines k counter l)
          ≡ (if str_eq k id then sum_by (λ name. same_counter (counter name) c) l else 0)
    unfolding added sum_by
    added-hits_lines counter [] = ground arith
    added-hits_lines counter ((name, n) ∷ l) = ground (arith, added-hits_lines counter l)

  -- What is added up of the lines of a stream, by the names of the counters.
  module _ (id k : String) (c : Counter) (s : StatsPerStream Top) where
    if_same : (counter : Counter) (n : ℕ) → ℕ
    if_same counter n = if str_eq k id && same_counter counter c then n else 0

    names_same : (String → Counter) → List (String × ℕ) → ℕ
    names_same counter l =
        if str_eq k id then sum_by (λ name. same_counter (counter name) c) l else 0

    added-stream_lines :
        added (of_counter id c) (stream_lines top k s)
        ≡ if_same bytes_received s.total_received_bytes
          + (if_same bytes_sent s.total_sent_bytes
              + (if_same requesters (length s.clients)
                  + (if_same total_domains (length s.domains)
                      + (if_same domains_nx (length s.nxdomains)
                          + (if_same packets s.total_packets
                              + (names_same packets_of (top.get s.top_transport)
                                  + (names_same packets_of (top.get s.top_ip_proto)
                                      + (names_same rrtype_of (top.get s.top_rrtypes)
                                          + names_same rcode_of (top.get s.top_rcodes)))))))))
    unfolding added if_same names_same
    added-stream_lines =
        let p = of_counter id c in
        let transport = hits_lines k packets_of (top.get s.top_transport) in
        let proto = hits_lines k packets_of (top.get s.top_ip_proto) in
        let rrtypes = hits_lines k rrtype_of (top.get s.top_rrtypes) in
        let rcodes = hits_lines k rcode_of (top.get s.top_rcodes) in
        rw (added-append p transport (proto ++ (rrtypes ++ rcodes))) (
          rw (added-append p proto (rrtypes ++ rcodes)) (
            rw (added-append p rrtypes rcodes) (
              rw (added-hits_lines id k c packets_of (top.get s.top_transport)) (
                rw (added-hits_lines id k c packets_of (top.get s.top_ip_proto)) (
                  rw (added-hits_lines id k c rrtype_of (top.get s.top_rrtypes))
                    (rw (added-hits_lines id k c rcode_of (top.get s.top_rcodes)) refl))))))

  -- Of the ten numbers, only those of the counter itself are left.
  only_one :
      (c : Counter) (s : StatsPerStream Top)
      → (if same_counter bytes_received c then s.total_received_bytes else 0)
          + ((if same_counter bytes_sent c then s.total_sent_bytes else 0)
              + ((if same_counter requesters c then length s.clients else 0)
                  + ((if same_counter total_domains c then length s.domains else 0)
                      + ((if same_counter domains_nx c then length s.nxdomains else 0)
                          + ((if same_counter packets c then s.total_packets else 0)
                              + (sum_by
                                    (λ name. same_counter (packets_of name) c)
                                    (top.get s.top_transport)
                                  + (sum_by
                                        (λ name. same_counter (packets_of name) c)
                                        (top.get s.top_ip_proto)
                                      + (sum_by
                                            (λ name. same_counter (rrtype_of name) c)
                                            (top.get s.top_rrtypes)
                                          + sum_by
                                              (λ name. same_counter (rcode_of name) c)
                                              (top.get s.top_rcodes)))))))))
        ≡ value_of c s
  unfolding same_counter value_of
  only_one bytes_received s = omega (
    arith,
    sum_none (top.get s.top_transport),
    sum_none (top.get s.top_ip_proto),
    sum_none (top.get s.top_rrtypes),
    sum_none (top.get s.top_rcodes),
  )
  only_one bytes_sent s = omega (
    arith,
    sum_none (top.get s.top_transport),
    sum_none (top.get s.top_ip_proto),
    sum_none (top.get s.top_rrtypes),
    sum_none (top.get s.top_rcodes),
  )
  only_one requesters s = omega (
    arith,
    sum_none (top.get s.top_transport),
    sum_none (top.get s.top_ip_proto),
    sum_none (top.get s.top_rrtypes),
    sum_none (top.get s.top_rcodes),
  )
  only_one total_domains s = omega (
    arith,
    sum_none (top.get s.top_transport),
    sum_none (top.get s.top_ip_proto),
    sum_none (top.get s.top_rrtypes),
    sum_none (top.get s.top_rcodes),
  )
  only_one domains_nx s = omega (
    arith,
    sum_none (top.get s.top_transport),
    sum_none (top.get s.top_ip_proto),
    sum_none (top.get s.top_rrtypes),
    sum_none (top.get s.top_rcodes),
  )
  only_one packets s = omega (
    arith,
    sum_none (top.get s.top_transport),
    sum_none (top.get s.top_ip_proto),
    sum_none (top.get s.top_rrtypes),
    sum_none (top.get s.top_rcodes),
  )
  only_one (packets_of name) s = omega (
    arith,
    sum_none (top.get s.top_transport),
    sum_none (top.get s.top_ip_proto),
    sum_none (top.get s.top_rrtypes),
    sum_none (top.get s.top_rcodes),
  )
  only_one (rrtype_of name) s = omega (
    arith,
    sum_none (top.get s.top_transport),
    sum_none (top.get s.top_ip_proto),
    sum_none (top.get s.top_rrtypes),
    sum_none (top.get s.top_rcodes),
  )
  only_one (rcode_of name) s = omega (
    arith,
    sum_none (top.get s.top_transport),
    sum_none (top.get s.top_ip_proto),
    sum_none (top.get s.top_rrtypes),
    sum_none (top.get s.top_rcodes),
  )

  pub added-other :
      (id k : String) (c : Counter) (s : StatsPerStream Top)
      → str_eq k id ≡ false
      → added (of_counter id c) (stream_lines top k s) ≡ 0
  unfolding if_same names_same
  added-other id k c s e = added-stream_lines id k c s ∙ rw e refl

  pub added-same :
      (id k : String) (c : Counter) (s : StatsPerStream Top)
      → str_eq k id ≡ true
      → added (of_counter id c) (stream_lines top k s) ≡ value_of c s
  unfolding if_same names_same value_of same_counter
  added-same id k c s e = added-stream_lines id k c s ∙ rw e (only_one c s)
