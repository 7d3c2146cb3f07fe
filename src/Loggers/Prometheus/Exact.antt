-- ===== src/Loggers/Prometheus/Exact.antt =====
-- The counters of names of loggers/prometheus.go against its tables of hits.
use go_dns_collector.Base.{
  ℕ, String, refl, inl, inr, Option, none, some, List, str_eq, Bool-cases, codes, bytes_eq, Ensures,
  string_key, bytes_key, find, hits_of,
}
use go_dns_collector.Message.{DnsMessage, PublicSuffix}
use go_dns_collector.Loggers.Top.{TopMap}
use go_dns_collector.Loggers.RestApi.{nxdomain, servfail}
use go_dns_collector.Transform.Filtering.{Matchers}
use go_dns_collector.Transform.Chain.{Lookups, Transforms}
use go_dns_collector.Transform.Process.Ready.{Prepared}
use go_dns_collector.Loggers.Worker.{Event, run_events}
use go_dns_collector.Loggers.Worker.Loops.{AllSuited, KeptBy, run_events-Kept}
use go_dns_collector.Loggers.Family.{Family, no_names, count_name}
use go_dns_collector.Loggers.Prometheus.{
  Prometheus, timeout, positive_score, new_prometheus, count_domain, count_suffix, count_suspicious,
  count_packet, record_message, compute_eps,
}
use go_dns_collector.Loggers.Family.Exact.{IsExact, count-IsExact, count_name-IsExact}

pub record AllExact {Top : Type 0} (top : TopMap Top) (top_n : ℕ) (s : Prometheus Top)
    : Type 0 where
  pub requesters : IsExact top top_n s.requesters
  pub domains : IsExact top top_n s.domains
  pub nxdomains : IsExact top top_n s.nxdomains
  pub sfdomains : IsExact top top_n s.sfdomains
  pub tlds : IsExact top top_n s.tlds
  pub suspicious : IsExact top top_n s.suspicious
  pub evicted : IsExact top top_n s.evicted

module _ {Top : Type 0} (top : TopMap Top) (top_n : ℕ) where
  count_suffix-IsExact :
      (id : String) (o : Option PublicSuffix) (f : Family Top)
      → IsExact top top_n f
      → IsExact top top_n (count_suffix top top_n id o f)
  count_suffix-IsExact id none f h = h
  count_suffix-IsExact id (some suffix) f h =
      elim (Bool-cases (bytes_eq suffix.qname_public_suffix (codes "-"))) [
        | inl e ↦ rw e h
        | inr e ↦ rw e (count_name-IsExact top top_n id suffix.qname_public_suffix f h)
      ]

  new_prometheus-AllExact : AllExact top top_n (new_prometheus top top_n)
  unfolding new_prometheus hits_of find
  new_prometheus-AllExact =
      let start : IsExact top top_n (no_names top top_n) = record {
        uniq = refl;
        stream = λ id. refl;
        gauge = refl;
      } in
      record {
        requesters = start;
        domains = start;
        nxdomains = start;
        sfdomains = start;
        tlds = start;
        suspicious = start;
        evicted = start;
      }

  module _ (dm : DnsMessage) (s : Prometheus Top) (h : AllExact top top_n s) where
    count_packet-AllExact : AllExact top top_n (count_packet top top_n dm s)
    unfolding count_packet
    count_packet-AllExact = record {
      requesters = h.requesters;
      domains = h.domains;
      nxdomains = h.nxdomains;
      sfdomains = h.sfdomains;
      tlds = h.tlds;
      suspicious = h.suspicious;
      evicted = h.evicted;
    }

    count_domain-AllExact : AllExact top top_n (count_domain top top_n dm s)
    unfolding count_domain
    count_domain-AllExact = elim (Bool-cases (str_eq dm.dns.rcode timeout)) [
      | inl e ↦ rw e (record {
        requesters = h.requesters;
        domains = h.domains;
        nxdomains = h.nxdomains;
        sfdomains = h.sfdomains;
        tlds = h.tlds;
        suspicious = h.suspicious;
        evicted = count_name-IsExact top top_n dm.dns_tap.identity dm.dns.qname s.evicted h.evicted;
      })
      | inr e ↦ rw e (elim (Bool-cases (str_eq dm.dns.rcode servfail)) [
        | inl e ↦ rw e (record {
          requesters = h.requesters;
          domains = h.domains;
          nxdomains = h.nxdomains;
          sfdomains =
              count_name-IsExact top top_n dm.dns_tap.identity dm.dns.qname s.sfdomains h.sfdomains;
          tlds = h.tlds;
          suspicious = h.suspicious;
          evicted = h.evicted;
        })
        | inr e ↦ rw e (elim (Bool-cases (str_eq dm.dns.rcode nxdomain)) [
          | inl e ↦ rw e (record {
            requesters = h.requesters;
            domains = h.domains;
            nxdomains =
                count_name-IsExact top top_n dm.dns_tap.identity dm.dns.qname s.nxdomains
                  h.nxdomains;
            sfdomains = h.sfdomains;
            tlds = h.tlds;
            suspicious = h.suspicious;
            evicted = h.evicted;
          })
          | inr e ↦ rw e (record {
            requesters = h.requesters;
            domains =
                count_name-IsExact top top_n dm.dns_tap.identity dm.dns.qname s.domains h.domains;
            nxdomains = h.nxdomains;
            sfdomains = h.sfdomains;
            tlds = h.tlds;
            suspicious = h.suspicious;
            evicted = h.evicted;
          })
        ])
      ])
    ]

    count_suspicious-AllExact : AllExact top top_n (count_suspicious top top_n dm s)
    unfolding count_suspicious
    count_suspicious-AllExact = elim (Bool-cases (positive_score dm.suspicious)) [
      | inl e ↦ rw e (record {
        requesters = h.requesters;
        domains = h.domains;
        nxdomains = h.nxdomains;
        sfdomains = h.sfdomains;
        tlds = h.tlds;
        suspicious =
            count-IsExact top top_n dm.dns_tap.identity dm.dns.qname _ s.suspicious h.suspicious;
        evicted = h.evicted;
      })
      | inr e ↦ rw e h
    ]

    with_suffix-AllExact :
        AllExact top top_n
          (record s { tlds = count_suffix top top_n dm.dns_tap.identity dm.public_suffix s.tlds })
    with_suffix-AllExact = record {
      requesters = h.requesters;
      domains = h.domains;
      nxdomains = h.nxdomains;
      sfdomains = h.sfdomains;
      tlds = count_suffix-IsExact dm.dns_tap.identity dm.public_suffix s.tlds h.tlds;
      suspicious = h.suspicious;
      evicted = h.evicted;
    }

    with_requester-AllExact : AllExact top top_n (record s {
      requesters =
          count_name top top_n dm.dns_tap.identity (codes dm.network_info.query_ip) s.requesters;
    })
    with_requester-AllExact = record {
      requesters =
          count_name-IsExact top top_n dm.dns_tap.identity (codes dm.network_info.query_ip)
            s.requesters h.requesters;
      domains = h.domains;
      nxdomains = h.nxdomains;
      sfdomains = h.sfdomains;
      tlds = h.tlds;
      suspicious = h.suspicious;
      evicted = h.evicted;
    }

  pub record_message-AllExact :
      (dm : DnsMessage) (s : Prometheus Top)
      → AllExact top top_n s
      → AllExact top top_n (record_message top top_n dm s)
  unfolding record_message
  record_message-AllExact dm s h = with_requester-AllExact dm _ (
      count_suspicious-AllExact dm _
        (with_suffix-AllExact dm _ (count_domain-AllExact dm _ (count_packet-AllExact dm s h))))

  pub compute_eps-AllExact :
      (s : Prometheus Top) → AllExact top top_n s → AllExact top top_n (compute_eps s)
  unfolding compute_eps
  compute_eps-AllExact s h = record {
    requesters = h.requesters;
    domains = h.domains;
    nxdomains = h.nxdomains;
    sfdomains = h.sfdomains;
    tlds = h.tlds;
    suspicious = h.suspicious;
    evicted = h.evicted;
  }

  -- Whatever the loop of the logger has read, if each message has the parts that the outgoing transforms
  -- read: it did not panic, each counter of distinct names is the number of names in its table,
  -- overall and for every stream, and each gauge shows the top lists.
  pub run_events-AllExact :
      (lookups : Lookups) (matchers : Matchers) (es : List Event) (p : Transforms)
      → Prepared p
      → AllSuited p.active_transforms es
      → Ensures
          (KeptBy (AllExact top top_n))
          (λ e. ⊥)
          (run_events lookups matchers
            (record_message top top_n)
            compute_eps
            es
            p
            (new_prometheus top top_n))
  run_events-AllExact lookups matchers es p prepared suited =
      run_events-Kept lookups matchers (record_message top top_n) compute_eps (AllExact top top_n)
        es p (new_prometheus top top_n) record_message-AllExact compute_eps-AllExact prepared suited
        new_prometheus-AllExact
