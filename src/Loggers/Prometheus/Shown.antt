-- ===== src/Loggers/Prometheus/Shown.antt =====
-- What the top list of suspicious names of loggers/prometheus.go records.
use go_dns_collector.Base.{
  ℕ, ◌+◌, String, ◌≡◌, refl, ap, ◌∙◌, true, [], eq_iff, Bytes, bytes_eq_iff, string_key, bytes_key,
  adjust, find-adjust, hit, hits_of, hits_of-hit,
}
use go_dns_collector.Message.{DnsMessage}
use go_dns_collector.Loggers.Top.{TopMap}
use go_dns_collector.Loggers.RestApi.{nxdomain}
use go_dns_collector.Loggers.Family.{Family, names_of, hit_name, put_top}
use go_dns_collector.Loggers.Prometheus.{
  Prometheus, positive_score, count_domain, count_suspicious, count_packet, record_message,
}

hits_of-hit_name :
    {Top : Type 0} (id : String) (k : Bytes) (f : Family Top)
    → hits_of k (names_of id (hit_name id k f)) ≡ 1 + hits_of k (names_of id f)
unfolding hit_name
hits_of-hit_name id k f = rw (find-adjust id id [] (hit k) f.by_stream) (
    rw ((eq_iff id id).1 refl)
      (hits_of-hit k k (names_of id f) ∙ rw ((bytes_eq_iff k k).1 refl) refl))

-- A suspicious name of an NXDOMAIN message, where no other answer has had the name in its stream: its hits
-- go up by one, and yet the top list of suspicious names records it with no hits, as the list is
-- given the hits of the table of resolved names.
pub record_message-unseen :
    {Top : Type 0} (top : TopMap Top) (top_n : ℕ) (dm : DnsMessage) (s : Prometheus Top)
    → positive_score dm.suspicious ≡ true
    → dm.dns.rcode ≡ nxdomain
    → hits_of dm.dns.qname (names_of dm.dns_tap.identity s.domains) ≡ 0
    → let t = (record_message top top_n dm s).suspicious in
      (hits_of dm.dns.qname (names_of dm.dns_tap.identity t)
        ≡ 1 + hits_of dm.dns.qname (names_of dm.dns_tap.identity s.suspicious))
      × (t.top
          ≡ adjust dm.dns_tap.identity
              (top.new_top_map top_n)
              (top.put dm.dns.qname 0)
              s.suspicious.top)
unfolding record_message count_suspicious count_domain count_packet put_top
record_message-unseen top top_n dm s score rcode unseen = rw score (
    rw rcode (
      hits_of-hit_name dm.dns_tap.identity dm.dns.qname s.suspicious,
      ap
          (λ n.
            adjust dm.dns_tap.identity (top.new_top_map top_n) (top.put dm.dns.qname n)
              s.suspicious.top)
          unseen,
    ))
