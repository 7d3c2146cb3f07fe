-- ===== src/Loggers/RestApi/Tables.antt =====
-- What the stream tables of loggers/restapi.go say of the messages recorded.
use go_dns_collector.Base.{
  ℕ, ◌+◌, String, ◌≡◌, refl, ap, ◌∙◌, Bool, not, ◌&&◌, ◌||◌, Option, none, List, [], ◌∷◌, arith,
  ◌==◌, if◌then◌else◌, Bytes, string_key, bytes_key, is_some, find,
}
use go_dns_collector.Message.{DnsMessage}
use go_dns_collector.Loggers.Top.{TopMap}
use go_dns_collector.Loggers.RestApi.{RestApi, new_rest_api, record_dns_message, record_all}
use go_dns_collector.Loggers.RestApi.Counts.{
  Counts, record_all-Counts, count, from_stream, from_client, of_name,
}
use go_dns_collector.Loggers.RestApi.Step.{
  seen, counted, counted-seen, or_false, clients_of, domains_of, total_of, hits_in, client-step,
  domain-step, name_of_client-step, client_of_name-step, stream-step,
}

abbrev pub of_client : String → String → DnsMessage → Bool
of_client id ip dm = from_stream id dm && from_client ip dm

abbrev pub of_pair : String → String → Bytes → DnsMessage → Bool
of_pair id ip name dm = from_stream id dm && (from_client ip dm && of_name name dm)

abbrev pub of_domain : String → Bytes → DnsMessage → Bool
of_domain id name dm = from_stream id dm && of_name name dm

module _ {Top : Type 0} (top : TopMap Top) where
  record_all-counted :
      (dms : List DnsMessage) (v : RestApi Top → Option ℕ) (p : DnsMessage → Bool)
      → ((dm : DnsMessage) (s : RestApi Top)
          → v (record_dns_message top dm s) ≡ counted (p dm) (v s))
      → (s : RestApi Top) (n : ℕ) → v s ≡ seen n
      → v (record_all top dms s) ≡ seen (count p dms + n)
  unfolding count record_all
  record_all-counted [] v p step s n start = start ∙ ap seen (omega arith)
  record_all-counted (dm ∷ dms) v p step s n start =
      record_all-counted dms v p step (record_dns_message top dm s) ((if p dm then 1 else 0) + n)
        (step dm s ∙ ap (counted (p dm)) start ∙ counted-seen (p dm) n)
      ∙ ap seen (omega arith)

  record_all-known :
      (dms : List DnsMessage) (v : RestApi Top → Bool) (p : DnsMessage → Bool)
      → ((dm : DnsMessage) (s : RestApi Top) → v (record_dns_message top dm s) ≡ (p dm || v s))
      → (s : RestApi Top) → v (record_all top dms s) ≡ (not (count p dms == 0) || v s)
  unfolding count record_all
  record_all-known [] v p step s = refl
  record_all-known (dm ∷ dms) v p step s =
      ground (arith, record_all-known dms v p step (record_dns_message top dm s), step dm s)

  -- For a stream, a client and a name, the two tables of what has been recorded hold the number of
  -- messages of the client, of the name, and of both, and no entry where that number is zero.
  pub record Tables (dms : List DnsMessage) (s : RestApi Top) : Type 0 where
    pub counts : Counts dms s
    pub stream :
        (id : String) → is_some (find id s.hits_stream) ≡ not (count (from_stream id) dms == 0)
    pub client :
        (id ip : String)
        → total_of (find ip (clients_of (find id s.hits_stream)))
          ≡ seen (count (of_client id ip) dms)
    pub domain :
        (id : String) (name : Bytes)
        → total_of (find name (domains_of (find id s.hits_stream)))
          ≡ seen (count (of_domain id name) dms)
    pub name_of_client :
        (id ip : String) (name : Bytes)
        → find name (hits_in (find ip (clients_of (find id s.hits_stream))))
          ≡ seen (count (of_pair id ip name) dms)
    pub client_of_name :
        (id ip : String) (name : Bytes)
        → find ip (hits_in (find name (domains_of (find id s.hits_stream))))
          ≡ seen (count (of_pair id ip name) dms)

  from_new :
      (dms : List DnsMessage) (n : ℕ) (v : RestApi Top → Option ℕ) (p : DnsMessage → Bool)
      → ((dm : DnsMessage) (s : RestApi Top)
          → v (record_dns_message top dm s) ≡ counted (p dm) (v s))
      → v (new_rest_api top n) ≡ none
      → v (record_all top dms (new_rest_api top n)) ≡ seen (count p dms)
  from_new dms n v p step start =
      record_all-counted dms v p step (new_rest_api top n) 0 start ∙ ap seen (omega arith)

  -- Once any messages have gone through a new logger, its counters of streams, clients, names, NXDOMAIN
  -- names, SERVFAIL names and public suffixes are the numbers of those messages, "-" never counting as a
  -- suffix; and the two tables of each stream hold, for every client, every name and every pair of
  -- them, the number of those messages: the table by client and the table by name agree, and no
  -- entry is there that no message made.
  pub record_all-Tables :
      (dms : List DnsMessage) (n : ℕ) → Tables dms (record_all top dms (new_rest_api top n))
  unfolding new_rest_api record_dns_message find
  record_all-Tables dms n = record {
    counts = record_all-Counts top dms n;
    stream = λ id.
        record_all-known dms (λ s. is_some (find id s.hits_stream)) (from_stream id)
          (λ dm s.
            stream-step id dm.dns_tap.identity dm.network_info.query_ip dm.dns.qname s.hits_stream)
          (new_rest_api top n)
        ∙ or_false (not (count (from_stream id) dms == 0));
    client = λ id ip.
        from_new dms n (λ s. total_of (find ip (clients_of (find id s.hits_stream))))
          (of_client id ip)
          (λ dm s.
            client-step id dm.dns_tap.identity dm.network_info.query_ip dm.dns.qname s.hits_stream
              ip)
          refl;
    domain = λ id name.
        from_new dms n (λ s. total_of (find name (domains_of (find id s.hits_stream))))
          (of_domain id name)
          (λ dm s.
            domain-step id dm.dns_tap.identity dm.network_info.query_ip dm.dns.qname s.hits_stream
              name)
          refl;
    name_of_client = λ id ip name.
        from_new dms n (λ s. find name (hits_in (find ip (clients_of (find id s.hits_stream)))))
          (of_pair id ip name)
          (λ dm s.
            name_of_client-step id dm.dns_tap.identity dm.network_info.query_ip dm.dns.qname
              s.hits_stream ip name)
          refl;
    client_of_name = λ id ip name.
        from_new dms n (λ s. find ip (hits_in (find name (domains_of (find id s.hits_stream)))))
          (of_pair id ip name)
          (λ dm s.
            client_of_name-step id dm.dns_tap.identity dm.network_info.query_ip dm.dns.qname
              s.hits_stream ip name)
          refl;
  }
