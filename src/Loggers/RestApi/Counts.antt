-- ===== src/Loggers/RestApi/Counts.antt =====
-- What the counters of loggers/restapi.go say of the messages recorded.
use go_dns_collector.Base.{
  ℕ, ◌+◌, String, ◌≡◌, refl, Bool, false, not, ◌&&◌, Option, none, some, List, [], ◌∷◌, arith,
  str_eq, if◌then◌else◌, Bytes, codes, bytes_eq, Key, string_key, bytes_key, find, hit, hits_of,
  hits_of-hit,
}
use go_dns_collector.Message.{DnsMessage, PublicSuffix}
use go_dns_collector.Loggers.Top.{TopMap}
use go_dns_collector.Loggers.RestApi.{
  RestApi, nxdomain, servfail, suffix_of, hit_suffix, hit_uniq, new_rest_api, record_dns_message,
  record_all,
}

-- The number of messages that pass a test.
unfoldable pub count : (DnsMessage → Bool) → List DnsMessage → ℕ
count p [] = 0
count p (dm ∷ dms) = (if p dm then 1 else 0) + count p dms

abbrev pub from_stream : String → DnsMessage → Bool
from_stream k dm = str_eq dm.dns_tap.identity k

abbrev pub from_client : String → DnsMessage → Bool
from_client k dm = str_eq dm.network_info.query_ip k

abbrev pub of_name : Bytes → DnsMessage → Bool
of_name k dm = bytes_eq dm.dns.qname k

abbrev pub has_rcode : String → DnsMessage → Bool
has_rcode c dm = str_eq dm.dns.rcode c

abbrev is_suffix : Bytes → Option Bytes → Bool
is_suffix k none = false
is_suffix k (some suffix) = not (bytes_eq suffix (codes "-")) && bytes_eq suffix k

abbrev pub of_suffix : Bytes → DnsMessage → Bool
of_suffix k dm = is_suffix k (suffix_of dm.public_suffix)

-- The map of counters is the one that counting the messages gives.
pub record Counts {Top : Type 0} (dms : List DnsMessage) (s : RestApi Top) : Type 0 where
  pub streams : (k : String) → hits_of k s.streams ≡ count (from_stream k) dms
  pub clients : (k : String) → hits_of k s.hits_uniq.clients ≡ count (from_client k) dms
  pub domains : (k : Bytes) → hits_of k s.hits_uniq.domains ≡ count (of_name k) dms
  pub nx_domains :
      (k : Bytes)
      → hits_of k s.hits_uniq.nx_domains ≡ count (λ dm. has_rcode nxdomain dm && of_name k dm) dms
  pub sf_domains :
      (k : Bytes)
      → hits_of k s.hits_uniq.sf_domains ≡ count (λ dm. has_rcode servfail dm && of_name k dm) dms
  pub public_suffixes :
      (k : Bytes) → hits_of k s.hits_uniq.public_suffixes ≡ count (of_suffix k) dms

module _ {Top : Type 0} (top : TopMap Top) where
  -- A counter that each message moves by its test holds the count.
  pub record_all-count :
      (dms : List DnsMessage) (v : RestApi Top → ℕ) (p : DnsMessage → Bool)
      → ((dm : DnsMessage) (s : RestApi Top)
          → v (record_dns_message top dm s) ≡ (if p dm then 1 else 0) + v s)
      → (s : RestApi Top) → v (record_all top dms s) ≡ count p dms + v s
  unfolding count record_all
  record_all-count [] v p step s = omega arith
  record_all-count (dm ∷ dms) v p step s =
      let rest = record_all-count dms v p step (record_dns_message top dm s) in
      let one = step dm s in omega (arith, rest, one)

  hits_of-suffix :
      (j : Bytes) (suffix : Option PublicSuffix) (m : List (Bytes × ℕ))
      → hits_of j (hit_suffix suffix m)
        ≡ (if is_suffix j (suffix_of suffix) then 1 else 0) + hits_of j m
  hits_of-suffix j none m = omega arith
  hits_of-suffix j (some suffix) m = ground (arith, hits_of-hit j suffix.qname_public_suffix m)

  hits_of-if :
      {K : Type 0} ⦃key : Key K⦄ (b : Bool) (j k : K) (m : List (K × ℕ))
      → hits_of j (if b then hit k m else m) ≡ (if b && key.same k j then 1 else 0) + hits_of j m
  hits_of-if ⦃key = key⦄ b j k m = ground (arith, hits_of-hit j k m)

  from_new :
      (dms : List DnsMessage) (n : ℕ) (v : RestApi Top → ℕ) (p : DnsMessage → Bool)
      → ((dm : DnsMessage) (s : RestApi Top)
          → v (record_dns_message top dm s) ≡ (if p dm then 1 else 0) + v s)
      → v (new_rest_api top n) ≡ 0
      → v (record_all top dms (new_rest_api top n)) ≡ count p dms
  from_new dms n v p step start =
      let counted = record_all-count dms v p step (new_rest_api top n) in
      omega (arith, counted, start)

  -- Every counter of a new logger counts the messages that it has recorded.
  pub record_all-Counts :
      (dms : List DnsMessage) (n : ℕ) → Counts dms (record_all top dms (new_rest_api top n))
  unfolding new_rest_api record_dns_message hit_uniq hits_of find
  record_all-Counts dms n = record {
    streams = λ k.
        from_new dms n (λ s. hits_of k s.streams) (from_stream k)
          (λ dm s. hits_of-hit k dm.dns_tap.identity s.streams) refl;
    clients = λ k.
        from_new dms n (λ s. hits_of k s.hits_uniq.clients) (from_client k)
          (λ dm s. hits_of-hit k dm.network_info.query_ip s.hits_uniq.clients) refl;
    domains = λ k.
        from_new dms n (λ s. hits_of k s.hits_uniq.domains) (of_name k)
          (λ dm s. hits_of-hit k dm.dns.qname s.hits_uniq.domains) refl;
    nx_domains = λ k.
        from_new dms n (λ s. hits_of k s.hits_uniq.nx_domains)
          (λ dm. has_rcode nxdomain dm && of_name k dm)
          (λ dm s. hits_of-if (str_eq dm.dns.rcode nxdomain) k dm.dns.qname s.hits_uniq.nx_domains)
          refl;
    sf_domains = λ k.
        from_new dms n (λ s. hits_of k s.hits_uniq.sf_domains)
          (λ dm. has_rcode servfail dm && of_name k dm)
          (λ dm s. hits_of-if (str_eq dm.dns.rcode servfail) k dm.dns.qname s.hits_uniq.sf_domains)
          refl;
    public_suffixes = λ k.
        from_new dms n (λ s. hits_of k s.hits_uniq.public_suffixes) (of_suffix k)
          (λ dm s. hits_of-suffix k dm.public_suffix s.hits_uniq.public_suffixes) refl;
  }
