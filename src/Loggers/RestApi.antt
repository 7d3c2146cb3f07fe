-- ===== src/Loggers/RestApi.antt =====
-- The state of loggers/restapi.go and `RecordDnsMessage`. The pointers to records in the maps are not
-- shared, so a map holds the records themselves.
pub mod Handlers
pub mod Counts
pub mod Step
pub mod Tables
pub mod Search
use go_dns_collector.Base.{
  ℕ, ◌+◌, String, Option, none, some, List, [], ◌∷◌, str_eq, ltb, if◌then◌else◌, Bytes, codes,
  bytes_eq, Key, string_key, bytes_key, adjust, hit, hits_of,
}
use go_dns_collector.Message.{DnsMessage, Suspicious, PublicSuffix}
use go_dns_collector.Loggers.Top.{TopMap}

pub record HitsRecord (K : Type 0) : Type 0 where
  pub total_hits : ℕ
  pub hits : List (K × ℕ)

-- The clients by address, each with its names, and the names, each with its clients.
pub record SearchBy : Type 0 where
  pub clients : List (String × HitsRecord Bytes)
  pub domains : List (Bytes × HitsRecord String)

pub record HitsUniq : Type 0 where
  pub clients : List (String × ℕ)
  pub domains : List (Bytes × ℕ)
  pub nx_domains : List (Bytes × ℕ)
  pub sf_domains : List (Bytes × ℕ)
  pub public_suffixes : List (Bytes × ℕ)
  pub suspicious : List (Bytes × Suspicious)

pub record RestApi (Top : Type 0) : Type 0 where
  pub hits_stream : List (String × SearchBy)
  pub hits_uniq : HitsUniq
  pub streams : List (String × ℕ)
  pub top_qnames : Top
  pub top_clients : Top
  pub top_tlds : Top
  pub top_non_existent : Top
  pub top_serv_fail : Top

abbrev pub nxdomain : String
nxdomain = "NXDOMAIN"

abbrev pub servfail : String
servfail = "SERVFAIL"

abbrev pub no_hits : {K : Type 0} → HitsRecord K
no_hits = record { total_hits = 0; hits = [] }

abbrev pub no_search : SearchBy
no_search = record { clients = []; domains = [] }

-- One more hit of a record, and of the key in it.
unfoldable pub hit_record : {K : Type 0} ⦃key : Key K⦄ → K → HitsRecord K → HitsRecord K
hit_record k r = record { total_hits = r.total_hits + 1; hits = hit k r.hits }

-- "record dns message per client source ip and domain"
unfoldable pub hit_search : String → Bytes → SearchBy → SearchBy
unfolding hit_record
hit_search ip name s = record {
  clients = adjust ip no_hits (hit_record name) s.clients;
  domains = adjust name no_hits (hit_record ip) s.domains;
}

abbrev pub suffix_of : Option PublicSuffix → Option Bytes
suffix_of none = none
suffix_of (some s) = some s.qname_public_suffix

-- A public suffix that is not "-" counts.
abbrev pub hit_suffix : Option PublicSuffix → List (Bytes × ℕ) → List (Bytes × ℕ)
hit_suffix none m = m
hit_suffix (some s) m =
    if bytes_eq s.qname_public_suffix (codes "-") then m else hit s.qname_public_suffix m

abbrev pub keep_suspicious :
    Bytes → Option Suspicious → List (Bytes × Suspicious) → List (Bytes × Suspicious)
keep_suspicious name none m = m
keep_suspicious name (some s) m = if ltb 0 s.score then adjust name s (λ old. old) m else m

unfoldable pub hit_uniq : DnsMessage → HitsUniq → HitsUniq
hit_uniq dm u = record {
  clients = hit dm.network_info.query_ip u.clients;
  domains = hit dm.dns.qname u.domains;
  nx_domains = if str_eq dm.dns.rcode nxdomain then hit dm.dns.qname u.nx_domains else u.nx_domains;
  sf_domains = if str_eq dm.dns.rcode servfail then hit dm.dns.qname u.sf_domains else u.sf_domains;
  public_suffixes = hit_suffix dm.public_suffix u.public_suffixes;
  suspicious = keep_suspicious dm.dns.qname dm.suspicious u.suspicious;
}

module _ {Top : Type 0} (top : TopMap Top) where
  -- NewRestAPI
  unfoldable pub new_rest_api : ℕ → RestApi Top
  new_rest_api top_n = record {
    hits_stream = [];
    hits_uniq = record {
      clients = [];
      domains = [];
      nx_domains = [];
      sf_domains = [];
      public_suffixes = [];
      suspicious = [];
    };
    streams = [];
    top_qnames = top.new_top_map top_n;
    top_clients = top.new_top_map top_n;
    top_tlds = top.new_top_map top_n;
    top_non_existent = top.new_top_map top_n;
    top_serv_fail = top.new_top_map top_n;
  }

  abbrev put_tld : HitsUniq → Option Bytes → Top → Top
  put_tld u none t = t
  put_tld u (some tld) t = top.put tld (hits_of tld u.public_suffixes) t

  -- RecordDnsMessage
  unfoldable pub record_dns_message : DnsMessage → RestApi Top → RestApi Top
  unfolding hit_uniq hit_search
  record_dns_message dm s =
      let u = hit_uniq dm s.hits_uniq in
      let name = dm.dns.qname in
      record {
        streams = hit dm.dns_tap.identity s.streams;
        hits_uniq = u;
        top_qnames = top.put name (hits_of name u.domains) s.top_qnames;
        top_clients =
            top.put (codes dm.network_info.query_ip) (hits_of dm.network_info.query_ip u.clients)
              s.top_clients;
        top_tlds = put_tld u (suffix_of dm.public_suffix) s.top_tlds;
        top_non_existent =
            if str_eq dm.dns.rcode nxdomain
            then top.put name (hits_of name u.nx_domains) s.top_non_existent
            else s.top_non_existent;
        top_serv_fail =
            if str_eq dm.dns.rcode servfail
            then top.put name (hits_of name u.sf_domains) s.top_serv_fail
            else s.top_serv_fail;
        hits_stream =
            adjust dm.dns_tap.identity no_search (hit_search dm.network_info.query_ip name)
              s.hits_stream;
      }

  -- The messages that the loop of Run records.
  pub record_all : List DnsMessage → RestApi Top → RestApi Top
  record_all [] s = s
  record_all (dm ∷ dms) s = record_all dms (record_dns_message dm s)
