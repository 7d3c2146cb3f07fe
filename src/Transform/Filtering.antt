-- ===== src/Transform/Filtering.antt =====
-- `FilteringProcessor` of transformers/filtering.go. Regular expressions and sets of addresses come
-- from libraries: `Matchers` holds what the filters ask of them.
pub mod Case
pub mod Decides
pub mod Downsample
use go_dns_collector.Base.{
  ℕ, ◌+◌, ◌%◌, String, Bool, true, false, not, ◌&&◌, ◌||◌, List, [], ◌∷◌, ◌++◌, map, str_eq, ltb,
  leb, ◌==◌, if◌then◌else◌, drop, Bytes, bytes_eq,
}
use go_dns_collector.Message.{DnsMessage, dns_query, dns_reply}
use go_dns_collector.Transform.Config.{ListFile, unset, unreadable, lines, FilteringConfig, is_set}

-- `regexp.MustCompile(p).MatchString(s)`, and whether the set of the addresses and prefixes that
-- the lines of a file name contains an address.
pub record Matchers : Type 0 where
  pub match_string : Bytes → Bytes → Bool
  pub in_set : List Bytes → String → Bool

-- strings.ToLower on ASCII
abbrev lower : ℕ → ℕ
lower c = if leb b'A' c && leb c b'Z' then c + 32 else c

unfoldable pub to_lower : Bytes → Bytes
to_lower = map lower

-- The entries of `activeFilters`, each a method of the processor.
pub data Filter : Type 0 where
  ignore_query ignore_reply by_rcode by_ip drop_fqdn drop_domain_regex : Filter
  keep_fqdn keep_domain_regex by_downsample : Filter

pub record Filtering : Type 0 where
  pub rcodes : List String
  pub ipset_drop : List Bytes
  pub ipset_keep : List Bytes
  pub list_fqdns : List Bytes
  pub list_domains_regex : List Bytes
  pub list_keep_fqdns : List Bytes
  pub list_keep_domains_regex : List Bytes
  pub downsample : ℕ
  pub downsample_count : ℕ
  pub active_filters : List Filter

-- The lower-case lines of a file, none if it cannot be opened.
unfoldable pub load_lines : ListFile → List Bytes
load_lines unset = []
load_lines unreadable = []
load_lines (lines l) = map to_lower l

pub when : Bool → Filter → List Filter
when b f = if b then f ∷ [] else []

abbrev pub is_nonempty {ℓ} : {A : Type ℓ} → List A → Bool
is_nonempty [] = false
is_nonempty (x ∷ xs) = true

pub load_active_filters : FilteringConfig → Filtering → List Filter
load_active_filters c p =
    when (not c.log_queries) ignore_query
    ++ (when (not c.log_replies) ignore_reply
        ++ (when (is_nonempty p.rcodes) by_rcode
            ++ (when (is_set c.keep_query_ip_file || is_set c.drop_query_ip_file) by_ip
                ++ (when (is_nonempty p.list_fqdns) drop_fqdn
                    ++ (when (is_nonempty p.list_domains_regex) drop_domain_regex
                        ++ (when (is_nonempty p.list_keep_fqdns) keep_fqdn
                            ++ (when (is_nonempty p.list_keep_domains_regex) keep_domain_regex
                                ++ when (ltb 0 c.downsample) by_downsample)))))))

-- NewFilteringProcessor: LoadRcodes, LoadDomainsList, LoadQueryIpList, LoadActiveFilters
pub load_lists : FilteringConfig → Filtering
load_lists c = record {
  rcodes = c.drop_rcodes;
  ipset_drop = load_lines c.drop_query_ip_file;
  ipset_keep = load_lines c.keep_query_ip_file;
  list_fqdns = load_lines c.drop_fqdn_file;
  list_domains_regex = load_lines c.drop_domain_file;
  list_keep_fqdns = load_lines c.keep_fqdn_file;
  list_keep_domains_regex = load_lines c.keep_domain_file;
  downsample = c.downsample;
  downsample_count = 0;
  active_filters = [];
}

unfoldable pub new_filtering : FilteringConfig → Filtering
unfolding load_lists load_active_filters load_lines when to_lower
new_filtering c = let p = load_lists c in record p { active_filters = load_active_filters c p }

-- _, ok := m[s]
unfoldable pub has_string : List String → String → Bool
has_string [] s = false
has_string (x ∷ xs) s = str_eq x s || has_string xs s

unfoldable pub has_bytes : List Bytes → Bytes → Bool
has_bytes [] s = false
has_bytes (x ∷ xs) s = bytes_eq x s || has_bytes xs s

module _ (lib : Matchers) where
  unfoldable pub matches_any : List Bytes → Bytes → Bool
  matches_any [] s = false
  matches_any (p ∷ ps) s = lib.match_string p s || matches_any ps s

  unfoldable pub ip_filter : Filtering → DnsMessage → Bool
  ip_filter p dm =
      if lib.in_set p.ipset_keep dm.network_info.query_ip
      then false
      else lib.in_set p.ipset_drop dm.network_info.query_ip

  -- The last `return true` of the source is not reached. LoadActiveFilters lists this filter only for a
  -- rate above 0; a rate of 0, by which Go would not divide, is that of no state it makes.
  unfoldable pub downsample_filter : Filtering → Filtering × Bool
  downsample_filter p =
      let count = p.downsample_count + 1 in
      if not (count % p.downsample == 0)
      then (record p { downsample_count = count }, true)
      else (record p { downsample_count = 0 }, false)

  -- One call of a filter: `true` drops the message.
  unfoldable pub apply_filter : Filter → Filtering → DnsMessage → Filtering × Bool
  apply_filter ignore_query p dm = (p, str_eq dm.dns.type dns_query)
  apply_filter ignore_reply p dm = (p, str_eq dm.dns.type dns_reply)
  apply_filter by_rcode p dm = (p, has_string p.rcodes dm.dns.rcode)
  apply_filter by_ip p dm = (p, ip_filter p dm)
  apply_filter drop_fqdn p dm = (p, has_bytes p.list_fqdns dm.dns.qname)
  apply_filter drop_domain_regex p dm = (p, matches_any p.list_domains_regex dm.dns.qname)
  apply_filter keep_fqdn p dm = (p, not (has_bytes p.list_keep_fqdns dm.dns.qname))
  apply_filter keep_domain_regex p dm =
      (p, not (matches_any p.list_keep_domains_regex dm.dns.qname))
  apply_filter by_downsample p dm = downsample_filter p

  -- for _, fn := range p.activeFilters { if fn(dm) { return true } }
  unfoldable pub run_filters : List Filter → Filtering → DnsMessage → Filtering × Bool
  run_filters [] p dm = (p, false)
  run_filters (f ∷ fs) p dm =
      let (p', drop) = apply_filter f p dm in
      let rest = run_filters fs p' dm in if drop then (p', true) else rest

  unfoldable pub check_if_drop : Filtering → DnsMessage → Filtering × Bool
  check_if_drop p dm = run_filters p.active_filters p dm
