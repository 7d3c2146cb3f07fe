-- ===== src/Transform/Filtering/Decides.antt =====
-- What the chain of filters decides, from the configuration alone.
use go_dns_collector.Base.{
  ℕ, ◌+◌, ◌%◌, String, ◌≡◌, refl, ◌∙◌, Bool, true, false, not, ◌&&◌, ◌||◌, List, [], ◌∷◌, ◌++◌,
  arith, str_eq, ltb, ◌==◌, if◌then◌else◌, Bytes, string_key, bytes_key,
}
use go_dns_collector.Message.{DnsMessage, dns_query, dns_reply}
use go_dns_collector.Transform.Config.{ListFile, FilteringConfig, is_set}
use go_dns_collector.Transform.Filtering.{
  Matchers, Filter, ignore_query, ignore_reply, by_rcode, by_ip, drop_fqdn, drop_domain_regex,
  keep_fqdn, keep_domain_regex, by_downsample, Filtering, load_lines, when, is_nonempty,
  load_active_filters, load_lists, new_filtering, has_string, has_bytes, matches_any, ip_filter,
  downsample_filter, apply_filter, run_filters, check_if_drop,
}

-- A processor that has counted `k` messages since it last kept one.
abbrev pub at_count : FilteringConfig → ℕ → Filtering
at_count c k = record (new_filtering c) { downsample_count = k }

-- A list file with entries, which a keep filter needs.
unfoldable pub keeps_only : ListFile → Bool
keeps_only f = is_nonempty (load_lines f)

module _ (c : FilteringConfig) where
  -- The sampling skips the message that follows `k` others.
  unfoldable pub skipped : ℕ → Bool
  skipped k = ltb 0 c.downsample && not ((k + 1) % c.downsample == 0)

  -- The count behind a message that is wanted.
  unfoldable pub counted : ℕ → ℕ
  counted k = if ltb 0 c.downsample then (if skipped k then k + 1 else 0) else k

module _ (lib : Matchers) (c : FilteringConfig) where
  -- The message is unwanted, whatever the sampling.
  unfoldable pub unwanted : DnsMessage → Bool
  unwanted dm =
      (not c.log_queries && str_eq dm.dns.type dns_query)
      || ((not c.log_replies && str_eq dm.dns.type dns_reply)
          || (has_string c.drop_rcodes dm.dns.rcode
              || (((is_set c.keep_query_ip_file || is_set c.drop_query_ip_file)
                    && (not (lib.in_set (load_lines c.keep_query_ip_file) dm.network_info.query_ip)
                        && lib.in_set (load_lines c.drop_query_ip_file) dm.network_info.query_ip))
                  || (has_bytes (load_lines c.drop_fqdn_file) dm.dns.qname
                      || (matches_any lib (load_lines c.drop_domain_file) dm.dns.qname
                          || ((keeps_only c.keep_fqdn_file
                                && not (has_bytes (load_lines c.keep_fqdn_file) dm.dns.qname))
                              || (keeps_only c.keep_domain_file
                                  && not (
                                      matches_any lib (load_lines c.keep_domain_file)
                                        dm.dns.qname))))))))

if_or {ℓ} :
    {A : Type ℓ} (a b : Bool) (x y : A)
    → (if a then x else if b then x else y) ≡ (if a || b then x else y)
if_or true b x y = refl
if_or false b x y = refl

module _ (lib : Matchers) where
  run_when :
      (b t : Bool) (f : Filter) (rest : List Filter) (p : Filtering) (dm : DnsMessage)
      → apply_filter lib f p dm ≡ (p, t)
      → run_filters lib (when b f ++ rest) p dm
        ≡ (if b && t then (p, true) else run_filters lib rest p dm)
  unfolding run_filters when
  run_when true true f rest p dm e = rw e
  run_when true false f rest p dm e = rw e
  run_when false t f rest p dm e = refl

  -- A list with no entries drops nothing, so its filter need not be active.
  has_string-active :
      (l : List String) (s : String) → (is_nonempty l && has_string l s) ≡ has_string l s
  unfolding has_string
  has_string-active [] s = refl
  has_string-active (x ∷ l) s = refl

  has_bytes-active : (l : List Bytes) (s : Bytes) → (is_nonempty l && has_bytes l s) ≡ has_bytes l s
  unfolding has_bytes
  has_bytes-active [] s = refl
  has_bytes-active (x ∷ l) s = refl

  matches_any-active :
      (l : List Bytes) (s : Bytes) → (is_nonempty l && matches_any lib l s) ≡ matches_any lib l s
  unfolding matches_any
  matches_any-active [] s = refl
  matches_any-active (x ∷ l) s = refl

  ip_filter-active :
      (p : Filtering) (dm : DnsMessage)
      → ip_filter lib p dm ≡ (
          not (lib.in_set p.ipset_keep dm.network_info.query_ip)
          && lib.in_set p.ipset_drop dm.network_info.query_ip)
  unfolding ip_filter
  ip_filter-active p dm = ground arith

  module _ (c : FilteringConfig) (k : ℕ) (dm : DnsMessage) where
    sampling :
        run_filters lib (when (ltb 0 c.downsample) by_downsample) (at_count c k) dm
        ≡ (at_count c (counted c k), skipped c k)
    unfolding run_filters when apply_filter downsample_filter counted skipped new_filtering
        load_lists
    sampling = ground arith

    abbrev before : Filtering
    before = at_count c k

    -- Each filter in front of the sampling, with what it is asked.
    chain : check_if_drop lib before dm ≡ (
        if unwanted lib c dm
        then (before, true)
        else run_filters lib (when (ltb 0 c.downsample) by_downsample) before dm)
    unfolding check_if_drop new_filtering load_lists load_active_filters unwanted keeps_only
        apply_filter
    chain =
        run_when (not c.log_queries) _ ignore_query _ before dm refl
        ∙ rw (run_when (not c.log_replies) _ ignore_reply _ before dm refl) (
            rw (run_when (is_nonempty c.drop_rcodes) _ by_rcode _ before dm refl) (
              rw
                (run_when (is_set c.keep_query_ip_file || is_set c.drop_query_ip_file) _ by_ip _
                  before dm refl)
                (rw (run_when (keeps_only c.drop_fqdn_file) _ drop_fqdn _ before dm refl) (
                  rw (run_when (keeps_only c.drop_domain_file) _ drop_domain_regex _ before dm refl)
                    (rw (run_when (keeps_only c.keep_fqdn_file) _ keep_fqdn _ before dm refl) (
                      rw
                        (run_when (keeps_only c.keep_domain_file) _ keep_domain_regex _ before dm
                          refl)
                        (simp
                          (
                            has_string-active, has_bytes-active, matches_any-active,
                            ip_filter-active,
                          )
                          (ground arith))))))))

    -- One call of CheckIfDrop on a processor with a given sampling count drops exactly the messages
    -- that the configuration does not want and, of the others, those that the sampling skips; only
    -- messages that are wanted are counted, and the lists do not change.
    pub check_if_drop-unwanted : check_if_drop lib (at_count c k) dm ≡ (
        if unwanted lib c dm then (at_count c k, true) else (at_count c (counted c k), skipped c k))
    check_if_drop-unwanted = chain ∙ rw sampling
