-- ===== src/Transform/Samples.antt =====
-- Libraries and configurations to run the transformers with.
use go_dns_collector.Base.{true, false, none, some, [], ◌∷◌, codes, bytes_eq, string_key, bytes_key}
use go_dns_collector.Transform.Config.{
  unset, lines, FilteringConfig, SuspiciousConfig, ConfigTransformers,
}
use go_dns_collector.Transform.Filtering.{Matchers}
use go_dns_collector.Transform.Chain.{Lookups}

-- A pattern matches the name that it spells, and no address is listed.
abbrev pub matchers : Matchers
matchers = record { match_string = bytes_eq; in_set = λ l ip. false }

abbrev pub lookups : Lookups
lookups = record {
  public_suffix = λ name. (codes "fr", true);
  etld_plus_one = λ name. some (codes "nic.fr");
  mask = λ m ip. "10.1.0.0";
  sha1 = λ ip. "0a";
  geoip = λ ip. none;
}

-- Drops ads.fr and keeps every third of the other messages.
abbrev pub config : FilteringConfig
config = record {
  enable = true;
  drop_fqdn_file = lines (codes "ads.fr" ∷ []);
  drop_domain_file = unset;
  keep_fqdn_file = unset;
  keep_domain_file = unset;
  drop_query_ip_file = unset;
  keep_query_ip_file = unset;
  drop_rcodes = "SERVFAIL" ∷ [];
  log_queries = true;
  log_replies = true;
  downsample = 3;
}

abbrev pub thresholds : SuspiciousConfig
thresholds = record {
  enable = true;
  threshold_qname_len = 4;
  threshold_packet_len = 1000;
  threshold_slow = 1;
  common_qtypes = "A" ∷ "AAAA" ∷ [];
  unallowed_chars = codes "=" ∷ codes "/" ∷ [];
  threshold_max_labels = 10;
}

abbrev pub all_on : ConfigTransformers
all_on = record {
  user_privacy = record {
    enable = true;
    anonymize_ip = true;
    minimaze_qname = true;
    hash_ip = true;
  };
  normalize = record {
    enable = true;
    qname_lower_case = true;
    quiet_text = true;
    add_tld = true;
    add_tld_plus_one = true;
  };
  latency = record {
    enable = true;
    measure_latency = true;
    unanswered_queries = true;
    queries_timeout = 2;
  };
  filtering = config;
  geoip_enable = true;
  suspicious = thresholds;
}
