-- ===== src/Transform/Config.antt =====
-- The parts of `ConfigTransformers` (dnsutils/config.go) that the transformers read. A file name
-- stands for the lines of the file: "" is `unset`, and a file that cannot be opened `unreadable`.
use go_dns_collector.Base.{ℕ, String, Bool, true, false, List, Bytes, string_key, bytes_key}

pub data ListFile : Type 0 where
  unset unreadable : ListFile
  lines : List Bytes → ListFile

pub record FilteringConfig : Type 0 where
  pub enable : Bool
  pub drop_fqdn_file : ListFile
  pub drop_domain_file : ListFile
  pub keep_fqdn_file : ListFile
  pub keep_domain_file : ListFile
  pub drop_query_ip_file : ListFile
  pub keep_query_ip_file : ListFile
  pub drop_rcodes : List String
  pub log_queries : Bool
  pub log_replies : Bool
  pub downsample : ℕ

pub record SuspiciousConfig : Type 0 where
  pub enable : Bool
  pub threshold_qname_len : ℕ
  pub threshold_packet_len : ℕ
  pub threshold_slow : ℕ
  pub common_qtypes : List String
  pub unallowed_chars : List Bytes
  pub threshold_max_labels : ℕ

-- len(file) > 0
abbrev pub is_set : ListFile → Bool
is_set unset = false
is_set unreadable = true
is_set (lines l) = true

pub record UserPrivacyConfig : Type 0 where
  pub enable : Bool
  pub anonymize_ip : Bool
  pub minimaze_qname : Bool
  pub hash_ip : Bool

pub record NormalizeConfig : Type 0 where
  pub enable : Bool
  pub qname_lower_case : Bool
  pub quiet_text : Bool
  pub add_tld : Bool
  pub add_tld_plus_one : Bool

pub record LatencyConfig : Type 0 where
  pub enable : Bool
  pub measure_latency : Bool
  pub unanswered_queries : Bool
  pub queries_timeout : ℕ

pub record ConfigTransformers : Type 0 where
  pub user_privacy : UserPrivacyConfig
  pub normalize : NormalizeConfig
  pub latency : LatencyConfig
  pub filtering : FilteringConfig
  pub geoip_enable : Bool
  pub suspicious : SuspiciousConfig
