-- ===== src/Config/Whole.antt =====
-- `Config` of dnsutils/config.go, its defaults, and how it is read. Opening the file and the YAML
-- library's decoding into a configuration are parameters.
use go_dns_collector.Base.{
  String, Bool, true, false, Option, none, some, [], ◌∷◌, ltb, if◌then◌else◌, length, Bytes, codes,
  Outcome, ok, err, string_key, bytes_key, value_or,
}
use go_dns_collector.Transform.Config.{unset, ConfigTransformers}
use go_dns_collector.Config.Global.{GlobalConfig, default_global}
use go_dns_collector.Config.Collectors.{CollectorsConfig, default_collectors}
use go_dns_collector.Config.Loggers.{LoggersConfig, default_loggers}

-- The routes are with the program's start.
pub record Config : Type 0 where
  pub global : GlobalConfig
  pub collectors : CollectorsConfig
  pub ingoing_transformers : ConfigTransformers
  pub loggers : LoggersConfig
  pub outgoing_transformers : ConfigTransformers

-- SetDefault of ConfigTransformers, but for the paths of the GeoIP databases
abbrev pub default_transformers : ConfigTransformers
default_transformers = record {
  suspicious = record {
    enable = false;
    threshold_qname_len = 100;
    threshold_packet_len = 1000;
    threshold_slow = 1;
    common_qtypes =
        "A" ∷ "AAAA" ∷ "TXT" ∷ "CNAME" ∷ "PTR" ∷ "NAPTR" ∷ "DNSKEY" ∷ "SRV" ∷ "SOA" ∷ "NS" ∷ "MX"
        ∷ "DS" ∷ "HTTPS" ∷ [];
    unallowed_chars = codes "\"" ∷ codes "==" ∷ codes "/" ∷ codes ":" ∷ [];
    threshold_max_labels = 10;
  };
  user_privacy = record {
    enable = false;
    anonymize_ip = false;
    minimaze_qname = false;
    hash_ip = false;
  };
  normalize = record {
    enable = false;
    qname_lower_case = false;
    quiet_text = false;
    add_tld = false;
    add_tld_plus_one = false;
  };
  latency = record {
    enable = false;
    measure_latency = false;
    unanswered_queries = false;
    queries_timeout = 2;
  };
  filtering = record {
    enable = false;
    drop_fqdn_file = unset;
    drop_domain_file = unset;
    keep_fqdn_file = unset;
    keep_domain_file = unset;
    drop_query_ip_file = unset;
    keep_query_ip_file = unset;
    drop_rcodes = [];
    log_queries = true;
    log_replies = true;
    downsample = 0;
  };
  geoip_enable = false;
}

abbrev pub default_config : Config
default_config = record {
  global = default_global;
  collectors = default_collectors;
  ingoing_transformers = default_transformers;
  loggers = default_loggers;
  outgoing_transformers = default_transformers;
}

-- `hostname` is that of the system, `none` for an error.
abbrev pub get_server_identity : Option String → Config → String
get_server_identity hostname c =
    if ltb 0 (length (codes c.global.server_identity))
    then c.global.server_identity
    else value_or "undefined" hostname

pub data ConfigError : Type 0 where
  not_opened not_decoded : ConfigError

-- `file` is the content of the file, `none` when it cannot be opened. `decode` writes what the file
-- says over a configuration, and says whether there was an error.
module _ (decode : Bytes → Config → Config × Bool) where
  unfoldable pub load_config : Option Bytes → Outcome ConfigError Config
  load_config none = err not_opened
  load_config (some text) =
      let (c, failed) = decode text default_config in if failed then err not_decoded else ok c

  -- The configuration afterwards, and the error.
  unfoldable pub reload_config : Option Bytes → Config → Config × Option ConfigError
  reload_config none c = (c, none)
  reload_config (some text) c =
      let (c', failed) = decode text c in if failed then (c', some not_decoded) else (c', none)
