-- ===== src/Config/Global.antt =====
-- `Config.Global` of dnsutils/config.go, with what `SetDefault` sets.
use go_dns_collector.Base.{ℕ, String, Bool, false, string_key, bytes_key}

pub record TraceConfig : Type 0 where
  pub verbose : Bool
  pub log_malformed : Bool
  pub filename : String
  pub max_size : ℕ
  pub max_backups : ℕ

abbrev pub default_trace : TraceConfig
default_trace = record {
  verbose = false;
  log_malformed = false;
  filename = "";
  max_size = 10;
  max_backups = 10;
}

pub record GlobalConfig : Type 0 where
  pub text_format : String
  pub text_format_delimiter : String
  pub text_format_boundary : String
  pub trace : TraceConfig
  pub server_identity : String

abbrev pub default_global : GlobalConfig
default_global = record {
  text_format =
      "timestamp identity operation rcode queryip queryport family protocol length qname qtype latency";
  text_format_delimiter = " ";
  text_format_boundary = "\"";
  trace = default_trace;
  server_identity = "";
}
