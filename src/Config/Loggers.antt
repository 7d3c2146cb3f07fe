-- ===== src/Config/Loggers.antt =====
-- The second half of `Config.Loggers` of dnsutils/config.go and the whole, with what `SetDefault` sets. The maps of the Scalyr
-- client are left out. `SetDefault` does not name the Scalyr client nor the format of syslog.
use go_dns_collector.Base.{ℕ, String, Bool, false, string_key, bytes_key}
use go_dns_collector.Config.Constants.{localhost_ip, tls_v12, mode_text, prog_name}
use go_dns_collector.Config.Streams.{
  StdoutLogger, default_stdout_logger, PrometheusLogger, default_prometheus_logger, RestApiLogger,
  default_rest_api_logger, LogFileLogger, default_log_file_logger, DnstapLogger,
  default_dnstap_logger, TcpClientLogger, default_tcp_client_logger,
}

pub record SyslogLogger : Type 0 where
  pub enable : Bool
  pub severity : String
  pub facility : String
  pub transport : String
  pub remote_address : String
  pub text_format : String
  pub mode : String
  pub tls_support : Bool
  pub tls_insecure : Bool
  pub tls_min_version : String
  pub format : String

abbrev pub default_syslog_logger : SyslogLogger
default_syslog_logger = record {
  enable = false;
  severity = "INFO";
  facility = "DAEMON";
  transport = "local";
  remote_address = "127.0.0.1:514";
  text_format = "";
  mode = mode_text;
  tls_support = false;
  tls_insecure = false;
  tls_min_version = tls_v12;
  format = "";
}

pub record FluentdLogger : Type 0 where
  pub enable : Bool
  pub remote_address : String
  pub remote_port : ℕ
  pub sock_path : String
  pub connect_timeout : ℕ
  pub retry_interval : ℕ
  pub flush_interval : ℕ
  pub transport : String
  pub tls_support : Bool
  pub tls_insecure : Bool
  pub tls_min_version : String
  pub tag : String
  pub buffer_size : ℕ

abbrev pub default_fluentd_logger : FluentdLogger
default_fluentd_logger = record {
  enable = false;
  remote_address = localhost_ip;
  remote_port = 24224;
  sock_path = "";
  connect_timeout = 5;
  retry_interval = 10;
  flush_interval = 30;
  transport = "tcp";
  tls_support = false;
  tls_insecure = false;
  tls_min_version = tls_v12;
  tag = "dns.collector";
  buffer_size = 100;
}

pub record InfluxDbLogger : Type 0 where
  pub enable : Bool
  pub server_url : String
  pub auth_token : String
  pub tls_support : Bool
  pub tls_insecure : Bool
  pub tls_min_version : String
  pub bucket : String
  pub organization : String

abbrev pub default_influx_db_logger : InfluxDbLogger
default_influx_db_logger = record {
  enable = false;
  server_url = "http://localhost:8086";
  auth_token = "";
  tls_support = false;
  tls_insecure = false;
  tls_min_version = tls_v12;
  bucket = "";
  organization = "";
}

pub record LokiClientLogger : Type 0 where
  pub enable : Bool
  pub server_url : String
  pub job_name : String
  pub mode : String
  pub flush_interval : ℕ
  pub batch_size : ℕ
  pub retry_interval : ℕ
  pub text_format : String
  pub proxy_url : String
  pub tls_insecure : Bool
  pub tls_min_version : String
  pub basic_auth_login : String
  pub basic_auth_pwd : String
  pub tenant_id : String

abbrev pub default_loki_client_logger : LokiClientLogger
default_loki_client_logger = record {
  enable = false;
  server_url = "http://localhost:3100/loki/api/v1/push";
  job_name = prog_name;
  mode = mode_text;
  flush_interval = 5;
  batch_size = 1048576;
  retry_interval = 10;
  text_format = "";
  proxy_url = "";
  tls_insecure = false;
  tls_min_version = tls_v12;
  basic_auth_login = "";
  basic_auth_pwd = "";
  tenant_id = "";
}

pub record StatsdLogger : Type 0 where
  pub enable : Bool
  pub prefix : String
  pub remote_address : String
  pub remote_port : ℕ
  pub transport : String
  pub flush_interval : ℕ
  pub tls_support : Bool
  pub tls_insecure : Bool
  pub tls_min_version : String

abbrev pub default_statsd_logger : StatsdLogger
default_statsd_logger = record {
  enable = false;
  prefix = prog_name;
  remote_address = localhost_ip;
  remote_port = 8125;
  transport = "udp";
  flush_interval = 10;
  tls_support = false;
  tls_insecure = false;
  tls_min_version = tls_v12;
}

pub record ElasticSearchClientLogger : Type 0 where
  pub enable : Bool
  pub url : String

abbrev pub default_elastic_search_client_logger : ElasticSearchClientLogger
default_elastic_search_client_logger = record {
  enable = false;
  url = "http://127.0.0.1:9200/indexname/_doc";
}

pub record ScalyrClientLogger : Type 0 where
  pub enable : Bool
  pub mode : String
  pub text_format : String
  pub server_url : String
  pub api_key : String
  pub parser : String
  pub flush_interval : ℕ
  pub proxy_url : String
  pub tls_insecure : Bool
  pub tls_min_version : String

abbrev pub default_scalyr_client_logger : ScalyrClientLogger
default_scalyr_client_logger = record {
  enable = false;
  mode = "";
  text_format = "";
  server_url = "";
  api_key = "";
  parser = "";
  flush_interval = 0;
  proxy_url = "";
  tls_insecure = false;
  tls_min_version = "";
}

pub record LoggersConfig : Type 0 where
  pub stdout : StdoutLogger
  pub prometheus : PrometheusLogger
  pub rest_api : RestApiLogger
  pub log_file : LogFileLogger
  pub dnstap : DnstapLogger
  pub tcp_client : TcpClientLogger
  pub syslog : SyslogLogger
  pub fluentd : FluentdLogger
  pub influx_db : InfluxDbLogger
  pub loki_client : LokiClientLogger
  pub statsd : StatsdLogger
  pub elastic_search_client : ElasticSearchClientLogger
  pub scalyr_client : ScalyrClientLogger

abbrev pub default_loggers : LoggersConfig
default_loggers = record {
  stdout = default_stdout_logger;
  prometheus = default_prometheus_logger;
  rest_api = default_rest_api_logger;
  log_file = default_log_file_logger;
  dnstap = default_dnstap_logger;
  tcp_client = default_tcp_client_logger;
  syslog = default_syslog_logger;
  fluentd = default_fluentd_logger;
  influx_db = default_influx_db_logger;
  loki_client = default_loki_client_logger;
  statsd = default_statsd_logger;
  elastic_search_client = default_elastic_search_client_logger;
  scalyr_client = default_scalyr_client_logger;
}
