-- ===== src/Config/Streams.antt =====
-- The first half of `Config.Loggers` of dnsutils/config.go, with what `SetDefault` sets.
use go_dns_collector.Base.{ℕ, String, Bool, true, false, string_key, bytes_key}
use go_dns_collector.Config.Constants.{localhost_ip, tls_v12, mode_text, mode_json, prog_name}

pub record StdoutLogger : Type 0 where
  pub enable : Bool
  pub mode : String
  pub text_format : String

abbrev pub default_stdout_logger : StdoutLogger
default_stdout_logger = record { enable = false; mode = mode_text; text_format = "" }

pub record PrometheusLogger : Type 0 where
  pub enable : Bool
  pub listen_ip : String
  pub listen_port : ℕ
  pub tls_support : Bool
  pub tls_mutual : Bool
  pub tls_min_version : String
  pub cert_file : String
  pub key_file : String
  pub prom_prefix : String
  pub top_n : ℕ
  pub basic_auth_login : String
  pub basic_auth_pwd : String
  pub basic_auth_enabled : Bool

abbrev pub default_prometheus_logger : PrometheusLogger
default_prometheus_logger = record {
  enable = false;
  listen_ip = localhost_ip;
  listen_port = 8081;
  tls_support = false;
  tls_mutual = false;
  tls_min_version = tls_v12;
  cert_file = "";
  key_file = "";
  prom_prefix = prog_name;
  top_n = 10;
  basic_auth_login = "admin";
  basic_auth_pwd = "changeme";
  basic_auth_enabled = true;
}

pub record RestApiLogger : Type 0 where
  pub enable : Bool
  pub listen_ip : String
  pub listen_port : ℕ
  pub basic_auth_login : String
  pub basic_auth_pwd : String
  pub tls_support : Bool
  pub tls_min_version : String
  pub cert_file : String
  pub key_file : String
  pub top_n : ℕ

abbrev pub default_rest_api_logger : RestApiLogger
default_rest_api_logger = record {
  enable = false;
  listen_ip = localhost_ip;
  listen_port = 8080;
  basic_auth_login = "admin";
  basic_auth_pwd = "changeme";
  tls_support = false;
  tls_min_version = tls_v12;
  cert_file = "";
  key_file = "";
  top_n = 100;
}

pub record LogFileLogger : Type 0 where
  pub enable : Bool
  pub file_path : String
  pub max_size : ℕ
  pub max_files : ℕ
  pub flush_interval : ℕ
  pub compress : Bool
  pub compress_interval : ℕ
  pub compress_post_command : String
  pub mode : String
  pub post_rotate_command : String
  pub post_rotate_delete : Bool
  pub text_format : String

abbrev pub default_log_file_logger : LogFileLogger
default_log_file_logger = record {
  enable = false;
  file_path = "";
  max_size = 100;
  max_files = 10;
  flush_interval = 10;
  compress = false;
  compress_interval = 60;
  compress_post_command = "";
  mode = mode_text;
  post_rotate_command = "";
  post_rotate_delete = false;
  text_format = "";
}

pub record DnstapLogger : Type 0 where
  pub enable : Bool
  pub remote_address : String
  pub remote_port : ℕ
  pub sock_path : String
  pub connect_timeout : ℕ
  pub retry_interval : ℕ
  pub flush_interval : ℕ
  pub tls_support : Bool
  pub tls_insecure : Bool
  pub tls_min_version : String
  pub server_id : String
  pub overwrite_identity : Bool
  pub buffer_size : ℕ

abbrev pub default_dnstap_logger : DnstapLogger
default_dnstap_logger = record {
  enable = false;
  remote_address = localhost_ip;
  remote_port = 6000;
  sock_path = "";
  connect_timeout = 5;
  retry_interval = 10;
  flush_interval = 30;
  tls_support = false;
  tls_insecure = false;
  tls_min_version = tls_v12;
  server_id = "";
  overwrite_identity = false;
  buffer_size = 100;
}

pub record TcpClientLogger : Type 0 where
  pub enable : Bool
  pub remote_address : String
  pub remote_port : ℕ
  pub sock_path : String
  pub retry_interval : ℕ
  pub transport : String
  pub tls_support : Bool
  pub tls_insecure : Bool
  pub tls_min_version : String
  pub mode : String
  pub text_format : String
  pub payload_delimiter : String
  pub buffer_size : ℕ
  pub flush_interval : ℕ
  pub connect_timeout : ℕ

abbrev pub default_tcp_client_logger : TcpClientLogger
default_tcp_client_logger = record {
  enable = false;
  remote_address = localhost_ip;
  remote_port = 9999;
  sock_path = "";
  retry_interval = 10;
  transport = "tcp";
  tls_support = false;
  tls_insecure = false;
  tls_min_version = tls_v12;
  mode = mode_json;
  text_format = "";
  payload_delimiter = "\n";
  buffer_size = 100;
  flush_interval = 30;
  connect_timeout = 5;
}
