-- ===== src/Config/Collectors.antt =====
-- `Config.Collectors` of dnsutils/config.go, with what `SetDefault` sets. `SetDefault` does not name the
-- port of the XDP collector, which is zero.
use go_dns_collector.Base.{ℕ, String, Bool, false, string_key, bytes_key}
use go_dns_collector.Config.Constants.{any_ip, tls_v12, mode_pcap}

pub record TailCollector : Type 0 where
  pub enable : Bool
  pub time_layout : String
  pub pattern_query : String
  pub pattern_reply : String
  pub file_path : String

abbrev pub default_tail_collector : TailCollector
default_tail_collector = record {
  enable = false;
  time_layout = "";
  pattern_query = "";
  pattern_reply = "";
  file_path = "";
}

pub record DnstapCollector : Type 0 where
  pub enable : Bool
  pub listen_ip : String
  pub listen_port : ℕ
  pub sock_path : String
  pub tls_support : Bool
  pub tls_min_version : String
  pub cert_file : String
  pub key_file : String
  pub rcv_buf_size : ℕ

abbrev pub default_dnstap_collector : DnstapCollector
default_dnstap_collector = record {
  enable = false;
  listen_ip = any_ip;
  listen_port = 6000;
  sock_path = "";
  tls_support = false;
  tls_min_version = tls_v12;
  cert_file = "";
  key_file = "";
  rcv_buf_size = 0;
}

pub record DnstapProxifierCollector : Type 0 where
  pub enable : Bool
  pub listen_ip : String
  pub listen_port : ℕ
  pub sock_path : String
  pub tls_support : Bool
  pub tls_min_version : String
  pub cert_file : String
  pub key_file : String

abbrev pub default_dnstap_proxifier_collector : DnstapProxifierCollector
default_dnstap_proxifier_collector = record {
  enable = false;
  listen_ip = any_ip;
  listen_port = 6000;
  sock_path = "";
  tls_support = false;
  tls_min_version = tls_v12;
  cert_file = "";
  key_file = "";
}

pub record AfpacketLiveCaptureCollector : Type 0 where
  pub enable : Bool
  pub port : ℕ
  pub device : String

abbrev pub default_afpacket_live_capture_collector : AfpacketLiveCaptureCollector
default_afpacket_live_capture_collector = record { enable = false; port = 53; device = "" }

pub record XdpLiveCaptureCollector : Type 0 where
  pub enable : Bool
  pub port : ℕ
  pub device : String

abbrev pub default_xdp_live_capture_collector : XdpLiveCaptureCollector
default_xdp_live_capture_collector = record { enable = false; port = 0; device = "" }

pub record PowerDnsCollector : Type 0 where
  pub enable : Bool
  pub listen_ip : String
  pub listen_port : ℕ
  pub tls_support : Bool
  pub tls_min_version : String
  pub cert_file : String
  pub key_file : String

abbrev pub default_power_dns_collector : PowerDnsCollector
default_power_dns_collector = record {
  enable = false;
  listen_ip = any_ip;
  listen_port = 6001;
  tls_support = false;
  tls_min_version = tls_v12;
  cert_file = "";
  key_file = "";
}

pub record FileIngestorCollector : Type 0 where
  pub enable : Bool
  pub watch_dir : String
  pub watch_mode : String
  pub pcap_dns_port : ℕ
  pub delete_after : Bool

abbrev pub default_file_ingestor_collector : FileIngestorCollector
default_file_ingestor_collector = record {
  enable = false;
  watch_dir = "";
  watch_mode = mode_pcap;
  pcap_dns_port = 53;
  delete_after = false;
}

pub record TzspCollector : Type 0 where
  pub enable : Bool
  pub listen_ip : String
  pub listen_port : ℕ

abbrev pub default_tzsp_collector : TzspCollector
default_tzsp_collector = record { enable = false; listen_ip = any_ip; listen_port = 10000 }

pub record CollectorsConfig : Type 0 where
  pub tail : TailCollector
  pub dnstap : DnstapCollector
  pub dnstap_proxifier : DnstapProxifierCollector
  pub afpacket_live_capture : AfpacketLiveCaptureCollector
  pub xdp_live_capture : XdpLiveCaptureCollector
  pub power_dns : PowerDnsCollector
  pub file_ingestor : FileIngestorCollector
  pub tzsp : TzspCollector

abbrev pub default_collectors : CollectorsConfig
default_collectors = record {
  tail = default_tail_collector;
  dnstap = default_dnstap_collector;
  dnstap_proxifier = default_dnstap_proxifier_collector;
  afpacket_live_capture = default_afpacket_live_capture_collector;
  xdp_live_capture = default_xdp_live_capture_collector;
  power_dns = default_power_dns_collector;
  file_ingestor = default_file_ingestor_collector;
  tzsp = default_tzsp_collector;
}
