-- ===== src/Message.antt =====
-- `DnsMessage` and its parts, from dnsutils/message.go. Fields that hold bytes of a packet are
-- byte lists; fields that only take names are strings. Times are nanoseconds in place of float64
-- seconds, and the score, a sum of ones, is a number.
pub mod Strings
pub mod Text
mod Examples
use go_dns_collector.Base.{
  ℕ, String, Bool, false, Option, none, List, [], ℤ, pos, Bytes, codes, string_key, bytes_key,
}

pub record DnsAnswer : Type 0 where
  pub name : Bytes
  pub rdatatype : String
  pub class : ℕ
  pub ttl : ℕ
  pub rdata : Bytes

pub record DnsFlags : Type 0 where
  pub qr : Bool
  pub tc : Bool
  pub aa : Bool
  pub ra : Bool
  pub ad : Bool

pub record DnsGeo : Type 0 where
  pub city : String
  pub continent : String
  pub country_iso_code : String
  pub autonomous_system_number : String
  pub autonomous_system_org : String

pub record DnsNetInfo : Type 0 where
  pub family : String
  pub protocol : String
  pub query_ip : String
  pub query_port : String
  pub response_ip : String
  pub response_port : String
  pub ip_defragmented : Bool
  pub tcp_reassembled : Bool

pub record DnsRrs : Type 0 where
  pub answers : List DnsAnswer
  pub nameservers : List DnsAnswer
  pub records : List DnsAnswer

pub record Dns : Type 0 where
  pub type : String
  pub payload : Bytes
  pub length : ℕ
  pub id : ℕ
  pub opcode : ℕ
  pub rcode : String
  pub qname : Bytes
  pub qtype : String
  pub flags : DnsFlags
  pub dns_rrs : DnsRrs
  pub malformed_packet : Bool

pub record DnsOption : Type 0 where
  pub code : ℕ
  pub name : String
  pub value : Bytes

pub record DnsExtended : Type 0 where
  pub udp_size : ℕ
  pub extended_rcode : ℕ
  pub version : ℕ
  pub dnssec_ok : ℕ
  pub z : ℕ
  pub options : List DnsOption

pub record DnsTap : Type 0 where
  pub operation : String
  pub identity : String
  pub version : String
  pub timestamp_rfc3339 : String
  pub timestamp : ℤ
  pub time_sec : ℕ
  pub time_nsec : ℕ
  pub latency : ℤ
  pub latency_sec : String
  pub payload : Bytes

pub record PowerDns : Type 0 where
  pub tags : List String
  pub original_request_subnet : String
  pub applied_policy : String
  pub metadata : List (String × String)

pub record Suspicious : Type 0 where
  pub score : ℕ
  pub malformed_packet : Bool
  pub large_packet : Bool
  pub long_domain : Bool
  pub slow_domain : Bool
  pub unallowed_chars : Bool
  pub uncommon_qtypes : Bool
  pub excessive_number_labels : Bool

pub record PublicSuffix : Type 0 where
  pub qname_public_suffix : Bytes
  pub qname_effective_tld_plus_one : Bytes

pub record DnsMessage : Type 0 where
  pub network_info : DnsNetInfo
  pub dns : Dns
  pub edns : DnsExtended
  pub dns_tap : DnsTap
  pub geo : Option DnsGeo
  pub power_dns : Option PowerDns
  pub suspicious : Option Suspicious
  pub public_suffix : Option PublicSuffix

-- DnsExtended{}
abbrev pub zero_extended : DnsExtended
zero_extended = record {
  udp_size = 0;
  extended_rcode = 0;
  version = 0;
  dnssec_ok = 0;
  z = 0;
  options = [];
}

-- `dm := DnsMessage{}; dm.Init()`
abbrev pub init : DnsMessage
init = record {
  network_info = record {
    family = "-";
    protocol = "-";
    query_ip = "-";
    query_port = "-";
    response_ip = "-";
    response_port = "-";
    ip_defragmented = false;
    tcp_reassembled = false;
  };
  dns = record {
    type = "-";
    payload = [];
    length = 0;
    id = 0;
    opcode = 0;
    rcode = "-";
    qname = codes "-";
    qtype = "-";
    flags = record { qr = false; tc = false; aa = false; ra = false; ad = false };
    dns_rrs = record { answers = []; nameservers = []; records = [] };
    malformed_packet = false;
  };
  edns = zero_extended;
  dns_tap = record {
    operation = "-";
    identity = "-";
    version = "-";
    timestamp_rfc3339 = "-";
    timestamp = pos 0;
    time_sec = 0;
    time_nsec = 0;
    latency = pos 0;
    latency_sec = "-";
    payload = [];
  };
  geo = none;
  power_dns = none;
  suspicious = none;
  public_suffix = none;
}

abbrev pub dns_query : String
dns_query = "QUERY"

abbrev pub dns_reply : String
dns_reply = "REPLY"
