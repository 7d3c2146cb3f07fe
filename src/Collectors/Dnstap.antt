-- ===== src/Collectors/Dnstap.antt =====
-- `DnstapProcessor.Run` of collectors/dnstap_processor.go. `Protobuf` is what the generated code of
-- dnstap gives: a frame's fields by their getters, and the numbers of the message types.
pub mod Reads
use go_dns_collector.Base.{
  ℕ, ◌%◌, String, Option, none, some, List, [], ◌∷◌, str_eq, ltb, ◌==◌, if◌then◌else◌, length,
  Bytes, decimal, Outcome, ok, ◌>>=◌,
}
use go_dns_collector.Message.{DnsMessage, init, dns_query, dns_reply}
use go_dns_collector.Transform.Chain.{Transforms, init_dns_message_format}
use go_dns_collector.Collectors.Processor.{
  Libraries, Step, decode_header, decode_body, stamp, finish, run_loop,
}

-- `GetType().String()` and the other enumerations by their names. An absent field is empty or zero.
pub record Frame : Type 0 where
  pub identity : String
  pub version : String
  pub message_type : String
  pub socket_family : String
  pub socket_protocol : String
  pub query_address : Bytes
  pub query_port : ℕ
  pub response_address : Bytes
  pub response_port : ℕ
  pub query_message : Bytes
  pub query_time_sec : ℕ
  pub query_time_nsec : ℕ
  pub response_message : Bytes
  pub response_time_sec : ℕ
  pub response_time_nsec : ℕ

-- `decimal` is strconv.FormatUint, `type_value` the map dnstap.Message_Type_value.
pub record Protobuf : Type 0 where
  pub unmarshal : Bytes → Option Frame
  pub type_value : String → ℕ
  pub decimal : ℕ → String

-- IP_VERSION, and STR_UNKNOWN for a name that is not there.
unfoldable pub ip_family : String → String
ip_family name =
    if str_eq name "INET" then "IPv4" else if str_eq name "INET6" then "IPv6" else "UNKNOWN"

abbrev or_text : String → String → String
or_text String.[] old = old
or_text (String.◌∷◌ c s) old = String.◌∷◌ c s

abbrev or_address : (Bytes → String) → Bytes → String → String
or_address ip [] old = old
or_address ip (b ∷ bs) old = ip (b ∷ bs)

abbrev or_port : (ℕ → String) → ℕ → String → String
or_port decimal n old = if ltb 0 n then decimal n else old

module _ (lib : Libraries) (proto : Protobuf) where
  -- The getters, up to the query's and the response's own fields.
  unfoldable pub read_ends : Frame → DnsMessage → DnsMessage
  unfolding ip_family
  read_ends f dm = record dm {
    dns_tap = record (dm.dns_tap) {
      identity = or_text f.identity dm.dns_tap.identity;
      version = or_text f.version dm.dns_tap.version;
      operation = f.message_type;
    };
    network_info = record (dm.network_info) {
      family = ip_family f.socket_family;
      protocol = f.socket_protocol;
      query_ip = or_address lib.texts.ip f.query_address dm.network_info.query_ip;
      query_port = or_port proto.decimal f.query_port dm.network_info.query_port;
      response_ip = or_address lib.texts.ip f.response_address dm.network_info.response_ip;
      response_port = or_port proto.decimal f.response_port dm.network_info.response_port;
    };
  }

  -- An odd message type is a query.
  unfoldable pub read_side : Frame → DnsMessage → DnsMessage
  read_side f dm =
      if proto.type_value f.message_type % 2 == 1
      then record dm {
        dns = record (dm.dns) {
          payload = f.query_message;
          length = length f.query_message;
          type = dns_query;
        };
        dns_tap = record (dm.dns_tap) {
          time_sec = f.query_time_sec;
          time_nsec = f.query_time_nsec;
        };
      }
      else record dm {
        dns = record (dm.dns) {
          payload = f.response_message;
          length = length f.response_message;
          type = dns_reply;
        };
        dns_tap = record (dm.dns_tap) {
          time_sec = f.response_time_sec;
          time_nsec = f.response_time_nsec;
        };
      }

  unfoldable pub read_frame : Transforms → Frame → DnsMessage
  read_frame p f = stamp lib (read_side f (read_ends f (init_dns_message_format p.config init)))

  unfoldable pub received_frame : Transforms → Frame → Outcome ⊥ DnsMessage
  received_frame p f = do (header, dm) ← decode_header (read_frame p f); decode_body header dm

  abbrev handle_frame : Transforms → Option Frame → Step
  handle_frame p none = ok (p, none)
  handle_frame p (some f) = received_frame p f >>= finish lib p

  unfoldable pub handle_dnstap : Transforms → Bytes → Step
  handle_dnstap p bytes = handle_frame p (proto.unmarshal bytes)

  unfoldable pub run_dnstap :
      List String → Transforms → List Bytes → Outcome ⊥ (Transforms × List (String × DnsMessage))
  run_dnstap send_to p frames = run_loop handle_dnstap send_to p frames
