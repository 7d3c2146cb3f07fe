-- ===== src/Collectors/Pdns.antt =====
-- `PdnsProcessor.Run` of collectors/powerdns_processor.go. The packet that it packs for the loggers
-- from the question and the records is the work of a library: `pack`, `none` for an error.
pub mod Records
use go_dns_collector.Base.{
  ℕ, ◌+◌, ◌*◌, ◌%◌, String, Bool, ◌||◌, Option, none, some, List, [], ◌∷◌, str_eq, ◌==◌,
  if◌then◌else◌, pos, length, Bytes, decimal, Outcome, ok, err, panic, ◌>>=◌, slice,
}
use go_dns_collector.Dns.Address.{ipv4_string, ipv6_string}
use go_dns_collector.Dns.Names.{rdatatype_to_string, rcode_to_string}
use go_dns_collector.Message.{DnsAnswer, DnsMessage, PowerDns, init, dns_query, dns_reply}
use go_dns_collector.Transform.Chain.{
  Transforms, Code, return_success, return_drop, return_error, init_dns_message_format,
}
use go_dns_collector.Transform.Latency.{diff}
use go_dns_collector.Transform.Process.{Result, trim_dot, process_message}
use go_dns_collector.Collectors.Processor.{Libraries, Step, stamp, run_loop}
use go_dns_collector.Collectors.Dnstap.{ip_family}

pub record PbRr : Type 0 where
  pub name : Bytes
  pub type : ℕ
  pub class : ℕ
  pub ttl : ℕ
  pub rdata : Bytes

-- PBDNSMessage by its getters. `from` is nil where the field is absent; `meta` has the values of each
-- entry joined by spaces.
pub record PbDnsMessage : Type 0 where
  pub server_identity : String
  pub type_name : String
  pub type_number : ℕ
  pub socket_family : String
  pub socket_protocol : String
  pub from : Option Bytes
  pub from_port : ℕ
  pub to : Bytes
  pub to_port : ℕ
  pub id : ℕ
  pub in_bytes : ℕ
  pub time_sec : ℕ
  pub time_usec : ℕ
  pub query_time_sec : ℕ
  pub query_time_usec : ℕ
  pub rcode : ℕ
  pub qname : Bytes
  pub qtype : ℕ
  pub original_requestor_subnet : Bytes
  pub tags : List String
  pub applied_policy : String
  pub meta : List (String × String)
  pub rrs : List PbRr

pub record Pb : Type 0 where
  pub unmarshal : Bytes → Option PbDnsMessage
  pub decimal : ℕ → String
  pub pack : PbDnsMessage → Option Bytes

-- PROTOBUF_PDNS_TO_DNSTAP; the zero value for a name that is not there.
unfoldable pub pdns_operation : String → String
pdns_operation name =
    if str_eq name "DNSQueryType"
    then "CLIENT_QUERY"
    else if str_eq name "DNSResponseType"
    then "CLIENT_RESPONSE"
    else if str_eq name "DNSOutgoingQueryType"
    then "RESOLVER_QUERY"
    else if str_eq name "DNSIncomingResponseType"
    then "RESOLVER_RESPONSE"
    else ""

-- The text of an address for A and AAAA, whose first bytes are sliced off the data.
unfoldable pub rr_text : PbRr → Outcome ⊥ Bytes
rr_text rr =
    if rr.type == 1
    then (slice 0 4 rr.rdata >>= λ addr. ok (ipv4_string addr))
    else if rr.type == 28
    then (slice 0 16 rr.rdata >>= λ addr. ok (ipv6_string addr))
    else ok rr.rdata

abbrev pub answer_of : PbRr → Bytes → DnsAnswer
answer_of rr text = record {
  name = rr.name;
  rdatatype = rdatatype_to_string rr.type;
  class = rr.class;
  ttl = rr.ttl;
  rdata = text;
}

-- "decode answers"
unfoldable pub rr_answers : List PbRr → Outcome ⊥ (List DnsAnswer)
rr_answers [] = ok []
rr_answers (rr ∷ rrs) =
    rr_text rr >>= λ text. rr_answers rrs >>= λ more. ok (answer_of rr text ∷ more)

abbrev nanoseconds : ℕ → ℕ → ℕ
nanoseconds sec usec = sec * 1000000000 + usec * 1000

abbrev has_odd_type : PbDnsMessage → Bool
has_odd_type m = m.type_number % 2 == 1

module _ (lib : Libraries) (pb : Pb) where
  abbrev or_from : Option Bytes → String → String
  or_from none old = old
  or_from (some addr) old = lib.texts.ip addr

  abbrev subnet_text : Bytes → String
  subnet_text ip = if length ip == 4 || length ip == 16 then lib.texts.ip ip else ""

  unfoldable pub read_network : PbDnsMessage → DnsMessage → DnsMessage
  unfolding ip_family pdns_operation
  read_network m dm = record dm {
    dns_tap = record (dm.dns_tap) {
      identity = m.server_identity;
      operation = pdns_operation m.type_name;
      time_sec = m.time_sec;
      time_nsec = m.time_usec;
    };
    network_info = record (dm.network_info) {
      family = ip_family m.socket_family;
      protocol = m.socket_protocol;
      query_ip = or_from m.from dm.network_info.query_ip;
      query_port = pb.decimal m.from_port;
      response_ip = lib.texts.ip m.to;
      response_port = pb.decimal m.to_port;
    };
    dns = record (dm.dns) { id = m.id; length = m.in_bytes };
  }

  -- A reply has the latency that its own times give, and its code.
  unfoldable pub read_type : PbDnsMessage → DnsMessage → DnsMessage
  read_type m dm =
      let elapsed =
        diff (pos (nanoseconds m.time_sec m.time_usec))
          (pos (nanoseconds m.query_time_sec m.query_time_usec)) in
      if has_odd_type m
      then record dm { dns = record (dm.dns) { type = dns_query } }
      else record dm {
        dns = record (dm.dns) { type = dns_reply; rcode = rcode_to_string m.rcode };
        dns_tap = record (dm.dns_tap) {
          latency = elapsed;
          latency_sec = lib.texts.seconds elapsed;
        };
      }

  unfoldable pub read_question : PbDnsMessage → DnsMessage → DnsMessage
  read_question m dm = record dm {
    dns = record (dm.dns) { qname = trim_dot m.qname; qtype = rdatatype_to_string m.qtype };
    power_dns = some (record {
      tags = m.tags;
      original_request_subnet = subnet_text m.original_requestor_subnet;
      applied_policy = m.applied_policy;
      metadata = m.meta;
    });
  }

  abbrev set_answers : List DnsAnswer → DnsMessage → DnsMessage
  set_answers l dm = record dm {
    dns = record (dm.dns) { dns_rrs = record (dm.dns.dns_rrs) { answers = l } };
  }

  unfoldable pub read_pdns : Transforms → PbDnsMessage → Outcome ⊥ DnsMessage
  read_pdns p m = do
    let dm =
        read_question m
          (stamp lib (read_type m (read_network m (init_dns_message_format p.config init))))
    answers ← rr_answers m.rrs
    ok (set_answers answers dm)

  abbrev unless_dropped : Transforms → DnsMessage → Code → Option DnsMessage
  unless_dropped p dm return_success = some dm
  unless_dropped p dm return_drop = none
  unless_dropped p dm return_error = some dm

  abbrev as_step : Result → Step
  as_step (ok (p, dm, code)) = ok (p, unless_dropped p dm code)
  as_step (err e) = err e
  as_step (panic c) = panic c

  abbrev packed : Transforms → DnsMessage → Option Bytes → Step
  packed p dm none = ok (p, none)
  packed p dm (some wire) = as_step (
      process_message lib.lookups lib.matchers p
        (record dm { dns = record (dm.dns) { payload = wire } }))

  abbrev handle_message : Transforms → Option PbDnsMessage → Step
  handle_message p none = ok (p, none)
  handle_message p (some m) = read_pdns p m >>= λ dm. packed p dm (pb.pack m)

  unfoldable pub handle_pdns : Transforms → Bytes → Step
  handle_pdns p bytes = handle_message p (pb.unmarshal bytes)

  unfoldable pub run_pdns :
      List String → Transforms → List Bytes → Outcome ⊥ (Transforms × List (String × DnsMessage))
  run_pdns send_to p frames = run_loop handle_pdns send_to p frames
