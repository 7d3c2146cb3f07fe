-- ===== src/Collectors/Examples.antt =====
-- Runs of the processors on concrete messages and frames.
use go_dns_collector.Base.{
  ◌≡◌, refl, none, some, [], ◌∷◌, map, arith, str_eq, if◌then◌else◌, Bytes, codes, bytes_eq,
  IsBytes, out_of_range, ok, panic, Ensures, string_key, bytes_key,
}
use go_dns_collector.Message.{DnsMessage, init}
use go_dns_collector.Transform.Samples.{matchers, lookups, all_on}
use go_dns_collector.Transform.Chain.{Transforms, new_transforms}
use go_dns_collector.Transform.Process.Safe.{new_transforms-Prepared}
use go_dns_collector.Collectors.Processor.{Libraries}
use go_dns_collector.Collectors.Processor.Total.{LoopPrepared}
use go_dns_collector.Collectors.DnsProcessor.{received, run_dns}
use go_dns_collector.Collectors.DnsProcessor.Directed.{
  Directed, received-Directed, run_dns-Prepared,
}
use go_dns_collector.Collectors.Dnstap.{Frame, Protobuf, run_dnstap}
use go_dns_collector.Collectors.Dnstap.Reads.{run_dnstap-Prepared}
use go_dns_collector.Collectors.Pdns.{PbRr, PbDnsMessage, Pb, answer_of, rr_answers, run_pdns}
use go_dns_collector.Collectors.Pdns.Records.{all_hold, plain_text, rr_answers_lem, run_pdns-panic}

abbrev libraries : Libraries
libraries = record {
  texts = record {
    rfc3339 = λ sec nsec. "2023";
    seconds = λ t. "0.000001";
    ip = λ addr. "192.0.2.1";
  };
  lookups = lookups;
  matchers = matchers;
}

-- A reply with an empty question section.
abbrev header_only : Bytes
header_only = 0 ∷ 7 ∷ 129 ∷ 0 ∷ 0 ∷ 0 ∷ 0 ∷ 0 ∷ 0 ∷ 0 ∷ 0 ∷ 0 ∷ []

header_only-IsBytes : IsBytes header_only
header_only-IsBytes = (
  omega arith,
  (
    omega arith,
    (
      omega arith,
      (
        omega arith,
        (
          omega arith,
          (
            omega arith,
            (
              omega arith,
              (omega arith, (omega arith, (omega arith, (omega arith, (omega arith, tt))))),
            ),
          ),
        ),
      ),
    ),
  ),
)

abbrev reply : DnsMessage
reply = record init {
  network_info = record (init.network_info) { query_ip = "192.0.2.53"; response_ip = "192.0.2.9" };
  dns = record (init.dns) { payload = header_only; length = 12 };
}

abbrev too_short : DnsMessage
too_short = record init { dns = record (init.dns) { payload = 1 ∷ 2 ∷ []; length = 2 } }

abbrev transforms : Transforms
transforms = new_transforms all_on

received-Directed_example : Ensures (Directed reply) (λ e. ⊥) (received libraries transforms reply)
received-Directed_example = received-Directed libraries transforms reply header_only-IsBytes

run_dns-Prepared_example :
    Ensures LoopPrepared
      (λ e. ⊥)
      (run_dns libraries ("file" ∷ []) transforms (reply ∷ too_short ∷ []))
run_dns-Prepared_example =
    run_dns-Prepared libraries ("file" ∷ []) transforms (reply ∷ too_short ∷ [])
      (new_transforms-Prepared all_on)

abbrev frame : Frame
frame = record {
  identity = "edge";
  version = "";
  message_type = "CLIENT_RESPONSE";
  socket_family = "INET";
  socket_protocol = "UDP";
  query_address = 192 ∷ 0 ∷ 2 ∷ 1 ∷ [];
  query_port = 5300;
  response_address = [];
  response_port = 0;
  query_message = [];
  query_time_sec = 0;
  query_time_nsec = 0;
  response_message = header_only;
  response_time_sec = 5;
  response_time_nsec = 6;
}

-- Only the frame of the bytes `1` is known.
abbrev protobuf : Protobuf
protobuf = record {
  unmarshal = λ b. if bytes_eq b (1 ∷ []) then some frame else none;
  type_value = λ name. if str_eq name "CLIENT_RESPONSE" then 6 else 5;
  decimal = λ n. "5300";
}

run_dnstap-Prepared_example :
    Ensures LoopPrepared
      (λ e. ⊥)
      (run_dnstap libraries protobuf ("file" ∷ []) transforms ((1 ∷ []) ∷ (2 ∷ []) ∷ []))
run_dnstap-Prepared_example =
    run_dnstap-Prepared libraries protobuf ("file" ∷ []) transforms ((1 ∷ []) ∷ (2 ∷ []) ∷ [])
      (new_transforms-Prepared all_on)

-- An address of three bytes.
abbrev short_record : PbRr
short_record = record {
  name = codes "nic.fr";
  type = 1;
  class = 1;
  ttl = 60;
  rdata = 192 ∷ 0 ∷ 2 ∷ [];
}

abbrev pdns_message : PbDnsMessage
pdns_message = record {
  server_identity = "edge";
  type_name = "DNSResponseType";
  type_number = 2;
  socket_family = "INET";
  socket_protocol = "UDP";
  from = none;
  from_port = 0;
  to = [];
  to_port = 53;
  id = 7;
  in_bytes = 12;
  time_sec = 5;
  time_usec = 6;
  query_time_sec = 5;
  query_time_usec = 5;
  rcode = 0;
  qname = codes "nic.fr.";
  qtype = 1;
  original_requestor_subnet = [];
  tags = [];
  applied_policy = "";
  meta = [];
  rrs = short_record ∷ [];
}

abbrev pb : Pb
pb = record {
  unmarshal = λ b. some pdns_message;
  decimal = λ n. "53";
  pack = λ m. some header_only;
}

rr_answers_lem_example : rr_answers (short_record ∷ []) ≡ (
    if all_hold (short_record ∷ [])
    then ok (map (λ rr. answer_of rr (plain_text rr)) (short_record ∷ []))
    else panic out_of_range)
rr_answers_lem_example = rr_answers_lem (short_record ∷ [])

run_pdns-panic_example :
    run_pdns libraries pb ("file" ∷ []) transforms ((1 ∷ []) ∷ []) ≡ panic out_of_range
run_pdns-panic_example =
    run_pdns-panic libraries pb transforms pdns_message ("file" ∷ []) (1 ∷ []) [] refl refl
