-- ===== src/Dns/Payload.antt =====
-- `DecodePayload` of dnsutils/dns.go, which fills a message from its payload. The message is
-- written through a pointer, so an error comes with the message as it was left.
pub mod Total
pub mod Marks
use go_dns_collector.Base.{
  ◌>>=◌, ℕ, String, Bool, true, false, ◌&&◌, ◌||◌, List, ltb, ◌==◌, if◌then◌else◌, Outcome, ok, err,
  panic,
}
use go_dns_collector.Dns.Error.{
  DecodeError, label_too_short, answer_too_short, answer_rdata_too_short, edns_data_too_short,
  edns_option_too_short,
}
use go_dns_collector.Dns.Header.{DnsHeader}
use go_dns_collector.Dns.Names.{rdatatype_to_string, rcode_to_string}
use go_dns_collector.Dns.Question.{Question, decode_question}
use go_dns_collector.Dns.Answer.{Answers, AnswerError, decode_answer}
use go_dns_collector.Dns.Edns.{EdnsError, decode_edns}
use go_dns_collector.Message.{DnsAnswer, DnsExtended, Dns, DnsMessage}

-- `decodingError`: the part of the packet and the wrapped error
pub record DecodingError : Type 0 where
  pub part : String
  pub cause : DecodeError

abbrev pub Failure : Type 0
Failure = DnsMessage × DecodingError

-- dm.DNS.MalformedPacket = true
abbrev pub mark : DnsMessage → DnsMessage
mark dm = record dm { dns = record (dm.dns) { malformed_packet = true } }

abbrev pub fail {ℓ} : {A : Type ℓ} → DnsMessage → String → DecodeError → Outcome Failure A
fail dm part e = err (mark dm, record { part = part; cause = e })

-- The errors of a cut record, which a truncated reply may have.
unfoldable pub is_cut : DecodeError → Bool
is_cut answer_too_short = true
is_cut answer_rdata_too_short = true
is_cut label_too_short = true
is_cut _ = false

unfoldable pub is_cut_edns : DecodeError → Bool
unfolding is_cut
is_cut_edns edns_data_too_short = true
is_cut_edns edns_option_too_short = true
is_cut_edns e = is_cut e

unfoldable pub set_operation : DnsHeader → DnsMessage → DnsMessage
set_operation header dm =
    if header.opcode == 5 && header.qr == 1
    then record dm { dns_tap = record (dm.dns_tap) { operation = "UPDATE_QUERY" } }
    else if header.opcode == 5 && header.qr == 0
    then record dm { dns_tap = record (dm.dns_tap) { operation = "UPDATE_RESPONSE" } }
    else dm

-- Each flag is set, never cleared.
unfoldable pub set_header : DnsHeader → DnsMessage → DnsMessage
set_header header dm = record dm {
  dns = record (dm.dns) {
    id = header.id;
    rcode = rcode_to_string header.rcode;
    opcode = header.opcode;
    flags = record (dm.dns.flags) {
      qr = header.qr == 1 || dm.dns.flags.qr;
      tc = header.tc == 1 || dm.dns.flags.tc;
      aa = header.aa == 1 || dm.dns.flags.aa;
      ra = header.ra == 1 || dm.dns.flags.ra;
      ad = header.ad == 1 || dm.dns.flags.ad;
    };
  };
}

-- The message when the header has been copied into it.
unfoldable pub with_header : DnsHeader → DnsMessage → DnsMessage
with_header header dm = set_operation header (set_header header dm)

abbrev question_result :
    DnsMessage → Outcome DecodeError Question → Outcome Failure (DnsMessage × ℕ)
question_result dm (ok q) = ok (
  record dm { dns = record (dm.dns) { qname = q.qname; qtype = rdatatype_to_string q.qtype } },
  q.offset,
)
question_result dm (err e) = fail dm "query" e
question_result dm (panic c) = panic c

pub decode_query : DnsHeader → DnsMessage → Outcome Failure (DnsMessage × ℕ)
decode_query header dm =
    if ltb 0 header.qdcount
    then question_result dm (decode_question header.qdcount dm.dns.payload)
    else ok (dm, 0)

-- Where the records of a section go.
abbrev pub Setter : Type 0
Setter = List DnsAnswer → DnsMessage → DnsMessage

abbrev pub set_answers : Setter
set_answers l dm = record dm {
  dns = record (dm.dns) { dns_rrs = record (dm.dns.dns_rrs) { answers = l } };
}

abbrev pub set_nameservers : Setter
set_nameservers l dm = record dm {
  dns = record (dm.dns) { dns_rrs = record (dm.dns.dns_rrs) { nameservers = l } };
}

abbrev pub set_records : Setter
set_records l dm = record dm {
  dns = record (dm.dns) { dns_rrs = record (dm.dns.dns_rrs) { records = l } };
}

abbrev section_result :
    Setter → String → DnsMessage → Outcome AnswerError Answers → Outcome Failure (DnsMessage × ℕ)
section_result put part dm (ok r) = ok (put r.answers dm, r.offset)
section_result put part dm (err (r, e)) =
    if dm.dns.flags.tc && is_cut e then ok (put r.answers (mark dm), r.offset) else fail dm part e
section_result put part dm (panic c) = panic c

-- `if count > 0 { ... }`, the same for the three sections of records
pub decode_section : Setter → String → ℕ → DnsMessage → ℕ → Outcome Failure (DnsMessage × ℕ)
decode_section put part count dm offset =
    if ltb 0 count
    then section_result put part dm (decode_answer count offset dm.dns.payload)
    else ok (dm, offset)

abbrev edns_result : DnsMessage → Outcome EdnsError (DnsExtended × ℕ) → Outcome Failure DnsMessage
edns_result dm (ok (edns, _)) = ok (record dm { edns = edns })
edns_result dm (err (edns, _, e)) =
    if dm.dns.flags.tc && is_cut_edns e
    then ok (record (mark dm) { edns = edns })
    else fail dm "edns options" e
edns_result dm (panic c) = panic c

-- The additional records are read twice, from the same offset.
pub decode_additional : DnsHeader → DnsMessage → ℕ → Outcome Failure DnsMessage
decode_additional header dm offset =
    if ltb 0 header.arcount
    then (do
      (dm', _) ← decode_section set_records "additional records" header.arcount dm offset
      edns_result dm' (decode_edns header.arcount offset dm'.dns.payload))
    else ok dm

pub decode_sections : DnsHeader → DnsMessage → Outcome Failure DnsMessage
decode_sections header dm = do
  (asked, past_query) ← decode_query header dm
  (answered, past_answers) ←
      decode_section set_answers "answer records" header.ancount asked past_query
  (served, past_servers) ←
      decode_section set_nameservers "authority records" header.nscount answered past_answers
  decode_additional header served past_servers

unfoldable pub decode_payload : DnsMessage → DnsHeader → Outcome Failure DnsMessage
decode_payload dm header =
    if dm.dns.malformed_packet then ok dm else decode_sections header (with_header header dm)
