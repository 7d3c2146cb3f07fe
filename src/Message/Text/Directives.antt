-- ===== src/Message/Text/Directives.antt =====
-- What each directive of the text format that is no expression stands for, and that it is written.
use go_dns_collector.Base.{
  String, ◌≡◌, refl, ap, Bool, true, false, some, List, [], ◌∷◌, ◌++◌, if◌then◌else◌, length, Bytes,
  codes, bytes_eq, decimal, string_key, bytes_key, find,
}
use go_dns_collector.Message.{DnsMessage, DnsAnswer}
use go_dns_collector.Message.Text.{
  Formats, first_ttl, first_rdata, flag, csubnet_or_dash, qname_text, plain_fields,
}

pub data Directive : Type 0 where
  ttl answer edns_csubnet answercount id timestamp timestamp_rfc3339ns timestamp_unixms
        timestamp_unixus timestamp_unixns localtime identity version operation rcode queryip
        queryport responseip responseport family protocol size qname qtype latency malformed qr
        opcode tr df tc aa ra ad :
      Directive

abbrev pub name_of : Directive → Bytes
name_of ttl = codes "ttl"
name_of answer = codes "answer"
name_of edns_csubnet = codes "edns-csubnet"
name_of answercount = codes "answercount"
name_of id = codes "id"
name_of timestamp = codes "timestamp"
name_of timestamp_rfc3339ns = codes "timestamp-rfc3339ns"
name_of timestamp_unixms = codes "timestamp-unixms"
name_of timestamp_unixus = codes "timestamp-unixus"
name_of timestamp_unixns = codes "timestamp-unixns"
name_of localtime = codes "localtime"
name_of identity = codes "identity"
name_of version = codes "version"
name_of operation = codes "operation"
name_of rcode = codes "rcode"
name_of queryip = codes "queryip"
name_of queryport = codes "queryport"
name_of responseip = codes "responseip"
name_of responseport = codes "responseport"
name_of family = codes "family"
name_of protocol = codes "protocol"
name_of size = codes "length"
name_of qname = codes "qname"
name_of qtype = codes "qtype"
name_of latency = codes "latency"
name_of malformed = codes "malformed"
name_of qr = codes "qr"
name_of opcode = codes "opcode"
name_of tr = codes "tr"
name_of df = codes "df"
name_of tc = codes "tc"
name_of aa = codes "aa"
name_of ra = codes "ra"
name_of ad = codes "ad"

abbrev first : (DnsAnswer → Bytes) → List DnsAnswer → Bytes
first f [] = codes "-"
first f (a ∷ l) = f a

abbrev word_if : Bool → String → Bytes
word_if b word = if b then codes word else codes "-"

first_ttl_lem : (l : List DnsAnswer) → first_ttl l ≡ first (λ a. decimal a.ttl) l
first_ttl_lem [] = refl
first_ttl_lem (a ∷ l) = refl

first_rdata_lem : (l : List DnsAnswer) → first_rdata l ≡ first (λ a. a.rdata) l
first_rdata_lem [] = refl
first_rdata_lem (a ∷ l) = refl

flag_lem : (b : Bool) (word : String) → flag b word ≡ word_if b word
flag_lem true word = refl
flag_lem false word = refl

module _ (lib : Formats) (delimiter boundary : Bytes) (dm : DnsMessage) where
  abbrev pub value_of : Directive → Bytes
  value_of ttl = first (λ a. decimal a.ttl) dm.dns.dns_rrs.answers
  value_of answer = first (λ a. a.rdata) dm.dns.dns_rrs.answers
  value_of edns_csubnet = csubnet_or_dash dm.edns.options
  value_of answercount = decimal (length dm.dns.dns_rrs.answers)
  value_of id = decimal dm.dns.id
  value_of timestamp = codes dm.dns_tap.timestamp_rfc3339
  value_of timestamp_rfc3339ns = codes dm.dns_tap.timestamp_rfc3339
  value_of timestamp_unixms = lib.unix 3 dm.dns_tap.timestamp
  value_of timestamp_unixus = lib.unix 6 dm.dns_tap.timestamp
  value_of timestamp_unixns = lib.unix 9 dm.dns_tap.timestamp
  value_of localtime = lib.localtime dm.dns_tap.time_sec dm.dns_tap.time_nsec
  value_of identity = codes dm.dns_tap.identity
  value_of version = codes dm.dns_tap.version
  value_of operation = codes dm.dns_tap.operation
  value_of rcode = codes dm.dns.rcode
  value_of queryip = codes dm.network_info.query_ip
  value_of queryport = codes dm.network_info.query_port
  value_of responseip = codes dm.network_info.response_ip
  value_of responseport = codes dm.network_info.response_port
  value_of family = codes dm.network_info.family
  value_of protocol = codes dm.network_info.protocol
  value_of size = decimal dm.dns.length ++ codes "b"
  value_of qname = qname_text lib delimiter boundary dm dm.dns.qname
  value_of qtype = codes dm.dns.qtype
  value_of latency = codes dm.dns_tap.latency_sec
  value_of malformed = word_if dm.dns.malformed_packet "PKTERR"
  value_of qr = codes dm.dns.type
  value_of opcode = decimal dm.dns.opcode
  value_of tr = word_if dm.network_info.tcp_reassembled "TR"
  value_of df = word_if dm.network_info.ip_defragmented "DF"
  value_of tc = word_if dm.dns.flags.tc "TC"
  value_of aa = word_if dm.dns.flags.aa "AA"
  value_of ra = word_if dm.dns.flags.ra "RA"
  value_of ad = word_if dm.dns.flags.ad "AD"

  -- No directive hides another.
  pub find-name_of :
      (d : Directive)
      → find (name_of d) (plain_fields lib delimiter boundary dm) ≡ some (value_of d)
  unfolding find bytes_eq
  find-name_of ttl = ap some (first_ttl_lem dm.dns.dns_rrs.answers)
  find-name_of answer = ap some (first_rdata_lem dm.dns.dns_rrs.answers)
  find-name_of edns_csubnet = refl
  find-name_of answercount = refl
  find-name_of id = refl
  find-name_of timestamp = refl
  find-name_of timestamp_rfc3339ns = refl
  find-name_of timestamp_unixms = refl
  find-name_of timestamp_unixus = refl
  find-name_of timestamp_unixns = refl
  find-name_of localtime = refl
  find-name_of identity = refl
  find-name_of version = refl
  find-name_of operation = refl
  find-name_of rcode = refl
  find-name_of queryip = refl
  find-name_of queryport = refl
  find-name_of responseip = refl
  find-name_of responseport = refl
  find-name_of family = refl
  find-name_of protocol = refl
  find-name_of size = refl
  find-name_of qname = refl
  find-name_of qtype = refl
  find-name_of latency = refl
  find-name_of malformed = ap some (flag_lem dm.dns.malformed_packet "PKTERR")
  find-name_of qr = refl
  find-name_of opcode = refl
  find-name_of tr = ap some (flag_lem dm.network_info.tcp_reassembled "TR")
  find-name_of df = ap some (flag_lem dm.network_info.ip_defragmented "DF")
  find-name_of tc = ap some (flag_lem dm.dns.flags.tc "TC")
  find-name_of aa = ap some (flag_lem dm.dns.flags.aa "AA")
  find-name_of ra = ap some (flag_lem dm.dns.flags.ra "RA")
  find-name_of ad = ap some (flag_lem dm.dns.flags.ad "AD")
