-- ===== src/Dns/Examples.antt =====
-- Runs of the decoders on concrete packets.
use go_dns_collector.Base.{
  ◌+◌, ◌≡◌, refl, [], ◌∷◌, arith, pos, Bytes, codes, join, ok, Ensures, string_key, bytes_key,
}
use go_dns_collector.Message.{DnsMessage, init}
use go_dns_collector.Dns.Labels.{parse_labels}
use go_dns_collector.Dns.Labels.Bounds.{IsName, Any, parse_labels-total}
use go_dns_collector.Dns.Labels.RoundTrip.{IsCompressed, parse_labels-encode, parse_labels-pointer}
use go_dns_collector.Dns.Header.{DnsHeader}
use go_dns_collector.Dns.Payload.{with_header, decode_payload}
use go_dns_collector.Dns.Payload.Total.{Keeps, Marks, decode_payload-total}

abbrev www : Bytes
www = codes "www"

abbrev fr : Bytes
fr = codes "fr"

-- A reply to `www.fr A` with one answer, whose name is a pointer, and one OPT record.
abbrev reply_header : DnsHeader
reply_header = record {
  id = 0x1234;
  qr = 1;
  opcode = 0;
  aa = 0;
  tc = 0;
  rd = 1;
  ra = 1;
  z = 0;
  ad = 0;
  cd = 0;
  rcode = 0;
  qdcount = 1;
  ancount = 1;
  nscount = 0;
  arcount = 1;
}

abbrev reply : Bytes
reply =
    0x12 ∷ 0x34 ∷ 0x81 ∷ 0x80 ∷ 0 ∷ 1 ∷ 0 ∷ 1 ∷ 0 ∷ 0 ∷ 0 ∷ 1 ∷ 3 ∷ b'w' ∷ b'w' ∷ b'w' ∷ 2 ∷ b'f'
    ∷ b'r' ∷ 0 ∷ 0 ∷ 1 ∷ 0 ∷ 1 ∷ 0xc0 ∷ 12 ∷ 0 ∷ 1 ∷ 0 ∷ 1 ∷ 0 ∷ 0 ∷ 0 ∷ 60 ∷ 0 ∷ 4 ∷ 192 ∷ 0 ∷ 2
    ∷ 1 ∷ 0 ∷ 0 ∷ 41 ∷ 4 ∷ 0xd0 ∷ 0 ∷ 0 ∷ 0x80 ∷ 0 ∷ 0 ∷ 0 ∷ []

abbrev with_payload : Bytes → DnsMessage
with_payload p = record init { dns = record (init.dns) { payload = p } }

parse_labels-total_example : Ensures (IsName 22 reply) Any (parse_labels (pos 22) reply)
parse_labels-total_example = parse_labels-total 22 reply

parse_labels-encode_example :
    parse_labels (pos 1) (7 ∷ 3 ∷ b'w' ∷ b'w' ∷ b'w' ∷ 2 ∷ b'f' ∷ b'r' ∷ 0 ∷ 9 ∷ [])
    ≡ ok (join (codes ".") (www ∷ fr ∷ []), 1 + 7 + 1)
parse_labels-encode_example =
    parse_labels-encode (7 ∷ []) (www ∷ fr ∷ []) (9 ∷ []) (omega arith) (omega arith)

abbrev compressed : Bytes
compressed = 2 ∷ b'f' ∷ b'r' ∷ 0 ∷ 3 ∷ b'w' ∷ b'w' ∷ b'w' ∷ 0xc0 ∷ 0 ∷ []

compressed-IsCompressed : IsCompressed compressed (2 ∷ b'f' ∷ b'r' ∷ 0 ∷ []) [] (www ∷ []) (fr ∷ [])
compressed-IsCompressed = record {
  rest = [];
  rest_back = 3 ∷ b'w' ∷ b'w' ∷ b'w' ∷ 0xc0 ∷ 0 ∷ [];
  packet = refl;
  packet_back = refl;
  labels = omega arith;
  labels_back = omega arith;
  before = omega arith;
  reachable = omega arith;
  short = omega arith;
}

parse_labels-pointer_example :
    parse_labels (pos 4) compressed ≡ ok (join (codes ".") (www ∷ fr ∷ []), 4 + 4 + 2)
parse_labels-pointer_example =
    parse_labels-pointer compressed (2 ∷ b'f' ∷ b'r' ∷ 0 ∷ []) [] (www ∷ []) (fr ∷ [])
      compressed-IsCompressed

decode_payload-total_example :
    Ensures
      (Keeps (with_header reply_header (with_payload reply)))
      (Marks (with_header reply_header (with_payload reply)))
      (decode_payload (with_payload reply) reply_header)
decode_payload-total_example = decode_payload-total (with_payload reply) reply_header refl
