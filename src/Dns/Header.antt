-- ===== src/Dns/Header.antt =====
-- `DnsHeader` and `DecodeDns` of dnsutils/dns.go.
pub mod RoundTrip
use go_dns_collector.Base.{
  ◌>>=◌, ℕ, ◌/◌, ◌%◌, ◌^◌, ltb, if◌then◌else◌, length, Bytes, Outcome, ok, err, uint16_at,
}
use go_dns_collector.Dns.Error.{DecodeError, header_too_short}

pub record DnsHeader : Type 0 where
  pub id : ℕ
  pub qr : ℕ
  pub opcode : ℕ
  pub aa : ℕ
  pub tc : ℕ
  pub rd : ℕ
  pub ra : ℕ
  pub z : ℕ
  pub ad : ℕ
  pub cd : ℕ
  pub rcode : ℕ
  pub qdcount : ℕ
  pub ancount : ℕ
  pub nscount : ℕ
  pub arcount : ℕ

-- DnsHeader{}
abbrev pub zero_header : DnsHeader
zero_header = record {
  id = 0;
  qr = 0;
  opcode = 0;
  aa = 0;
  tc = 0;
  rd = 0;
  ra = 0;
  z = 0;
  ad = 0;
  cd = 0;
  rcode = 0;
  qdcount = 0;
  ancount = 0;
  nscount = 0;
  arcount = 0;
}

abbrev pub dns_len : ℕ
dns_len = 12

-- The error leaves the zero header in the caller's hands.
unfoldable pub decode_dns : Bytes → Outcome (DnsHeader × DecodeError) DnsHeader
decode_dns payload =
    if ltb (length payload) dns_len then err (zero_header, header_too_short) else do
      id ← uint16_at 0 payload
      flags ← uint16_at 2 payload
      qdcount ← uint16_at 4 payload
      ancount ← uint16_at 6 payload
      nscount ← uint16_at 8 payload
      arcount ← uint16_at 10 payload
      ok (record {
        id = id;
        qr = flags / 2 ^ 15;
        opcode = flags / 2 ^ 11 % 16;
        aa = flags / 2 ^ 10 % 2;
        tc = flags / 2 ^ 9 % 2;
        rd = flags / 2 ^ 8 % 2;
        ra = flags / 2 ^ 7 % 2;
        z = flags / 2 ^ 6 % 2;
        ad = flags / 2 ^ 5 % 2;
        cd = flags / 2 ^ 4 % 2;
        rcode = flags % 16;
        qdcount = qdcount;
        ancount = ancount;
        nscount = nscount;
        arcount = arcount;
      })
