-- ===== src/Dns/Header/RoundTrip.antt =====
-- `DecodeDns` against the header layout that dnsutils/dns.go draws (RFC 1035, section 4.1.1).
use go_dns_collector.Base.{
  ℕ, zero, suc, ◌+◌, ◌*◌, ◌/◌, ◌%◌, ◌^◌, ◌≤◌, ◌<◌, ◌≡◌, [], ◌∷◌, ◌++◌, arith, length, get_or, Bytes,
  IsBytes, Outcome, ok, err, panic, be16, uint16_at, string_key, bytes_key,
}
use go_dns_collector.Dns.Error.{DecodeError, header_too_short}
use go_dns_collector.Dns.Header.{DnsHeader, zero_header, dns_len, decode_dns}

abbrev encode16 : ℕ → Bytes
encode16 n = (n / 256) ∷ (n % 256) ∷ []

-- The flag bits in the order of the drawing, the most significant first.
abbrev flag_word : DnsHeader → ℕ
flag_word h =
    ((((((((h.qr * 16 + h.opcode) * 2 + h.aa) * 2 + h.tc) * 2 + h.rd) * 2 + h.ra) * 2 + h.z) * 2
            + h.ad)
          * 2
        + h.cd)
      * 16
    + h.rcode

abbrev pub encode_header : DnsHeader → Bytes
encode_header h =
    encode16 h.id
    ++ (encode16 (flag_word h)
        ++ (encode16 h.qdcount
            ++ (encode16 h.ancount ++ (encode16 h.nscount ++ encode16 h.arcount))))

-- Every field fits its bits.
pub record IsHeader (h : DnsHeader) : Type 0 where
  pub id : h.id < 2 ^ 16
  pub qr : h.qr < 2
  pub opcode : h.opcode < 16
  pub aa : h.aa < 2
  pub tc : h.tc < 2
  pub rd : h.rd < 2
  pub ra : h.ra < 2
  pub z : h.z < 2
  pub ad : h.ad < 2
  pub cd : h.cd < 2
  pub rcode : h.rcode < 16
  pub qdcount : h.qdcount < 2 ^ 16
  pub ancount : h.ancount < 2 ^ 16
  pub nscount : h.nscount < 2 ^ 16
  pub arcount : h.arcount < 2 ^ 16

word_of_bytes : (n : ℕ) → n / 256 * 256 + n % 256 ≡ n
word_of_bytes n = omega arith

module _ (h : DnsHeader) (v : IsHeader h) where
  high_flags :
      (flag_word h / 2 ^ 15 ≡ h.qr)
      × (flag_word h / 2 ^ 11 % 16 ≡ h.opcode)
      × (flag_word h / 2 ^ 10 % 2 ≡ h.aa)
      × (flag_word h / 2 ^ 9 % 2 ≡ h.tc)
      × (flag_word h / 2 ^ 8 % 2 ≡ h.rd)
  high_flags = omega arith

  low_flags :
      (flag_word h / 2 ^ 7 % 2 ≡ h.ra)
      × (flag_word h / 2 ^ 6 % 2 ≡ h.z)
      × (flag_word h / 2 ^ 5 % 2 ≡ h.ad)
      × (flag_word h / 2 ^ 4 % 2 ≡ h.cd)
      × (flag_word h % 16 ≡ h.rcode)
  low_flags = omega arith

-- Decoding a header that was laid out by the drawing gives its fields back, whatever follows.
pub decode_dns-encode_header :
    (h : DnsHeader) (rest : Bytes) → IsHeader h → decode_dns (encode_header h ++ rest) ≡ ok h
unfolding decode_dns uint16_at
decode_dns-encode_header h rest v =
    simp word_of_bytes (ground (arith, high_flags h v, low_flags h v))

abbrev pub Checked : Bytes → Outcome (DnsHeader × DecodeError) DnsHeader → Type 0
Checked payload (ok h) = (dns_len ≤ length payload) × IsHeader h
Checked payload (err (h, e)) =
    (length payload < dns_len) × (h ≡ zero_header) × (e ≡ header_too_short)
Checked payload (panic c) = ⊥

get_or-byte : (p : Bytes) (i : ℕ) → IsBytes p → get_or p i 0 < 256
get_or-byte [] i h = omega arith
get_or-byte (b ∷ p) zero h = h.0
get_or-byte (b ∷ p) (suc i) h = get_or-byte p i h.1

be16-lt : (p : Bytes) (i : ℕ) → IsBytes p → be16 i p < 2 ^ 16
be16-lt p i h = omega (arith, get_or-byte p i h, get_or-byte p (i + 1) h)

-- DecodeDns never panics. It fails exactly on packets shorter than twelve bytes, with the zero
-- header, and otherwise every field that it returns fits its bits.
pub decode_dns-Checked : (payload : Bytes) → IsBytes payload → Checked payload (decode_dns payload)
unfolding decode_dns uint16_at
decode_dns-Checked payload h = ground (
  arith,
  be16-lt payload 0 h,
  be16-lt payload 2 h,
  be16-lt payload 4 h,
  be16-lt payload 6 h,
  be16-lt payload 8 h,
  be16-lt payload 10 h,
)
