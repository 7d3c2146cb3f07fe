-- ===== src/Dns/Edns.antt =====
-- dnsutils/edns.go: `DecodeEDNS` and the parsers of the options.
pub mod Total
use go_dns_collector.Base.{
  ℕ, zero, suc, ◌+◌, ◌-◌, ◌*◌, ◌/◌, ◌%◌, ◌^◌, String, Bool, true, false, Option, none, some, List,
  [], ◌∷◌, ◌++◌, str_eq, ltb, leb, ◌==◌, if◌then◌else◌, pos, length, take, Bytes, codes, decimal,
  join, out_of_fuel, Outcome, ok, err, panic, ◌>>=◌, map_err, byte_at, uint16_at, uint32_at, slice,
  tail_length,
}
use go_dns_collector.Dns.Error.{
  DecodeError, answer_too_short, edns_bad_root_domain, edns_data_too_short, edns_option_too_short,
  edns_csubnet_bad_family, edns_too_many_opts,
}
use go_dns_collector.Dns.Address.{ipv4_string, ipv6_string}
use go_dns_collector.Dns.Labels.{parse_labels}
use go_dns_collector.Dns.Names.{lookup_int, error_codes, opt_code_to_string}
use go_dns_collector.Dns.Rdata.{Text}
use go_dns_collector.Message.{DnsOption, DnsExtended, zero_extended}

-- `ErrorCodeToString[code]`, or "-"
abbrev pub error_text : Option String → Bytes
error_text none = codes "-"
error_text (some s) = codes s

abbrev pub extra_text : Bytes → Bytes
extra_text [] = codes "-"
extra_text d = d

-- "%d %s %s"
unfoldable pub parse_errors : Bytes → Text
parse_errors d = if ltb (length d) 2 then err edns_option_too_short else do
  code ← uint16_at 0 d
  extra ← slice 2 (length d) d
  ok (
      join (codes " ")
        (decimal code ∷ error_text (lookup_int code error_codes) ∷ extra_text extra ∷ []))

zeros : ℕ → Bytes
zeros zero = []
zeros (suc n) = 0 ∷ zeros n

-- `addr := make(net.IP, n); copy(addr, d)`
unfoldable pub copy_into : ℕ → Bytes → Bytes
unfolding zeros
copy_into n d = take n (d ++ zeros n)

unfoldable pub parse_csubnet : Bytes → Text
unfolding copy_into
parse_csubnet d = if ltb (length d) 4 then err edns_option_too_short else do
  family ← uint16_at 0 d
  src_mask ← byte_at 2 d
  address ← slice 4 (length d) d
  if family == 1
      then ok (ipv4_string (copy_into 4 address) ++ (codes "/" ++ decimal src_mask))
      else if family == 2
      then ok
          (codes "[" ++ (ipv6_string (copy_into 16 address) ++ (codes "]/" ++ decimal src_mask)))
      else err edns_csubnet_bad_family

unfoldable pub parse_option : String → Bytes → Text
parse_option name opt =
    if str_eq name "ERRORS"
    then parse_errors opt
    else if str_eq name "CSUBNET"
    then parse_csubnet opt
    else ok (codes "-")

-- One option at `next`, and the offset behind it.
pub read_option : Bytes → ℕ → ℕ → List DnsOption → Outcome DecodeError (List DnsOption × ℕ)
read_option payload end_offset next options =
    if ltb (end_offset - next) 4 then err edns_option_too_short else do
      code ← uint16_at next payload
      size ← uint16_at (next + 2) payload
      if ltb end_offset (next + 4 + size) then err edns_data_too_short else do
        opt ← slice (next + 4) (next + 4 + size) payload
        text ← parse_option (opt_code_to_string code) opt
        ok (
          options ++ (record { code = code; name = opt_code_to_string code; value = text } ∷ []),
          next + 4 + size,
        )

-- `for { if offset_next >= end_offset { break } ... }` on fuel
pub read_options : ℕ → Bytes → ℕ → ℕ → List DnsOption → Outcome DecodeError (List DnsOption × ℕ)
read_options zero payload end_offset next options = panic out_of_fuel
read_options (suc fuel) payload end_offset next options =
    let more = read_option payload end_offset next options >>= λ (options', next').
    read_options fuel payload end_offset next' options' in
    if leb end_offset next then ok (options, next) else more

-- The variables of the loop over the records.
pub record Scan : Type 0 where
  pub edns : DnsExtended
  pub offset : ℕ
  pub options : List DnsOption
  pub found : Bool

abbrev pub EdnsError : Type 0
EdnsError = DnsExtended × ℕ × DecodeError

-- UDP payload size, extended rcode, version and flags
pub read_opt_header : Bytes → ℕ → DnsExtended → Outcome DecodeError DnsExtended
read_opt_header payload next edns = do
  udp_size ← uint16_at (next + 2) payload
  ttl ← uint32_at (next + 4) payload
  ok (record edns {
    udp_size = udp_size;
    extended_rcode = ttl / 2 ^ 24 * 2 ^ 4;
    version = ttl / 2 ^ 16 % 2 ^ 8;
    dnssec_ok = ttl / 2 ^ 15 % 2;
    z = ttl % 2 ^ 15;
  })

-- The options of an OPT record, and the offset behind them.
pub read_opt_data : Bytes → ℕ → List DnsOption → Outcome DecodeError (List DnsOption × ℕ)
read_opt_data payload next options = do
  rdlength ← uint16_at (next + 8) payload
  room ← tail_length (next + 10) payload
  if ltb room rdlength
      then err edns_data_too_short
      else read_options (rdlength + 1) payload (next + 10 + rdlength) (next + 10) options

-- An OPT record at `next`, whose name was `name`. The header's fields stay set when the rest fails.
pub read_opt : Bytes → Bytes → ℕ → Scan → Outcome EdnsError Scan
read_opt payload name next s =
    if s.found
    then err (s.edns, s.offset, edns_too_many_opts)
    else if ltb 0 (length name)
    then err (s.edns, s.offset, edns_bad_root_domain)
    else do
      edns ← map_err (λ e. (s.edns, s.offset, e)) (read_opt_header payload next s.edns)
      (options, past) ← map_err (λ e. (edns, s.offset, e)) (read_opt_data payload next s.options)
      ok (record {
        edns = record edns { options = options };
        offset = past;
        options = options;
        found = true;
      })

-- Any other record is passed over.
pub skip_record : Bytes → ℕ → Scan → Outcome DecodeError Scan
skip_record payload next s = do
  rdlength ← uint16_at (next + 8) payload
  room ← tail_length (next + 10) payload
  if ltb room rdlength
      then err edns_data_too_short
      else ok (record s { offset = next + 10 + rdlength })

pub record_type : Bytes → ℕ → Outcome DecodeError ℕ
record_type payload next = do
  left ← tail_length next payload
  if ltb left 10 then err answer_too_short else uint16_at next payload

pub read_record : Bytes → Scan → Outcome EdnsError Scan
read_record payload s = do
  (name, next) ← map_err (λ e. (s.edns, s.offset, e)) (parse_labels (pos s.offset) payload)
  t ← map_err (λ e. (s.edns, s.offset, e)) (record_type payload next)
  if t == 41
      then read_opt payload name next s
      else map_err (λ e. (s.edns, s.offset, e)) (skip_record payload next s)

-- for i := 0; i < arcount; i++
pub read_records : ℕ → Bytes → Scan → Outcome EdnsError Scan
read_records zero payload s = ok s
read_records (suc n) payload s = read_record payload s >>= read_records n payload

unfoldable pub decode_edns : ℕ → ℕ → Bytes → Outcome EdnsError (DnsExtended × ℕ)
unfolding read_records read_record record_type read_opt read_opt_header read_opt_data read_options
    read_option skip_record
decode_edns arcount start_offset payload = do
  s ←
      read_records arcount payload
        (record { edns = zero_extended; offset = start_offset; options = []; found = false })
  ok (s.edns, s.offset)
