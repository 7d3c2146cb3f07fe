-- ===== src/Dns/Rdata.antt =====
-- `ParseRdata` of dnsutils/dns.go and the parser of each record type.
pub mod Total
use go_dns_collector.Base.{
  ◌>>=◌, ℕ, ◌+◌, ◌-◌, ◌^◌, String, [], ◌∷◌, str_eq, ltb, if◌then◌else◌, pos, length, Bytes, codes,
  decimal, join, Outcome, ok, err, byte_at, uint16_at, uint32_at, slice,
}
use go_dns_collector.Dns.Error.{DecodeError, answer_rdata_too_short}
use go_dns_collector.Dns.Labels.{parse_labels}
use go_dns_collector.Dns.Address.{ipv4_string, ipv6_string}

abbrev pub Text : Type 0
Text = Outcome DecodeError Bytes

abbrev space : Bytes
space = codes " "

-- `%d` of int32(v)
pub int32_decimal : ℕ → Bytes
int32_decimal v = if ltb v (2 ^ 31) then decimal v else b'-' ∷ decimal (2 ^ 32 - v)

pub parse_a : Bytes → Text
parse_a r =
    if ltb (length r) 4
    then err answer_rdata_too_short
    else do addr ← slice 0 4 r; ok (ipv4_string addr)

pub parse_aaaa : Bytes → Text
parse_aaaa rdata =
    if ltb (length rdata) 16
    then err answer_rdata_too_short
    else do addr ← slice 0 16 rdata; ok (ipv6_string addr)

pub parse_cname : ℕ → Bytes → Text
parse_cname rdata_offset payload = do (cname, _) ← parse_labels (pos rdata_offset) payload; ok cname

pub parse_ns : ℕ → Bytes → Text
parse_ns rdata_offset payload = do (ns, _) ← parse_labels (pos rdata_offset) payload; ok ns

pub parse_ptr : ℕ → Bytes → Text
parse_ptr rdata_offset payload = do (ptr, _) ← parse_labels (pos rdata_offset) payload; ok ptr

-- "%d %s"
pub parse_mx : ℕ → Bytes → Text
parse_mx rdata_offset payload =
    if ltb (length payload) (rdata_offset + 3) then err answer_rdata_too_short else do
      pref ← uint16_at rdata_offset payload
      (host, _) ← parse_labels (pos (rdata_offset + 2)) payload
      ok (join space (decimal pref ∷ host ∷ []))

-- "%d %d %d %s"
pub parse_srv : ℕ → Bytes → Text
parse_srv rdata_offset payload =
    if ltb (length payload) (rdata_offset + 7) then err answer_rdata_too_short else do
      priority ← uint16_at rdata_offset payload
      weight ← uint16_at (rdata_offset + 2) payload
      port ← uint16_at (rdata_offset + 4) payload
      (target, _) ← parse_labels (pos (rdata_offset + 6)) payload
      ok (join space (decimal priority ∷ decimal weight ∷ decimal port ∷ target ∷ []))

pub parse_txt : Bytes → Text
parse_txt rdata = if ltb (length rdata) 1 then err answer_rdata_too_short else do
  size ← byte_at 0 rdata
  if ltb (length rdata - 1) size then err answer_rdata_too_short else slice 1 (size + 1) rdata

-- "%s %s %d %d %d %d %d", on the twenty bytes behind the two names
pub soa_numbers : Bytes → Bytes → Bytes → Text
soa_numbers primary_ns resp_mailbox rdata = do
  serial ← uint32_at 0 rdata
  refresh ← uint32_at 4 rdata
  retry ← uint32_at 8 rdata
  expire ← uint32_at 12 rdata
  minimum ← uint32_at 16 rdata
  ok (
      join space (
        primary_ns
        ∷ resp_mailbox
        ∷ decimal serial
        ∷ int32_decimal refresh
        ∷ int32_decimal retry
        ∷ int32_decimal expire
        ∷ decimal minimum
        ∷ []))

pub soa_rest : Bytes → Bytes → ℕ → Bytes → Text
soa_rest primary_ns resp_mailbox offset payload =
    if ltb (length payload) (offset + 20)
    then err answer_rdata_too_short
    else do rdata ← slice offset (offset + 20) payload; soa_numbers primary_ns resp_mailbox rdata

pub parse_soa : ℕ → Bytes → Text
parse_soa rdata_offset payload = do
  (primary_ns, offset) ← parse_labels (pos rdata_offset) payload
  (resp_mailbox, offset') ← parse_labels (pos offset) payload
  soa_rest primary_ns resp_mailbox offset' payload

-- Types with no parser are shown as "-".
pub parse_rdata : String → Bytes → Bytes → ℕ → Text
parse_rdata rdatatype rdata payload rdata_offset =
    if str_eq rdatatype "A"
    then parse_a rdata
    else if str_eq rdatatype "AAAA"
    then parse_aaaa rdata
    else if str_eq rdatatype "CNAME"
    then parse_cname rdata_offset payload
    else if str_eq rdatatype "MX"
    then parse_mx rdata_offset payload
    else if str_eq rdatatype "SRV"
    then parse_srv rdata_offset payload
    else if str_eq rdatatype "NS"
    then parse_ns rdata_offset payload
    else if str_eq rdatatype "TXT"
    then parse_txt rdata
    else if str_eq rdatatype "PTR"
    then parse_ptr rdata_offset payload
    else if str_eq rdatatype "SOA"
    then parse_soa rdata_offset payload
    else ok (codes "-")
