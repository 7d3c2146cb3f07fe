-- ===== src/Dns/Rdata/Total.antt =====
-- No record parser panics, whatever the packet holds.
use go_dns_collector.Base.{
  ℕ, ◌+◌, ◌-◌, ◌≤◌, String, ◌≡◌, arith, ltb, pos, length, drop, length-take, length-drop, Bytes,
  ◌>>=◌, Ensures, byte_at, uint32_at, slice, string_key, bytes_key, Ensures-bind, Ensures-guard,
  Ensures-uint16, Ensures-slice,
}
use go_dns_collector.Dns.Error.{DecodeError}
use go_dns_collector.Dns.Labels.{parse_labels}
use go_dns_collector.Dns.Labels.Bounds.{IsName, parse_labels-total}
use go_dns_collector.Dns.Rdata.{
  Text, parse_a, parse_aaaa, parse_cname, parse_ns, parse_ptr, parse_mx, parse_srv, parse_txt,
  soa_numbers, soa_rest, parse_soa, parse_rdata,
}

abbrev pub AnyError : DecodeError → Type 0
AnyError e = Unit

abbrev pub AnyBytes : Bytes → Type 0
AnyBytes b = Unit

-- Text or an error, but no panic.
abbrev Returns : Text → Type 0
Returns = Ensures AnyBytes AnyError

-- What follows a name is only asked about an end offset within the packet.
after_name :
    (offset : ℕ) (payload : Bytes) (f : Bytes × ℕ → Text)
    → ((r : Bytes × ℕ) → r.1 ≤ length payload → Returns (f r))
    → Returns (parse_labels (pos offset) payload >>= f)
after_name offset payload f h =
    Ensures-bind (IsName offset payload) AnyBytes AnyError (parse_labels (pos offset) payload) f
      (parse_labels-total offset payload) (λ r b. h r b.1)

a-Returns : (r : Bytes) → Returns (parse_a r)
unfolding parse_a slice
a-Returns r = ground arith

aaaa-Returns : (r : Bytes) → Returns (parse_aaaa r)
unfolding parse_aaaa slice
aaaa-Returns r = ground arith

txt-Returns : (r : Bytes) → Returns (parse_txt r)
unfolding parse_txt slice byte_at
txt-Returns r = ground arith

module _ (o : ℕ) (p : Bytes) where
  cname-Returns : Returns (parse_cname o p)
  unfolding parse_cname
  cname-Returns = after_name o p _ (λ r h. tt)

  ns-Returns : Returns (parse_ns o p)
  unfolding parse_ns
  ns-Returns = after_name o p _ (λ r h. tt)

  ptr-Returns : Returns (parse_ptr o p)
  unfolding parse_ptr
  ptr-Returns = after_name o p _ (λ r h. tt)

  mx-Returns : Returns (parse_mx o p)
  unfolding parse_mx
  mx-Returns = Ensures-guard AnyBytes AnyError (ltb (length p) (o + 3)) _ _ tt λ long.
      Ensures-uint16 AnyBytes AnyError o p _ (ground arith) (after_name (o + 2) p _ (λ r h. tt))

  srv-Returns : Returns (parse_srv o p)
  unfolding parse_srv
  srv-Returns = Ensures-guard AnyBytes AnyError (ltb (length p) (o + 7)) _ _ tt λ long.
      Ensures-uint16 AnyBytes AnyError o p _ (ground arith) (
        Ensures-uint16 AnyBytes AnyError (o + 2) p _ (ground arith) (
          Ensures-uint16 AnyBytes AnyError (o + 4) p _ (ground arith)
            (after_name (o + 6) p _ (λ r h. tt))))

soa_numbers-Returns :
    (ns mail rdata : Bytes) → length rdata ≡ 20 → Returns (soa_numbers ns mail rdata)
unfolding soa_numbers uint32_at
soa_numbers-Returns ns mail rdata h = ground arith

soa_rest-Returns : (ns mail : Bytes) (offset : ℕ) (p : Bytes) → Returns (soa_rest ns mail offset p)
unfolding soa_rest
soa_rest-Returns ns mail offset p =
    Ensures-guard AnyBytes AnyError (ltb (length p) (offset + 20)) _ _ tt λ long.
      Ensures-slice AnyBytes AnyError offset (offset + 20) p _ (omega arith) (ground arith) (
        soa_numbers-Returns ns mail _ (
          ground (arith, length-take (offset + 20 - offset) (drop offset p), length-drop offset p)))

soa-Returns : (o : ℕ) (p : Bytes) → Returns (parse_soa o p)
unfolding parse_soa
soa-Returns o p = after_name o p _ λ r h. after_name r.1 p _ λ s k. soa_rest-Returns r.0 s.0 s.1 p

-- On any record data, of any type, at any offset of any packet, ParseRdata returns a text or an
-- error: it never panics and always ends.
pub parse_rdata-total :
    (rdatatype : String) (rdata p : Bytes) (o : ℕ) → Returns (parse_rdata rdatatype rdata p o)
unfolding parse_rdata
parse_rdata-total rdatatype rdata p o = ground (
  arith,
  a-Returns rdata,
  aaaa-Returns rdata,
  cname-Returns o p,
  mx-Returns o p,
  srv-Returns o p,
  ns-Returns o p,
  txt-Returns rdata,
  ptr-Returns o p,
  soa-Returns o p,
)
