-- ===== src/Collectors/Pdns/Records.antt =====
-- The records of a PowerDNS message: which of them the processor can read.
use go_dns_collector.Base.{
  String, ◌≡◌, refl, inl, inr, Bool, true, false, ◌&&◌, some, List, [], ◌∷◌, map, arith, leb, ◌==◌,
  if◌then◌else◌, Bool-cases, length, take, Bytes, out_of_range, ok, panic, slice, string_key,
  bytes_key,
}
use go_dns_collector.Dns.Address.{ipv4_string, ipv6_string}
use go_dns_collector.Transform.Chain.{Transforms}
use go_dns_collector.Collectors.Processor.{Libraries, run_loop}
use go_dns_collector.Collectors.Pdns.{
  PbRr, PbDnsMessage, Pb, rr_text, answer_of, rr_answers, read_pdns, handle_pdns, run_pdns,
}

-- The data are long enough for the address that the type asks for.
abbrev pub holds_address : PbRr → Bool
holds_address rr =
    if rr.type == 1
    then leb 4 (length rr.rdata)
    else if rr.type == 28
    then leb 16 (length rr.rdata)
    else true

abbrev pub all_hold : List PbRr → Bool
all_hold [] = true
all_hold (rr ∷ rrs) = holds_address rr && all_hold rrs

-- The text of the data, when they are long enough.
abbrev pub plain_text : PbRr → Bytes
plain_text rr =
    if rr.type == 1
    then ipv4_string (take 4 rr.rdata)
    else if rr.type == 28
    then ipv6_string (take 16 rr.rdata)
    else rr.rdata

rr_text_lem :
    (rr : PbRr) → rr_text rr ≡ (if holds_address rr then ok (plain_text rr) else panic out_of_range)
unfolding rr_text slice
rr_text_lem rr = ground arith

-- The records are read exactly when each A record has at least four bytes of data and each AAAA record
-- at least sixteen: then there is one answer for each, in their order, and otherwise the processor
-- panics, with no error that it could handle.
pub rr_answers_lem :
    (rrs : List PbRr)
    → rr_answers rrs ≡ (
        if all_hold rrs
        then ok (map (λ rr. answer_of rr (plain_text rr)) rrs)
        else panic out_of_range)
unfolding rr_answers
rr_answers_lem [] = refl
rr_answers_lem (rr ∷ rrs) = rw (rr_text_lem rr) (elim (Bool-cases (holds_address rr)) [
  | inr e ↦ rw e refl
  | inl e ↦ rw e (
      rw (rr_answers_lem rrs)
        (elim (Bool-cases (all_hold rrs)) [ inl k ↦ rw k refl | inr k ↦ rw k refl ]))
])

module _ (lib : Libraries) (pb : Pb) (p : Transforms) (m : PbDnsMessage) where
  read_pdns-panic : all_hold m.rrs ≡ false → read_pdns lib pb p m ≡ panic out_of_range
  unfolding read_pdns
  read_pdns-panic short = rw (rr_answers_lem m.rrs) (rw short refl)

  -- A PowerDNS message with an A record of fewer than four bytes of data, or an AAAA record of fewer
  -- than sixteen, ends the loop of the processor with a panic, whatever comes behind it.
  pub run_pdns-panic :
      (send_to : List String) (bytes : Bytes) (rest : List Bytes)
      → pb.unmarshal bytes ≡ some m
      → all_hold m.rrs ≡ false
      → run_pdns lib pb send_to p (bytes ∷ rest) ≡ panic out_of_range
  unfolding run_pdns handle_pdns run_loop
  run_pdns-panic send_to bytes rest e short = rw e (rw (read_pdns-panic short) refl)
