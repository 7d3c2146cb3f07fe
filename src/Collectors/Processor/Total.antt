-- ===== src/Collectors/Processor/Total.antt =====
-- No step of a processor panics, and each leaves the parts that are not its own.
use go_dns_collector.Base.{
  ℕ, ◌+◌, ◌/◌, ◌^◌, ◌≤◌, String, ◌≡◌, refl, ◌∙◌, ◌⊎◌, inl, inr, true, false, Option, List, [], ◌∷◌,
  arith, ltb, if◌then◌else◌, le→leb, Bool-cases, length, Bytes, Outcome, ok, err, panic, Ensures,
  be16, uint16_at, Ensures-bind, Ensures-weaken,
}
use go_dns_collector.Dns.Error.{DecodeError, header_too_short}
use go_dns_collector.Dns.Header.{DnsHeader, zero_header, decode_dns}
use go_dns_collector.Dns.Payload.{
  Failure, mark, with_header, set_header, set_operation, decode_payload,
}
use go_dns_collector.Dns.Payload.Total.{Keeps, Marks, parts_of, decode_payload-total}
use go_dns_collector.Message.{DnsMessage}
use go_dns_collector.Transform.Chain.{Transforms}
use go_dns_collector.Transform.Process.{Result}
use go_dns_collector.Transform.Process.Ready.{
  Prepared, StaysPrepared, Suited, Suited-Keeps, Keeps-same,
}
use go_dns_collector.Transform.Process.Safe.{process_message-Suited}
use go_dns_collector.Collectors.Processor.{
  Libraries, Step, decode_header, or_logged, decode_body, as_step, finish, run_loop,
}

-- The payload and the parts of other components are those of `a`.
abbrev pub Decoded : DnsMessage → DnsMessage → Type 0
Decoded a b = (parts_of b ≡ parts_of a) × (b.dns.payload ≡ a.dns.payload)

pub Decoded-trans : (a b c : DnsMessage) → Decoded a b → Decoded b c → Decoded a c
Decoded-trans a b c (h, h') (k, k') = (k ∙ h, k' ∙ h')

ge_of_ltb : (a b : ℕ) → ltb a b ≡ false → b ≤ a
ge_of_ltb a b h = ground arith

word_at {ℓ} :
    {E : Type ℓ} (i : ℕ) (p : Bytes) → i + 2 ≤ length p → uint16_at {E = E} i p ≡ ok (be16 i p)
unfolding uint16_at
word_at i p h = rw (le→leb _ _ h) refl

decode_dns-short :
    (payload : Bytes)
    → ltb (length payload) 12 ≡ true
    → decode_dns payload ≡ err (zero_header, header_too_short)
unfolding decode_dns
decode_dns-short payload h = rw h refl

ok_of {ℓ} :
    {E A : Type ℓ} (P : A → Type 0) (r : Outcome E A)
    → Ensures P (λ e. ⊥) r
    → (a : A) × (r ≡ ok a) × P a
ok_of P (ok a) h = (a, refl, h)
ok_of P (err e) h = absurd h
ok_of P (panic c) h = absurd h

-- The QR bit of the header's second word.
abbrev pub qr_bit : Bytes → ℕ
qr_bit payload = be16 2 payload / 2 ^ 15

decode_dns-long :
    (payload : Bytes)
    → ltb (length payload) 12 ≡ false
    → Ensures (λ h. h.qr ≡ qr_bit payload) (λ e. ⊥) (decode_dns payload)
unfolding decode_dns
decode_dns-long payload h =
    let word : (i : ℕ)
        → i ≤ 10
        → uint16_at {E = DnsHeader × DecodeError} i payload ≡ ok (be16 i payload) =
      λ i le. word_at i payload (omega (arith, ge_of_ltb (length payload) 12 h, le)) in
    rw h (
      rw (word 0 (omega arith)) (
        rw (word 2 (omega arith)) (
          rw (word 4 (omega arith)) (
            rw (word 6 (omega arith))
              (rw (word 8 (omega arith)) (rw (word 10 (omega arith)) refl))))))

-- The header has the QR bit of a payload of twelve bytes or more. A shorter one has the zero header, and
-- marks the message.
abbrev pub Headed : DnsMessage → DnsHeader × DnsMessage → Type 0
Headed dm (header, dm') =
    if ltb (length dm.dns.payload) 12
    then (header ≡ zero_header) × (dm' ≡ mark dm)
    else (header.qr ≡ qr_bit dm.dns.payload) × (dm' ≡ dm)

pub decode_header-Headed : (dm : DnsMessage) → Ensures (Headed dm) (λ e. ⊥) (decode_header dm)
unfolding decode_header
decode_header-Headed dm = elim (Bool-cases (ltb (length dm.dns.payload) 12)) [
  | inl short ↦ rw (decode_dns-short dm.dns.payload short) (rw short (refl, refl))
  | inr long ↦
      let (h, e, qr) =
        ok_of (λ h. h.qr ≡ qr_bit dm.dns.payload) _ (decode_dns-long dm.dns.payload long) in
      rw e (rw long (qr, refl))
]

module _ (dm : DnsMessage) (header : DnsHeader) (dm' : DnsMessage)
    (h : Headed dm (header, dm')) where
  Headed-same : (dm' ≡ dm) ⊎ (dm' ≡ mark dm)
  Headed-same = elim (Bool-cases (ltb (length dm.dns.payload) 12)) [
    | inl short ↦ inr ((rw short at h).1)
    | inr long ↦ inl ((rw long at h).1)
  ]

  -- The mark leaves all that the transforms and the later stages read.
  pub marked_keeps :
      (dm'.network_info ≡ dm.network_info)
      × (dm'.dns.payload ≡ dm.dns.payload)
      × (dm'.geo ≡ dm.geo)
      × (dm'.public_suffix ≡ dm.public_suffix)
      × (dm'.dns.type ≡ dm.dns.type)
  marked_keeps = elim Headed-same [
    | inl e ↦ rw e (refl, refl, refl, refl, refl)
    | inr e ↦ rw e (refl, refl, refl, refl, refl)
  ]

with_header-Decoded : (header : DnsHeader) (dm : DnsMessage) → Decoded dm (with_header header dm)
unfolding with_header set_header set_operation
with_header-Decoded header dm = (ground arith, ground arith)

or_logged-Decoded :
    (dm : DnsMessage) (r : Outcome Failure DnsMessage)
    → Ensures (Keeps dm) (Marks dm) r
    → Ensures (Decoded dm) (λ e. ⊥) (or_logged r)
or_logged-Decoded dm (ok b) k = (k.parts, k.payload)
or_logged-Decoded dm (err (b, e)) k = (k.parts, k.payload)
or_logged-Decoded dm (panic c) k = absurd k

decode_payload-marked :
    (header : DnsHeader) (dm : DnsMessage)
    → dm.dns.malformed_packet ≡ true
    → decode_payload dm header ≡ ok dm
unfolding decode_payload
decode_payload-marked header dm h = rw h refl

pub decode_body-Decoded :
    (header : DnsHeader) (dm : DnsMessage) → Ensures (Decoded dm) (λ e. ⊥) (decode_body header dm)
unfolding decode_body
decode_body-Decoded header dm = elim (Bool-cases dm.dns.malformed_packet) [
  | inl marked ↦ rw (decode_payload-marked header dm marked) (refl, refl)
  | inr fresh ↦
      Ensures-weaken (Decoded (with_header header dm)) (Decoded dm) (λ e. ⊥) (λ e. ⊥) _
        (or_logged-Decoded (with_header header dm) _ (decode_payload-total dm header fresh))
        (λ b k. Decoded-trans dm (with_header header dm) b (with_header-Decoded header dm) k)
        (λ e k. k)
]

abbrev pub StepPrepared : Transforms × Option DnsMessage → Type 0
StepPrepared (p, out) = Prepared p

as_step-Prepared :
    (lib : Libraries) (r : Result)
    → Ensures StaysPrepared (λ e. ⊥) r
    → Ensures StepPrepared (λ e. ⊥) (as_step lib r)
as_step-Prepared lib (ok (p, dm, code)) h = h
as_step-Prepared lib (err e) h = h
as_step-Prepared lib (panic c) h = h

-- A message whose pointers are those of one that was initialised for the configuration.
pub finish-Prepared :
    (lib : Libraries) (p : Transforms) (a b : DnsMessage)
    → Prepared p
    → Suited p.active_transforms a
    → b.geo ≡ a.geo
    → b.public_suffix ≡ a.public_suffix
    → Ensures StepPrepared (λ e. ⊥) (finish lib p b)
unfolding finish
finish-Prepared lib p a b h s g e = as_step-Prepared lib _ (
    process_message-Suited lib.lookups lib.matchers p b h
      (Suited-Keeps p.active_transforms a b (Keeps-same a b g e) s))

abbrev pub LoopPrepared : Transforms × List (String × DnsMessage) → Type 0
LoopPrepared (p, sent) = Prepared p

pub run_loop-Prepared :
    {A : Type 0} (handle : Transforms → A → Step) (send_to : List String) (p : Transforms)
    (xs : List A)
    → ((q : Transforms) (x : A) → Prepared q → Ensures StepPrepared (λ e. ⊥) (handle q x))
    → Prepared p
    → Ensures LoopPrepared (λ e. ⊥) (run_loop handle send_to p xs)
unfolding run_loop
run_loop-Prepared handle send_to p [] step h = h
run_loop-Prepared handle send_to p (x ∷ xs) step h =
    Ensures-bind StepPrepared LoopPrepared (λ e. ⊥) (handle p x) _ (step p x h)
      (λ (p', out) h'.
        Ensures-bind LoopPrepared LoopPrepared (λ e. ⊥) (run_loop handle send_to p' xs) _
          (run_loop-Prepared handle send_to p' xs step h') (λ (q, sent) k. k))
