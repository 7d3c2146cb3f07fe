-- ===== src/Collectors/DnsProcessor/Directed.antt =====
-- Which way a message went, and that the processor treats every packet.
use go_dns_collector.Base.{
  ℕ, zero, suc, ◌<◌, String, ◌≡◌, refl, sym, ap, ◌∙◌, subst, inl, inr, Bool, false, List, [], ◌∷◌,
  arith, ltb, leb, ◌==◌, if◌then◌else◌, Bool-cases, length, get_or, Bytes, IsBytes, Ensures,
  Ensures-bind, Ensures-weaken,
}
use go_dns_collector.Dns.Header.{DnsHeader}
use go_dns_collector.Message.{DnsMessage, DnsNetInfo, dns_query, dns_reply}
use go_dns_collector.Transform.Config.{ConfigTransformers}
use go_dns_collector.Transform.Suspicious.{init_suspicious}
use go_dns_collector.Transform.Chain.{Transforms, init_geo, init_suffix, init_dns_message_format}
use go_dns_collector.Transform.Process.Ready.{Prepared}
use go_dns_collector.Transform.Process.Safe.{Suited-init}
use go_dns_collector.Collectors.Processor.{Libraries, decode_header, stamp}
use go_dns_collector.Collectors.Processor.Total.{
  Decoded, qr_bit, Headed, decode_header-Headed, decode_body-Decoded, StepPrepared, finish-Prepared,
  LoopPrepared, run_loop-Prepared, marked_keeps,
}
use go_dns_collector.Collectors.DnsProcessor.{set_direction, received, handle_dns, run_dns}

-- A packet with a header whose QR bit, the highest bit of the third byte, is set.
abbrev pub is_reply : Bytes → Bool
is_reply payload = if ltb (length payload) 12 then false else leb 128 (get_or payload 2 0)

abbrev pub turned : DnsNetInfo → DnsNetInfo
turned n = record n {
  query_ip = n.response_ip;
  query_port = n.response_port;
  response_ip = n.query_ip;
  response_port = n.query_port;
}

abbrev pub Directed : DnsMessage → DnsMessage → Type 0
Directed dm dm' =
    (dm'.dns.type ≡ (if is_reply dm.dns.payload then dns_reply else dns_query))
    × (dm'.network_info
        ≡ (if is_reply dm.dns.payload then turned dm.network_info else dm.network_info))
    × (dm'.dns.payload ≡ dm.dns.payload)

byte_of : (p : Bytes) (i : ℕ) → IsBytes p → get_or p i 0 < 256
byte_of [] i h = omega arith
byte_of (b ∷ p) zero h = h.0
byte_of (b ∷ p) (suc i) h = byte_of p i h.1

qr_bit-is_reply : (p : Bytes) → IsBytes p → ltb (length p) 12 ≡ false → (qr_bit p == 1) ≡ is_reply p
qr_bit-is_reply p h long = rw long (ground (arith, byte_of p 2 h, byte_of p 3 h))

-- What comes before the transforms leaves the ends of the message and its payload.
init_keeps :
    (c : ConfigTransformers) (dm : DnsMessage)
    → ((init_dns_message_format c dm).network_info ≡ dm.network_info)
      × ((init_dns_message_format c dm).dns.payload ≡ dm.dns.payload)
unfolding init_dns_message_format init_geo init_suffix init_suspicious
init_keeps c dm = (ground arith, ground arith)

set_direction_keeps :
    (header : DnsHeader) (dm : DnsMessage)
    → ((set_direction header dm).dns.type ≡ (if header.qr == 1 then dns_reply else dns_query))
      × ((set_direction header dm).network_info
          ≡ (if header.qr == 1 then turned dm.network_info else dm.network_info))
      × ((set_direction header dm).dns.payload ≡ dm.dns.payload)
      × ((set_direction header dm).geo ≡ dm.geo)
      × ((set_direction header dm).public_suffix ≡ dm.public_suffix)
unfolding set_direction
set_direction_keeps header dm =
    (ground arith, ground arith, ground arith, ground arith, ground arith)

module _ (dm : DnsMessage) (header : DnsHeader) (dm' : DnsMessage)
    (h : Headed dm (header, dm')) where
  Headed-reply : IsBytes dm.dns.payload → (header.qr == 1) ≡ is_reply dm.dns.payload
  Headed-reply bytes = elim (Bool-cases (ltb (length dm.dns.payload) 12)) [
    | inl short ↦ rw short (ap (λ k. k.qr == 1) (rw short at h).0)
    | inr long ↦ ap (λ q. q == 1) (rw long at h).0 ∙ qr_bit-is_reply dm.dns.payload bytes long
  ]

module _ (lib : Libraries) (p : Transforms) (dm : DnsMessage) where
  abbrev arrived : DnsMessage
  arrived = stamp lib (init_dns_message_format p.config dm)

  arrived_keeps :
      (arrived.network_info ≡ dm.network_info)
      × (arrived.dns.payload ≡ dm.dns.payload)
      × (arrived.geo ≡ (init_dns_message_format p.config dm).geo)
      × (arrived.public_suffix ≡ (init_dns_message_format p.config dm).public_suffix)
  unfolding stamp
  arrived_keeps = let (n, q) = init_keeps p.config dm in (n, q, refl, refl)

  -- For a message whose payload is of bytes, what goes to the transforms is a reply exactly when its
  -- payload has a header with the QR bit set, and then its two ends have changed places; its payload
  -- is the one that came in. Nothing panics.
  pub received-Directed :
      IsBytes dm.dns.payload → Ensures (Directed dm) (λ e. ⊥) (received lib p dm)
  unfolding received
  received-Directed bytes =
      Ensures-bind (Headed arrived) (Directed dm) (λ e. ⊥) (decode_header arrived) _
        (decode_header-Headed arrived)
        (λ (header, dm') h.
          Ensures-weaken (Decoded (set_direction header dm')) (Directed dm) (λ e. ⊥) (λ e. ⊥) _
            (decode_body-Decoded header (set_direction header dm'))
            (λ b (parts, payload).
              let k = set_direction_keeps header dm' in
              let m = marked_keeps arrived header dm' h in
              let way =
                Headed-reply arrived header dm' h (subst IsBytes (sym arrived_keeps.1) bytes) in
              let reply : (header.qr == 1) ≡ is_reply dm.dns.payload =
                way ∙ ap is_reply arrived_keeps.1 in
              (
                ap (λ x. x.4) parts ∙ (k.0 ∙ ap (λ r. if r then dns_reply else dns_query) reply),
                ap (λ x. x.0) parts
                    ∙ (k.1
                        ∙ (ap (λ r. if r then turned dm'.network_info else dm'.network_info) reply
                            ∙ ap (λ n. if is_reply dm.dns.payload then turned n else n)
                                (m.0 ∙ arrived_keeps.0))),
                payload ∙ (k.2 ∙ (m.1 ∙ arrived_keeps.1)),
              ))
            (λ e k. k))

  abbrev Ready : DnsMessage → Type 0
  Ready b =
      (b.geo ≡ (init_dns_message_format p.config dm).geo)
      × (b.public_suffix ≡ (init_dns_message_format p.config dm).public_suffix)

  received-Ready : Ensures Ready (λ e. ⊥) (received lib p dm)
  unfolding received
  received-Ready =
      Ensures-bind (Headed arrived) Ready (λ e. ⊥) (decode_header arrived) _
        (decode_header-Headed arrived)
        (λ (header, dm') h.
          Ensures-weaken (Decoded (set_direction header dm')) Ready (λ e. ⊥) (λ e. ⊥) _
            (decode_body-Decoded header (set_direction header dm'))
            (λ b (parts, payload).
              let k = set_direction_keeps header dm' in
              let m = marked_keeps arrived header dm' h in
              (
                ap (λ x. x.1) parts ∙ (k.3 ∙ (m.2 ∙ arrived_keeps.2)),
                ap (λ x. x.2) parts ∙ (k.4 ∙ (m.3 ∙ arrived_keeps.3)),
              ))
            (λ e k. k))

  handle_dns-Prepared : Prepared p → Ensures StepPrepared (λ e. ⊥) (handle_dns lib p dm)
  unfolding handle_dns
  handle_dns-Prepared h =
      Ensures-bind Ready StepPrepared (λ e. ⊥) (received lib p dm) _ received-Ready
        (λ b (g, s).
          finish-Prepared lib p (init_dns_message_format p.config dm) b h (Suited-init p dm h) g s)

-- Whatever messages come in, with whatever payloads, addresses and times, in whatever order, and
-- whatever the configuration and the answers of the libraries are, the loop of the processor never
-- panics, if it starts with the transforms that Prepare lists; and it keeps them.
pub run_dns-Prepared :
    (lib : Libraries) (send_to : List String) (p : Transforms) (dms : List DnsMessage)
    → Prepared p
    → Ensures LoopPrepared (λ e. ⊥) (run_dns lib send_to p dms)
unfolding run_dns
run_dns-Prepared lib send_to p dms h =
    run_loop-Prepared (handle_dns lib) send_to p dms (λ q dm h'. handle_dns-Prepared lib q dm h') h
