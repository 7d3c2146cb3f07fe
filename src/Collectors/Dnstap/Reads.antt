-- ===== src/Collectors/Dnstap/Reads.antt =====
-- What a dnstap frame becomes, and that the processor treats every frame.
use go_dns_collector.Base.{
  ◌%◌, String, ◌≡◌, refl, ap, ◌∙◌, inl, inr, Bool, Option, none, some, List, str_eq, ◌==◌,
  if◌then◌else◌, Bool-cases, Bytes, Ensures, Ensures-bind, Ensures-weaken,
}
use go_dns_collector.Message.{DnsMessage, init, dns_query, dns_reply}
use go_dns_collector.Transform.Quiet.{shorten, ip_version, quiet_text}
use go_dns_collector.Transform.Chain.{Transforms, init_dns_message_format}
use go_dns_collector.Transform.Process.Ready.{Prepared}
use go_dns_collector.Transform.Process.Safe.{Suited-init}
use go_dns_collector.Collectors.Processor.{Libraries, decode_header, stamp}
use go_dns_collector.Collectors.Processor.Total.{
  Decoded, Headed, decode_header-Headed, decode_body-Decoded, StepPrepared, finish-Prepared,
  LoopPrepared, run_loop-Prepared, marked_keeps,
}
use go_dns_collector.Collectors.Dnstap.{
  Frame, Protobuf, ip_family, read_ends, read_side, read_frame, received_frame, handle_frame,
  handle_dnstap, run_dnstap,
}

module _ (lib : Libraries) (proto : Protobuf) where
  abbrev pub is_query : Frame → Bool
  is_query f = proto.type_value f.message_type % 2 == 1

  read_frame_keeps :
      (p : Transforms) (f : Frame)
      → ((read_frame lib proto p f).dns.type ≡ (if is_query f then dns_query else dns_reply))
        × ((read_frame lib proto p f).dns.payload
            ≡ (if is_query f then f.query_message else f.response_message))
        × ((read_frame lib proto p f).network_info.family ≡ ip_family f.socket_family)
        × ((read_frame lib proto p f).geo ≡ (init_dns_message_format p.config init).geo)
        × ((read_frame lib proto p f).public_suffix
            ≡ (init_dns_message_format p.config init).public_suffix)
  unfolding read_frame read_side read_ends stamp
  read_frame_keeps p f = elim (Bool-cases (is_query f)) [
    | inl e ↦ rw e (refl, refl, refl, refl, refl)
    | inr e ↦ rw e (refl, refl, refl, refl, refl)
  ]

  -- The side of the frame that its type names, and the family under its new name.
  abbrev pub OfFrame : Frame → DnsMessage → Type 0
  OfFrame f dm =
      (dm.dns.type ≡ (if is_query f then dns_query else dns_reply))
      × (dm.dns.payload ≡ (if is_query f then f.query_message else f.response_message))
      × (dm.network_info.family ≡ ip_family f.socket_family)

  abbrev Ready : Transforms → DnsMessage → Type 0
  Ready p dm =
      (dm.geo ≡ (init_dns_message_format p.config init).geo)
      × (dm.public_suffix ≡ (init_dns_message_format p.config init).public_suffix)

  received_frame-Both :
      (p : Transforms) (f : Frame)
      → Ensures (λ dm. OfFrame f dm × Ready p dm) (λ e. ⊥) (received_frame lib proto p f)
  unfolding received_frame
  received_frame-Both p f =
      let dm₀ = read_frame lib proto p f in
      Ensures-bind (Headed dm₀) (λ dm. OfFrame f dm × Ready p dm) (λ e. ⊥) (decode_header dm₀) _
        (decode_header-Headed dm₀)
        (λ (header, dm') h.
          Ensures-weaken (Decoded dm') (λ dm. OfFrame f dm × Ready p dm) (λ e. ⊥) (λ e. ⊥) _
            (decode_body-Decoded header dm')
            (λ b (parts, payload).
              let k = read_frame_keeps p f in
              let m = marked_keeps dm₀ header dm' h in
              (
                (
                  ap (λ x. x.4) parts ∙ (m.4 ∙ k.0),
                  payload ∙ (m.1 ∙ k.1),
                  ap (λ x. x.0.family) parts ∙ (ap (λ n. n.family) m.0 ∙ k.2),
                ),
                (ap (λ x. x.1) parts ∙ (m.2 ∙ k.3), ap (λ x. x.2) parts ∙ (m.3 ∙ k.4)),
              ))
            (λ e k. k))

  -- A frame whose message type has an odd number gives a query with the frame's query message as its
  -- payload, any other a reply with the response message, in each case whether or not the payload can
  -- be decoded; the family is IPv4 for INET, IPv6 for INET6 and UNKNOWN for any other name.
  pub received_frame-OfFrame :
      (p : Transforms) (f : Frame) → Ensures (OfFrame f) (λ e. ⊥) (received_frame lib proto p f)
  received_frame-OfFrame p f =
      Ensures-weaken (λ dm. OfFrame f dm × Ready p dm) (OfFrame f) (λ e. ⊥) (λ e. ⊥) _
        (received_frame-Both p f) (λ dm h. h.0) (λ e h. h)

  handle_frame-Prepared :
      (p : Transforms) (o : Option Frame)
      → Prepared p
      → Ensures StepPrepared (λ e. ⊥) (handle_frame lib proto p o)
  handle_frame-Prepared p none h = h
  handle_frame-Prepared p (some f) h =
      Ensures-bind (λ dm. OfFrame f dm × Ready p dm) StepPrepared (λ e. ⊥)
        (received_frame lib proto p f) _ (received_frame-Both p f)
        (λ b (_, (g, s)).
          finish-Prepared lib p (init_dns_message_format p.config init) b h (Suited-init p init h) g
            s)

  -- Whatever byte strings come in, whatever frames they stand for, and whatever the configuration and
  -- the answers of the libraries are, the loop of the processor never panics, if it starts with the
  -- transforms that Prepare lists; and it keeps them.
  pub run_dnstap-Prepared :
      (send_to : List String) (p : Transforms) (frames : List Bytes)
      → Prepared p
      → Ensures LoopPrepared (λ e. ⊥) (run_dnstap lib proto send_to p frames)
  unfolding run_dnstap handle_dnstap
  run_dnstap-Prepared send_to p frames h =
      run_loop-Prepared _ send_to p frames
        (λ q x h'. handle_frame-Prepared q (proto.unmarshal x) h') h

-- No name of a family that a dnstap frame gets has a short form.
long_family : (s : String) → shorten ip_version (ip_family s) ≡ ip_family s
unfolding ip_family shorten ip_version
long_family s = elim (Bool-cases (str_eq s "INET")) [
  | inl e ↦ rw e refl
  | inr e ↦ rw e (elim (Bool-cases (str_eq s "INET6")) [ inl k ↦ rw k refl | inr k ↦ rw k refl ])
]

-- Quiet text leaves the family of every message that came from a dnstap frame as it is: the names
-- that it shortens are INET and INET6, and the processor has replaced them.
pub quiet_text-family :
    (lib : Libraries) (proto : Protobuf) (p : Transforms) (f : Frame)
    → (quiet_text (read_frame lib proto p f)).network_info.family
      ≡ (read_frame lib proto p f).network_info.family
unfolding quiet_text
quiet_text-family lib proto p f =
    let e = (read_frame_keeps lib proto p f).2 in rw e (long_family f.socket_family)
