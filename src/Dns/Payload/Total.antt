-- ===== src/Dns/Payload/Total.antt =====
-- `DecodePayload` on every message: no panic, and what each stage leaves alone.
use go_dns_collector.Base.{
  ℕ, ◌+◌, ◌*◌, ◌≤◌, String, ◌≡◌, refl, ◌∙◌, inl, inr, Bool, true, false, not, ◌&&◌, ◌||◌, Option,
  List, arith, ltb, Bool-cases, length, Bytes, Outcome, ok, err, panic, ◌>>=◌, Ensures,
  Ensures-bind, Ensures-else, Ensures-weaken,
}
use go_dns_collector.Dns.Error.{DecodeError}
use go_dns_collector.Dns.Header.{DnsHeader}
use go_dns_collector.Dns.Question.{Question, decode_question}
use go_dns_collector.Dns.Question.Total.{decode_question-total}
use go_dns_collector.Dns.Answer.{Answers, AnswerError, decode_answer}
use go_dns_collector.Dns.Answer.Total.{Decoded, Truncated, decode_answer-total}
use go_dns_collector.Dns.Edns.{EdnsError, decode_edns}
use go_dns_collector.Dns.Edns.Total.{decode_edns-total}
use go_dns_collector.Message.{
  DnsAnswer, DnsMessage, DnsExtended, DnsNetInfo, DnsGeo, PublicSuffix, Suspicious,
}
use go_dns_collector.Dns.Payload.{
  Failure, Setter, mark, is_cut, is_cut_edns, with_header, question_result, decode_query,
  section_result, set_answers, set_nameservers, set_records, decode_section, edns_result,
  decode_additional, decode_sections, decode_payload,
}

-- The parts of a message that other components fill.
abbrev pub parts_of :
    DnsMessage → DnsNetInfo × Option DnsGeo × Option PublicSuffix × Option Suspicious × String
parts_of dm = (dm.network_info, dm.geo, dm.public_suffix, dm.suspicious, dm.dns.type)

-- What the stages behind the header do to a message.
pub record Keeps (a b : DnsMessage) : Type 0 where
  pub payload : b.dns.payload ≡ a.dns.payload
  pub flags : b.dns.flags ≡ a.dns.flags
  pub operation : b.dns_tap.operation ≡ a.dns_tap.operation
  pub parts : parts_of b ≡ parts_of a
  -- a new mark only under the truncation flag
  pub marked : (b.dns.malformed_packet && not (a.dns.malformed_packet || a.dns.flags.tc)) ≡ false

Keeps-trans : {a b c : DnsMessage} → Keeps a b → Keeps b c → Keeps a c
Keeps-trans h k = record {
  payload = k.payload ∙ h.payload;
  flags = k.flags ∙ h.flags;
  operation = k.operation ∙ h.operation;
  parts = k.parts ∙ h.parts;
  marked = ground (arith, k.marked, h.marked, h.flags);
}

-- A failure marks the message as malformed, and leaves its payload and flags.
pub record Marks (a : DnsMessage) (f : Failure) : Type 0 where
  pub payload : (f.0).dns.payload ≡ a.dns.payload
  pub flags : (f.0).dns.flags ≡ a.dns.flags
  pub operation : (f.0).dns_tap.operation ≡ a.dns_tap.operation
  pub parts : parts_of (f.0) ≡ parts_of a
  pub malformed : (f.0).dns.malformed_packet ≡ true

same_mark :
    (a : DnsMessage)
    → (a.dns.malformed_packet && not (a.dns.malformed_packet || a.dns.flags.tc)) ≡ false
same_mark a = ground arith

cut_mark :
    (a : DnsMessage)
    → a.dns.flags.tc ≡ true
    → (true && not (a.dns.malformed_packet || a.dns.flags.tc)) ≡ false
cut_mark a h = ground arith

abbrev Inside : DnsMessage → DnsMessage × ℕ → Type 0
Inside a (b, offset) = Keeps a b × (offset ≤ length a.dns.payload)

abbrev InPacket : ℕ → Bytes → Question → Type 0
InPacket n payload q =
    (12 + 5 * n ≤ q.offset) × (q.offset ≤ length payload) × (length q.qname ≤ 253)

question_result-Inside :
    (n : ℕ) (dm : DnsMessage) (r : Outcome DecodeError Question)
    → Ensures (InPacket n dm.dns.payload) (λ e. Unit) r
    → Ensures (Inside dm) (Marks dm) (question_result dm r)
question_result-Inside n dm (ok q) h = (
  record { payload = refl; flags = refl; operation = refl; parts = refl; marked = same_mark dm },
  h.1,
)
question_result-Inside n dm (err e) h = record {
  payload = refl;
  flags = refl;
  operation = refl;
  parts = refl;
  malformed = refl;
}
question_result-Inside n dm (panic c) h = absurd h

decode_query-Inside :
    (header : DnsHeader) (dm : DnsMessage) → Ensures (Inside dm) (Marks dm) (decode_query header dm)
unfolding decode_query
decode_query-Inside header dm = elim (Bool-cases (ltb 0 header.qdcount)) [
  | inl asked ↦ rw asked (
      question_result-Inside header.qdcount dm (decode_question header.qdcount dm.dns.payload)
        (decode_question-total header.qdcount dm.dns.payload (ground arith)))
  | inr none_asked ↦ rw none_asked (
    record { payload = refl; flags = refl; operation = refl; parts = refl; marked = same_mark dm },
    omega arith,
  )
]

-- A setter writes one list of records and nothing else.
record IsSetter (put : Setter) : Type 0 where
  keeps : (dm : DnsMessage) (l : List DnsAnswer) → Keeps dm (put l dm)
  keeps_mark :
      (dm : DnsMessage) (l : List DnsAnswer) → dm.dns.flags.tc ≡ true → Keeps dm (put l (mark dm))

set_answers-IsSetter : IsSetter set_answers
set_answers-IsSetter = record {
  keeps = λ dm l. record {
    payload = refl;
    flags = refl;
    operation = refl;
    parts = refl;
    marked = same_mark dm;
  };
  keeps_mark = λ dm l tc. record {
    payload = refl;
    flags = refl;
    operation = refl;
    parts = refl;
    marked = cut_mark dm tc;
  };
}

set_nameservers-IsSetter : IsSetter set_nameservers
set_nameservers-IsSetter = record {
  keeps = λ dm l. record {
    payload = refl;
    flags = refl;
    operation = refl;
    parts = refl;
    marked = same_mark dm;
  };
  keeps_mark = λ dm l tc. record {
    payload = refl;
    flags = refl;
    operation = refl;
    parts = refl;
    marked = cut_mark dm tc;
  };
}

set_records-IsSetter : IsSetter set_records
set_records-IsSetter = record {
  keeps = λ dm l. record {
    payload = refl;
    flags = refl;
    operation = refl;
    parts = refl;
    marked = same_mark dm;
  };
  keeps_mark = λ dm l tc. record {
    payload = refl;
    flags = refl;
    operation = refl;
    parts = refl;
    marked = cut_mark dm tc;
  };
}

and_left : (a b : Bool) → (a && b) ≡ true → a ≡ true
and_left a b h = ground arith

module _ (put : Setter) (part : String) (setter : IsSetter put) (dm : DnsMessage)
    (n start : ℕ) where
  section_result-Inside :
      (r : Outcome AnswerError Answers)
      → Ensures (Decoded n start dm.dns.payload) (Truncated n start dm.dns.payload) r
      → Ensures (Inside dm) (Marks dm) (section_result put part dm r)
  section_result-Inside (ok r) h = (setter.keeps dm r.answers, h.1)
  section_result-Inside (err (r, e)) h = elim (Bool-cases (dm.dns.flags.tc && is_cut e)) [
    | inl cut ↦
        rw cut (setter.keeps_mark dm r.answers (and_left dm.dns.flags.tc (is_cut e) cut), h.1)
    | inr bad ↦
        rw bad (record {
          payload = refl;
          flags = refl;
          operation = refl;
          parts = refl;
          malformed = refl;
        })
  ]
  section_result-Inside (panic c) h = absurd h

  decode_section-Inside :
      start ≤ length dm.dns.payload
      → Ensures (Inside dm) (Marks dm) (decode_section put part n dm start)
  unfolding decode_section
  decode_section-Inside h = elim (Bool-cases (ltb 0 n)) [
    | inl some_records ↦ rw some_records (
        section_result-Inside (decode_answer n start dm.dns.payload)
          (decode_answer-total n start dm.dns.payload h))
    | inr no_records ↦ rw no_records (
      record {
        payload = refl;
        flags = refl;
        operation = refl;
        parts = refl;
        marked = same_mark dm;
      },
      h,
    )
  ]

edns_result-Keeps :
    (n start : ℕ) (dm : DnsMessage) (r : Outcome EdnsError (DnsExtended × ℕ))
    → Ensures (λ x. (start + 11 * n ≤ x.1) × (x.1 ≤ length dm.dns.payload)) (λ e. Unit) r
    → Ensures (Keeps dm) (Marks dm) (edns_result dm r)
edns_result-Keeps n start dm (ok r) h = record {
  payload = refl;
  flags = refl;
  operation = refl;
  parts = refl;
  marked = same_mark dm;
}
edns_result-Keeps n start dm (err (edns, offset, e)) h =
    elim (Bool-cases (dm.dns.flags.tc && is_cut_edns e)) [
      | inl cut ↦ rw cut (record {
        payload = refl;
        flags = refl;
        operation = refl;
        parts = refl;
        marked = cut_mark dm (and_left dm.dns.flags.tc (is_cut_edns e) cut);
      })
      | inr bad ↦ rw bad (record {
        payload = refl;
        flags = refl;
        operation = refl;
        parts = refl;
        malformed = refl;
      })
    ]
edns_result-Keeps n start dm (panic c) h = absurd h

-- A later stage's result, seen from the message before.
Marks-trans : {a b : DnsMessage} (f : Failure) → Keeps a b → Marks b f → Marks a f
Marks-trans f h k = record {
  payload = k.payload ∙ h.payload;
  flags = k.flags ∙ h.flags;
  operation = k.operation ∙ h.operation;
  parts = k.parts ∙ h.parts;
  malformed = k.malformed;
}

-- A stage after a stage.
then_stage :
    (dm : DnsMessage) (m : Outcome Failure (DnsMessage × ℕ))
    (f : DnsMessage × ℕ → Outcome Failure DnsMessage)
    → Ensures (Inside dm) (Marks dm) m
    → ((a : DnsMessage) (offset : ℕ)
        → Keeps dm a
        → offset ≤ length a.dns.payload
        → Ensures (Keeps a) (Marks a) (f (a, offset)))
    → Ensures (Keeps dm) (Marks dm) (m >>= f)
then_stage dm m f h k =
    Ensures-bind (Inside dm) (Keeps dm) (Marks dm) m f h λ (a, offset) (kept, inside).
      Ensures-weaken (Keeps a) (Keeps dm) (Marks a) (Marks dm) (f (a, offset))
        (k a offset kept (rw kept.payload inside)) (λ b later. Keeps-trans kept later)
        (λ e later. Marks-trans e kept later)

decode_additional-Keeps :
    (header : DnsHeader) (dm : DnsMessage) (offset : ℕ)
    → offset ≤ length dm.dns.payload
    → Ensures (Keeps dm) (Marks dm) (decode_additional header dm offset)
unfolding decode_additional
decode_additional-Keeps header dm offset h = elim (Bool-cases (ltb 0 header.arcount)) [
  | inl some_records ↦ rw some_records (
      then_stage dm _ _
        (decode_section-Inside set_records "additional records" set_records-IsSetter dm
          header.arcount offset h)
        λ a past kept inside.
          let within : offset ≤ length a.dns.payload = rw kept.payload h in
          edns_result-Keeps header.arcount offset a
            (decode_edns header.arcount offset a.dns.payload)
            (decode_edns-total header.arcount offset a.dns.payload within))
  | inr no_records ↦ rw no_records (record {
    payload = refl;
    flags = refl;
    operation = refl;
    parts = refl;
    marked = same_mark dm;
  })
]

decode_sections-Keeps :
    (header : DnsHeader) (dm : DnsMessage)
    → Ensures (Keeps dm) (Marks dm) (decode_sections header dm)
unfolding decode_sections
decode_sections-Keeps header dm =
    then_stage dm _ _ (decode_query-Inside header dm) λ asked past_query k₁ h₁.
      then_stage asked _ _
        (decode_section-Inside set_answers "answer records" set_answers-IsSetter asked
          header.ancount past_query h₁)
        λ answered past_answers k₂ h₂.
          then_stage answered _ _
            (decode_section-Inside set_nameservers "authority records" set_nameservers-IsSetter
              answered header.nscount past_answers h₂)
            λ served past_servers k₃ h₃. decode_additional-Keeps header served past_servers h₃

-- For any header, and any payload of a message that came in unmarked, DecodePayload never panics and
-- always ends. The message keeps its payload, its type and its network, geographic, public suffix and suspicious parts, and the flags
-- and operation that the header gave it; on success it is marked as malformed only if its truncation
-- flag is set, and on failure it is marked as malformed.
pub decode_payload-total :
    (dm : DnsMessage) (header : DnsHeader)
    → dm.dns.malformed_packet ≡ false
    → Ensures
        (Keeps (with_header header dm))
        (Marks (with_header header dm))
        (decode_payload dm header)
unfolding decode_payload
decode_payload-total dm header fresh =
    Ensures-else (Keeps (with_header header dm)) (Marks (with_header header dm))
      dm.dns.malformed_packet _ _ fresh (decode_sections-Keeps header (with_header header dm))
