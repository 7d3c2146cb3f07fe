-- ===== src/Dns/Question/Total.antt =====
-- `DecodeQuestion` ends on every packet and stays inside it.
use go_dns_collector.Base.{
  ℕ, zero, suc, ◌+◌, ◌-◌, ◌*◌, ◌≤◌, ◌<◌, ◌⊎◌, inl, inr, arith, ltb, pos, length, Bytes, Ensures,
  Ensures-tail_length, Ensures-bind, Ensures-guard, Ensures-uint16, Ensures-weaken,
}
use go_dns_collector.Dns.Labels.{parse_labels}
use go_dns_collector.Dns.Labels.Bounds.{IsName, parse_labels-total}
use go_dns_collector.Dns.Question.{Question, read_question, read_questions, decode_question}
use go_dns_collector.Dns.Error.{DecodeError}

abbrev Any : DecodeError → Type 0
Any e = Unit

-- `n` questions take at least five bytes each, from `start` on.
abbrev pub Asked : ℕ → ℕ → Bytes → Question → Type 0
Asked start n payload q =
    (start + 5 * n ≤ q.offset)
    × ((start ≤ length payload) ⊎ (0 < n) → q.offset ≤ length payload)
    × (length q.qname ≤ 253)

read_question-Asked :
    (payload : Bytes) (q : Question)
    → Ensures (Asked q.offset 1 payload) Any (read_question payload q)
unfolding read_question
read_question-Asked payload q =
    Ensures-bind (IsName q.offset payload) (Asked q.offset 1 payload) Any
      (parse_labels (pos q.offset) payload) _ (parse_labels-total q.offset payload)
      λ (name, offset) b. Ensures-tail_length (Asked q.offset 1 payload) Any offset payload _ b.1 (
        Ensures-guard (Asked q.offset 1 payload) Any (ltb (length payload - offset) 4) _ _ tt
          λ room.
            Ensures-uint16 (Asked q.offset 1 payload) Any offset payload _ (ground arith)
              (omega arith, λ _. ground arith, b.2))

read_questions-Asked :
    (n : ℕ) (payload : Bytes) (q : Question)
    → length q.qname ≤ 253
    → Ensures (Asked q.offset n payload) Any (read_questions n payload q)
unfolding read_questions
read_questions-Asked zero payload q h = (omega arith, λ p. omega arith, h)
read_questions-Asked (suc n) payload q h =
    Ensures-bind (Asked q.offset 1 payload) (Asked q.offset (suc n) payload) Any
      (read_question payload q) _ (read_question-Asked payload q)
      λ r b.
        Ensures-weaken (Asked r.offset n payload) (Asked q.offset (suc n) payload) Any Any
          (read_questions n payload r) (read_questions-Asked n payload r b.2)
          (λ s c. (omega arith, λ _. c.1 (inl (b.1 (inr (omega arith)))), c.2)) (λ e _. tt)

-- DecodeQuestion never panics and always ends: for a positive count it fails, or it returns a name of
-- at most 253 bytes and an offset inside the packet, past the header and five bytes per question.
pub decode_question-total :
    (qdcount : ℕ) (payload : Bytes)
    → 0 < qdcount
    → Ensures
        (λ q. (12 + 5 * qdcount ≤ q.offset) × (q.offset ≤ length payload) × (length q.qname ≤ 253))
        Any
        (decode_question qdcount payload)
unfolding decode_question
decode_question-total qdcount payload h =
    Ensures-weaken (Asked 12 qdcount payload) _ Any Any _
      (read_questions-Asked qdcount payload _ (omega arith)) (λ q a. (a.0, a.1 (inr h), a.2))
      (λ e _. tt)
