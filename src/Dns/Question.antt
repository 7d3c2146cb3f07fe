-- ===== src/Dns/Question.antt =====
-- `DecodeQuestion` of dnsutils/dns.go.
pub mod Total
use go_dns_collector.Base.{
  ℕ, zero, suc, ◌+◌, [], ltb, if◌then◌else◌, pos, Bytes, Outcome, ok, err, ◌>>=◌, uint16_at,
  tail_length,
}
use go_dns_collector.Dns.Error.{DecodeError, question_qtype_too_short}
use go_dns_collector.Dns.Header.{dns_len}
use go_dns_collector.Dns.Labels.{parse_labels}

-- The variables that the loop over the questions carries.
pub record Question : Type 0 where
  pub qname : Bytes
  pub qtype : ℕ
  pub offset : ℕ

pub read_question : Bytes → Question → Outcome DecodeError Question
read_question payload q = do
  (qname, offset) ← parse_labels (pos q.offset) payload
  left ← tail_length offset payload
  if ltb left 4 then err question_qtype_too_short else do
    qtype ← uint16_at offset payload
    ok (record { qname = qname; qtype = qtype; offset = offset + 4 })

-- for i := 0; i < qdcount; i++
pub read_questions : ℕ → Bytes → Question → Outcome DecodeError Question
read_questions zero payload q = ok q
read_questions (suc n) payload q = read_question payload q >>= read_questions n payload

unfoldable pub decode_question : ℕ → Bytes → Outcome DecodeError Question
unfolding read_questions read_question
decode_question qdcount payload =
    read_questions qdcount payload (record { qname = []; qtype = 0; offset = dns_len })
