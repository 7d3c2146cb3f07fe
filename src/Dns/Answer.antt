-- ===== src/Dns/Answer.antt =====
-- `DecodeAnswer` of dnsutils/dns.go. An error comes with the answers decoded before it and the
-- offset of the record that failed.
pub mod Total
use go_dns_collector.Base.{
  ℕ, zero, suc, ◌+◌, List, [], ◌∷◌, ◌++◌, ltb, ◌==◌, if◌then◌else◌, pos, Bytes, Outcome, ok, err,
  ◌>>=◌, map_err, uint16_at, uint32_at, slice, tail_length,
}
use go_dns_collector.Dns.Error.{DecodeError, answer_too_short, answer_rdata_too_short}
use go_dns_collector.Dns.Labels.{parse_labels}
use go_dns_collector.Dns.Names.{rdatatype_to_string}
use go_dns_collector.Dns.Rdata.{parse_rdata}
use go_dns_collector.Message.{DnsAnswer}

pub record Answers : Type 0 where
  pub answers : List DnsAnswer
  pub offset : ℕ

abbrev pub AnswerError : Type 0
AnswerError = Answers × DecodeError

-- The fixed part of a record, and where its data ends.
pub record Fixed : Type 0 where
  pub t : ℕ
  pub class : ℕ
  pub ttl : ℕ
  pub start : ℕ
  pub past : ℕ

-- The data of a record. OPT is left to the EDNS decoder.
pub read_body : Bytes → Bytes → Fixed → Answers → Outcome DecodeError Answers
read_body payload name h s = do
  rdata ← slice h.start h.past payload
  if h.t == 41 then ok (record s { offset = h.past }) else do
    known ← slice 0 h.past payload
    parsed ← parse_rdata (rdatatype_to_string h.t) rdata known h.start
    ok (record {
      answers =
          s.answers
          ++ (record {
            name = name;
            rdatatype = rdatatype_to_string h.t;
            class = h.class;
            ttl = h.ttl;
            rdata = parsed;
          }
              ∷ []);
      offset = h.past;
    })

-- The record behind its name, from `next` on.
pub read_fixed : Bytes → ℕ → Outcome DecodeError Fixed
read_fixed payload next = do
  left ← tail_length next payload
  if ltb left 10 then err answer_too_short else do
    t ← uint16_at next payload
    class ← uint16_at (next + 2) payload
    ttl ← uint32_at (next + 4) payload
    rdlength ← uint16_at (next + 8) payload
    room ← tail_length (next + 10) payload
    if ltb room rdlength
        then err answer_rdata_too_short
        else ok (record {
          t = t;
          class = class;
          ttl = ttl;
          start = next + 10;
          past = next + 10 + rdlength;
        })

pub read_answer : Bytes → Answers → Outcome DecodeError Answers
read_answer payload s = do
  (name, next) ← parse_labels (pos s.offset) payload
  h ← read_fixed payload next
  read_body payload name h s

-- for i := 0; i < ancount; i++
pub read_answers : ℕ → Bytes → Answers → Outcome AnswerError Answers
read_answers zero payload s = ok s
read_answers (suc n) payload s =
    map_err (λ e. (s, e)) (read_answer payload s) >>= read_answers n payload

unfoldable pub decode_answer : ℕ → ℕ → Bytes → Outcome AnswerError Answers
unfolding read_answers read_answer read_fixed read_body
decode_answer ancount start_offset payload =
    read_answers ancount payload (record { answers = []; offset = start_offset })
