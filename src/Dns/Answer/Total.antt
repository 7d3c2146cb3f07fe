-- ===== src/Dns/Answer/Total.antt =====
-- `DecodeAnswer` ends on every packet, stays inside it, and counts its records.
use go_dns_collector.Base.{
  ℕ, zero, suc, ◌+◌, ◌*◌, ◌≤◌, ◌<◌, ◌≡◌, ◌⊎◌, inl, inr, List, [], ◌∷◌, ◌++◌, arith, ◌==◌,
  Bool-cases, pos, length, length-append, Bytes, map_err, Ensures, uint16_at, uint32_at,
  tail_length, Ensures-bind, Ensures-map_err, Ensures-slice, Ensures-weaken,
}
use go_dns_collector.Dns.Labels.{parse_labels}
use go_dns_collector.Dns.Labels.Bounds.{IsName, parse_labels-total}
use go_dns_collector.Dns.Names.{rdatatype_to_string}
use go_dns_collector.Message.{DnsAnswer}
use go_dns_collector.Dns.Rdata.{parse_rdata}
use go_dns_collector.Dns.Rdata.Total.{AnyBytes, AnyError, parse_rdata-total}
use go_dns_collector.Dns.Answer.{
  Answers, AnswerError, Fixed, read_fixed, read_body, read_answer, read_answers, decode_answer,
}

-- From `s`, `n` records of at least eleven bytes each have been read.
record Advances (n : ℕ) (payload : Bytes) (s r : Answers) : Type 0 where
  past : s.offset + 11 * n ≤ r.offset
  inside : (s.offset ≤ length payload) ⊎ (0 < n) → r.offset ≤ length payload
  counted : length r.answers ≤ length s.answers + n

-- A record failed before the `n`-th was read.
record Stops (n : ℕ) (payload : Bytes) (s r : Answers) : Type 0 where
  past : s.offset ≤ r.offset
  inside : s.offset ≤ length payload → r.offset ≤ length payload
  counted : length r.answers < length s.answers + n

abbrev Within : ℕ → Bytes → Fixed → Type 0
Within next payload h = (next + 10 ≤ h.start) × (h.start ≤ h.past) × (h.past ≤ length payload)

read_fixed-Within :
    (payload : Bytes) (next : ℕ)
    → next ≤ length payload
    → Ensures (Within next payload) AnyError (read_fixed payload next)
unfolding read_fixed tail_length uint16_at uint32_at
read_fixed-Within payload next inside = ground arith

module _ (payload name : Bytes) (s : Answers) (h : Fixed) (named : s.offset + 11 ≤ h.start)
    (filled : h.start ≤ h.past) (inside : h.past ≤ length payload) where
  appended : (a : List DnsAnswer) → length (s.answers ++ a) ≡ length s.answers + length a
  appended a = length-append s.answers a

  read_body-Advances : Ensures (Advances 1 payload s) AnyError (read_body payload name h s)
  unfolding read_body
  read_body-Advances =
      Ensures-slice (Advances 1 payload s) AnyError h.start h.past payload _ filled inside
        (elim (Bool-cases (h.t == 41)) [
          | inl opt ↦
              rw opt (record { past = omega arith; inside = λ _. inside; counted = omega arith })
          | inr other ↦ rw other (
              Ensures-slice (Advances 1 payload s) AnyError 0 h.past payload _ (omega arith) inside
                (Ensures-bind AnyBytes (Advances 1 payload s) AnyError
                  (parse_rdata (rdatatype_to_string h.t) _ _ h.start) _
                  (parse_rdata-total (rdatatype_to_string h.t) _ _ h.start)
                  (λ parsed _. record {
                    past = omega arith;
                    inside = λ _. inside;
                    counted = omega (
                      arith,
                      appended (
                          record {
                            name = name;
                            rdatatype = rdatatype_to_string h.t;
                            class = h.class;
                            ttl = h.ttl;
                            rdata = parsed;
                          }
                          ∷ []),
                    );
                  })))
        ])

read_answer-Advances :
    (payload : Bytes) (s : Answers)
    → Ensures (Advances 1 payload s) AnyError (read_answer payload s)
unfolding read_answer
read_answer-Advances payload s =
    Ensures-bind (IsName s.offset payload) (Advances 1 payload s) AnyError
      (parse_labels (pos s.offset) payload) _ (parse_labels-total s.offset payload)
      λ (name, next) b.
        Ensures-bind (Within next payload) (Advances 1 payload s) AnyError (read_fixed payload next)
          _ (read_fixed-Within payload next b.1)
          λ h w. read_body-Advances payload name s h (omega arith) w.1 w.2

abbrev StopsAt : ℕ → Bytes → Answers → AnswerError → Type 0
StopsAt n payload s (r, e) = Stops n payload s r

read_answers-Advances :
    (n : ℕ) (payload : Bytes) (s : Answers)
    → Ensures (Advances n payload s) (StopsAt n payload s) (read_answers n payload s)
unfolding read_answers
read_answers-Advances zero payload s = record {
  past = omega arith;
  inside = λ h. omega arith;
  counted = omega arith;
}
read_answers-Advances (suc n) payload s =
    Ensures-bind (Advances 1 payload s) (Advances (suc n) payload s) (StopsAt (suc n) payload s)
      (map_err (λ e. (s, e)) (read_answer payload s)) _
      (Ensures-map_err (Advances 1 payload s) AnyError (StopsAt (suc n) payload s)
        (read_answer payload s) _ (read_answer-Advances payload s)
        (λ e _. record { past = omega arith; inside = λ h. h; counted = omega arith }))
      λ r a.
        Ensures-weaken (Advances n payload r) (Advances (suc n) payload s) (StopsAt n payload r)
          (StopsAt (suc n) payload s) (read_answers n payload r) (read_answers-Advances n payload r)
          (λ t b. record {
            past = omega arith;
            inside = λ _. b.inside (inl (a.inside (inr (omega arith))));
            counted = omega arith;
          })
          (λ (t, e) b. record {
            past = omega arith;
            inside = λ h. b.inside (a.inside (inl h));
            counted = omega arith;
          })

abbrev pub Decoded : ℕ → ℕ → Bytes → Answers → Type 0
Decoded n start payload r =
    (start + 11 * n ≤ r.offset) × (r.offset ≤ length payload) × (length r.answers ≤ n)

abbrev pub Truncated : ℕ → ℕ → Bytes → AnswerError → Type 0
Truncated n start payload (r, e) =
    (start ≤ r.offset) × (r.offset ≤ length payload) × (length r.answers < n)

-- From an offset inside the packet DecodeAnswer never panics and always ends. On success it has read
-- at least eleven bytes for each record and stands inside the packet with no more answers than were
-- announced; on an error it returns fewer answers than announced and an offset inside the packet that
-- is not before the start.
pub decode_answer-total :
    (ancount start : ℕ) (payload : Bytes)
    → start ≤ length payload
    → Ensures
        (Decoded ancount start payload)
        (Truncated ancount start payload)
        (decode_answer ancount start payload)
unfolding decode_answer
decode_answer-total ancount start payload h =
    let s : Answers = record { answers = []; offset = start } in
    Ensures-weaken (Advances ancount payload s) (Decoded ancount start payload)
      (StopsAt ancount payload s) (Truncated ancount start payload) _
      (read_answers-Advances ancount payload s) (λ r a. (a.past, a.inside (inl h), omega arith))
      (λ (r, e) a. (a.past, a.inside h, omega arith))
