-- ===== src/Dns/Edns/Total.antt =====
-- `DecodeEDNS` ends on every packet and stays inside it.
use go_dns_collector.Base.{
  ℕ, zero, suc, ◌+◌, ◌-◌, ◌*◌, ◌≤◌, ◌<◌, String, ◌≡◌, ◌⊎◌, inl, inr, false, List, [], arith, ltb,
  leb, ◌==◌, Bool-cases, pos, length, Bytes, Ensures, byte_at, be16, uint16_at, uint32_at, slice,
  tail_length, Ensures-tail_length, Ensures-bind, Ensures-map_err, Ensures-guard, Ensures-uint16,
  Ensures-slice, Ensures-weaken,
}
use go_dns_collector.Dns.Labels.{parse_labels}
use go_dns_collector.Dns.Labels.Bounds.{IsName, parse_labels-total}
use go_dns_collector.Dns.Names.{opt_code_to_string}
use go_dns_collector.Dns.Rdata.Total.{AnyBytes, AnyError}
use go_dns_collector.Message.{DnsOption, DnsExtended, zero_extended}
use go_dns_collector.Dns.Edns.{
  parse_errors, parse_csubnet, parse_option, read_option, read_options, Scan, EdnsError,
  read_opt_header, read_opt_data, read_opt, skip_record, record_type, read_record, read_records,
  decode_edns,
}

parse_errors-total : (d : Bytes) → Ensures AnyBytes AnyError (parse_errors d)
unfolding parse_errors uint16_at slice
parse_errors-total d = ground arith

parse_csubnet-total : (d : Bytes) → Ensures AnyBytes AnyError (parse_csubnet d)
unfolding parse_csubnet uint16_at byte_at slice
parse_csubnet-total d = ground arith

-- On any option data ParseOption returns a text or an error.
parse_option-total : (name : String) (d : Bytes) → Ensures AnyBytes AnyError (parse_option name d)
unfolding parse_option
parse_option-total name d = ground (arith, parse_errors-total d, parse_csubnet-total d)

abbrev Past : ℕ → ℕ → List DnsOption × ℕ → Type 0
Past next end_offset (options, past) = (next + 4 ≤ past) × (past ≤ end_offset)

read_option-Past :
    (payload : Bytes) (end_offset next : ℕ) (options : List DnsOption)
    → end_offset ≤ length payload
    → Ensures (Past next end_offset) AnyError (read_option payload end_offset next options)
unfolding read_option
read_option-Past payload end_offset next options inside =
    let P = Past next end_offset in
    Ensures-guard P AnyError (ltb (end_offset - next) 4) _ _ tt λ four.
      Ensures-uint16 P AnyError next payload _ (ground arith) (
        Ensures-uint16 P AnyError (next + 2) payload _ (ground arith) (
          Ensures-guard P AnyError (ltb end_offset (next + 4 + be16 (next + 2) payload)) _ _ tt
            λ fits.
              Ensures-slice P AnyError (next + 4) (next + 4 + be16 (next + 2) payload) payload _
                (omega arith) (ground arith)
                (Ensures-bind AnyBytes P AnyError (parse_option (opt_code_to_string _) _) _
                  (parse_option-total (opt_code_to_string _) _)
                  (λ text _. (omega arith, ground arith)))))

abbrev EndsAt : ℕ → List DnsOption × ℕ → Type 0
EndsAt end_offset (options, past) = past ≡ end_offset

read_options-EndsAt :
    (fuel : ℕ) (payload : Bytes) (end_offset next : ℕ) (options : List DnsOption)
    → end_offset ≤ length payload
    → next ≤ end_offset
    → end_offset - next < fuel
    → Ensures (EndsAt end_offset) AnyError (read_options fuel payload end_offset next options)
unfolding read_options
read_options-EndsAt zero payload end_offset next options inside h enough = absurd (omega arith)
read_options-EndsAt (suc fuel) payload end_offset next options inside h enough =
    elim (Bool-cases (leb end_offset next)) [
      | inl done ↦ rw done (ground arith)
      | inr more ↦ rw more (
          Ensures-bind (Past next end_offset) (EndsAt end_offset) AnyError
            (read_option payload end_offset next options) _
            (read_option-Past payload end_offset next options inside)
            λ (options', next') b.
              read_options-EndsAt fuel payload end_offset next' options' inside b.1 (omega arith))
    ]

abbrev Any : EdnsError → Type 0
Any e = Unit

-- A record behind its name ends inside the packet, ten bytes or more further on.
abbrev Behind : ℕ → Bytes → Scan → Type 0
Behind next payload r = (next + 10 ≤ r.offset) × (r.offset ≤ length payload)

module _ (payload : Bytes) (next : ℕ) where
  record_type-total :
      next ≤ length payload
      → Ensures (λ t. next + 10 ≤ length payload) AnyError (record_type payload next)
  unfolding record_type tail_length uint16_at
  record_type-total h = ground arith

  skip_record-Behind :
      (s : Scan)
      → next + 10 ≤ length payload
      → Ensures (Behind next payload) AnyError (skip_record payload next s)
  unfolding skip_record tail_length uint16_at
  skip_record-Behind s h = ground arith

  read_opt_header-total :
      (edns : DnsExtended)
      → next + 10 ≤ length payload
      → Ensures (λ e. Unit) AnyError (read_opt_header payload next edns)
  unfolding read_opt_header uint16_at uint32_at
  read_opt_header-total edns h = ground arith

  abbrev Stood : List DnsOption × ℕ → Type 0
  Stood (options, past) = (next + 10 ≤ past) × (past ≤ length payload)

  read_opt_data-Stood :
      (options : List DnsOption)
      → next + 10 ≤ length payload
      → Ensures Stood AnyError (read_opt_data payload next options)
  unfolding read_opt_data
  read_opt_data-Stood options h = Ensures-uint16 Stood AnyError (next + 8) payload _ (omega arith) (
      Ensures-tail_length Stood AnyError (next + 10) payload _ h (
        Ensures-guard Stood AnyError (ltb (length payload - (next + 10)) (be16 (next + 8) payload))
          _ _ tt
          λ fits.
            let end_offset = next + 10 + be16 (next + 8) payload in
            let inside : end_offset ≤ length payload = ground arith in
            Ensures-weaken (EndsAt end_offset) Stood AnyError AnyError _
              (read_options-EndsAt (be16 (next + 8) payload + 1) payload end_offset (next + 10)
                options inside (omega arith) (omega arith))
              (λ r e. (omega arith, omega arith)) (λ e _. tt)))

  read_opt-Behind :
      (name : Bytes) (s : Scan)
      → next + 10 ≤ length payload
      → Ensures (Behind next payload) Any (read_opt payload name next s)
  unfolding read_opt
  read_opt-Behind name s h = Ensures-guard (Behind next payload) Any s.found _ _ tt λ _.
      Ensures-guard (Behind next payload) Any (ltb 0 (length name)) _ _ tt λ _.
        Ensures-bind (λ e. Unit) (Behind next payload) Any _ _
          (Ensures-map_err (λ e. Unit) AnyError Any (read_opt_header payload next s.edns) _
            (read_opt_header-total s.edns h) (λ e _. tt))
          λ edns _.
            Ensures-bind Stood (Behind next payload) Any _ _
              (Ensures-map_err Stood AnyError Any (read_opt_data payload next s.options) _
                (read_opt_data-Stood s.options h) (λ e _. tt))
              λ r b. b

-- From `s`, `n` records of at least eleven bytes each have been passed.
abbrev Passed : ℕ → Bytes → Scan → Scan → Type 0
Passed n payload s r =
    (s.offset + 11 * n ≤ r.offset)
    × ((s.offset ≤ length payload) ⊎ (0 < n) → r.offset ≤ length payload)

read_record-Passed :
    (payload : Bytes) (s : Scan) → Ensures (Passed 1 payload s) Any (read_record payload s)
unfolding read_record
read_record-Passed payload s =
    Ensures-bind (IsName s.offset payload) (Passed 1 payload s) Any _ _
      (Ensures-map_err (IsName s.offset payload) AnyError Any (parse_labels (pos s.offset) payload)
        _ (parse_labels-total s.offset payload) (λ e _. tt))
      λ (name, next) b.
        Ensures-bind (λ t. next + 10 ≤ length payload) (Passed 1 payload s) Any _ _
          (Ensures-map_err (λ t. next + 10 ≤ length payload) AnyError Any (record_type payload next)
            _ (record_type-total payload next b.1) (λ e _. tt))
          λ t h.
            Ensures-weaken (Behind next payload) (Passed 1 payload s) Any Any _
              (elim (Bool-cases (t == 41)) [
                | inl opt ↦ rw opt (read_opt-Behind payload next name s h)
                | inr other ↦ rw other (
                    Ensures-map_err (Behind next payload) AnyError Any (skip_record payload next s)
                      _ (skip_record-Behind payload next s h) (λ e _. tt))
              ])
              (λ r w. (omega arith, λ _. w.1)) (λ e _. tt)

read_records-Passed :
    (n : ℕ) (payload : Bytes) (s : Scan)
    → Ensures (Passed n payload s) Any (read_records n payload s)
unfolding read_records
read_records-Passed zero payload s = (omega arith, λ h. omega arith)
read_records-Passed (suc n) payload s =
    Ensures-bind (Passed 1 payload s) (Passed (suc n) payload s) Any (read_record payload s) _
      (read_record-Passed payload s)
      λ r a.
        Ensures-weaken (Passed n payload r) (Passed (suc n) payload s) Any Any
          (read_records n payload r) (read_records-Passed n payload r)
          (λ t b. (omega arith, λ _. b.1 (inl (a.1 (inr (omega arith)))))) (λ e _. tt)

-- From an offset inside the packet DecodeEDNS never panics and always ends: it fails, or it has passed
-- at least eleven bytes for each record and stands inside the packet.
pub decode_edns-total :
    (arcount start : ℕ) (payload : Bytes)
    → start ≤ length payload
    → Ensures
        (λ r. (start + 11 * arcount ≤ r.1) × (r.1 ≤ length payload))
        Any
        (decode_edns arcount start payload)
unfolding decode_edns
decode_edns-total arcount start payload h =
    let s : Scan = record { edns = zero_extended; offset = start; options = []; found = false } in
    Ensures-bind (Passed arcount payload s) _ Any _ _ (read_records-Passed arcount payload s)
      (λ r p. (p.0, p.1 (inl h)))
