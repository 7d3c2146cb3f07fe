-- ===== src/Dns/Labels.antt =====
-- `ParseLabels` of dnsutils/dns.go: the loop over labels and compression pointers.
pub mod Bounds
mod Bits
pub mod Wire
pub mod RoundTrip
use go_dns_collector.Base.{
  ℕ, zero, suc, ◌+◌, bit_and, ◌≡◌, refl, Option, none, some, List, [], ◌∷◌, ◌++◌, ltb, leb, ◌==◌,
  if◌then◌else◌, ℤ, pos, negsuc, length, Bytes, codes, join, out_of_fuel, Outcome, ok, err, panic,
  ◌>>=◌, byte_at, uint16_at, slice,
}
use go_dns_collector.Dns.Error.{
  DecodeError, label_too_long, label_invalid_data, label_invalid_offset, label_invalid_pointer,
  label_too_short,
}

-- The variables of the loop; `end_offset` is -1 in the source where it is `none` here.
pub record Run : Type 0 where
  pub labels : List Bytes
  pub offset : ℕ
  pub start_offset : ℕ
  pub max_offset : ℕ
  pub end_offset : Option ℕ
  pub total_length : ℕ

-- One round of the loop goes on, or breaks with the labels and the end offset.
pub data Round : Type 0 where
  again : Run → Round
  stop : List Bytes → ℕ → Round

-- `if endOffset == -1 { endOffset = e }`
abbrev pub first_end : Option ℕ → ℕ → ℕ
first_end none e = e
first_end (some d) e = d

abbrev pub Parsed : Type 0
Parsed = Outcome DecodeError Round

-- length&0xc0 == 0xc0
pub follow_pointer : Bytes → Run → Parsed
follow_pointer payload s =
    if ltb (length payload) (s.offset + 2)
    then err label_too_short
    else if ltb s.max_offset (s.offset + 2)
    then err label_invalid_pointer
    else do
      word ← uint16_at s.offset payload
      let target = bit_and word 16383
      if leb s.start_offset target
          then err label_invalid_pointer
          else ok (
              again (record s {
                end_offset = some (first_end s.end_offset (s.offset + 2));
                max_offset = s.start_offset;
                start_offset = target;
                offset = target;
              }))

-- length&0xc0 == 0x00
pub take_label : Bytes → Run → ℕ → Parsed
take_label payload s size =
    if ltb (length payload) (s.offset + size + 1)
    then err label_too_short
    else if ltb s.max_offset (s.offset + size + 1)
    then err label_invalid_pointer
    else if ltb 254 (s.total_length + (size + 1))
    then err label_too_long
    else do
      label ← slice (s.offset + 1) (s.offset + size + 1) payload
      ok (
          again (record s {
            total_length = s.total_length + (size + 1);
            labels = s.labels ++ label ∷ [];
            offset = s.offset + (size + 1);
          }))

pub read_length : Bytes → Run → ℕ → Parsed
read_length payload s size =
    if size == 0
    then ok (stop s.labels (first_end s.end_offset (s.offset + 1)))
    else if bit_and size 0xc0 == 0xc0
    then follow_pointer payload s
    else if bit_and size 0xc0 == 0
    then take_label payload s size
    else err label_invalid_data

pub round : Bytes → Run → Parsed
round payload s =
    if leb (length payload) s.offset
    then err label_too_short
    else if leb s.max_offset s.offset
    then err label_invalid_pointer
    else do size ← byte_at s.offset payload; read_length payload s size

abbrev pub go_on :
    (Run → Outcome DecodeError (List Bytes × ℕ)) → Round → Outcome DecodeError (List Bytes × ℕ)
go_on k (again s) = k s
go_on k (stop labels e) = ok (labels, e)

-- `for { ... }` on fuel
pub rounds : ℕ → Bytes → Run → Outcome DecodeError (List Bytes × ℕ)
rounds zero payload s = panic out_of_fuel
rounds (suc fuel) payload s = round payload s >>= go_on (rounds fuel payload)

abbrev pub initial : ℕ → Bytes → Run
initial offset payload = record {
  labels = [];
  offset = offset;
  start_offset = offset;
  max_offset = length payload;
  end_offset = none;
  total_length = 0;
}

-- The labels of a name, before they are joined.
pub labels_at : ℕ → Bytes → Outcome DecodeError (List Bytes × ℕ)
labels_at offset payload = rounds (offset + length payload + 1) payload (initial offset payload)

pub parse_labels : ℤ → Bytes → Outcome DecodeError (Bytes × ℕ)
parse_labels (negsuc _) payload = err label_invalid_offset
parse_labels (pos offset) payload = do
  (labels, end_offset) ← labels_at offset payload
  ok (join (codes ".") labels, end_offset)

abbrev example_packet : Bytes
example_packet = 3 ∷ b'w' ∷ b'w' ∷ b'w' ∷ 2 ∷ b'f' ∷ b'r' ∷ 0 ∷ 1 ∷ b'a' ∷ 0xc0 ∷ 4 ∷ []

plain_name : parse_labels (pos 0) example_packet ≡ ok (codes "www.fr", 8)
unfolding parse_labels labels_at rounds round read_length take_label follow_pointer join byte_at
    uint16_at slice
plain_name = refl

compressed_name : parse_labels (pos 8) example_packet ≡ ok (codes "a.fr", 12)
unfolding parse_labels labels_at rounds round read_length take_label follow_pointer join byte_at
    uint16_at slice
compressed_name = refl
