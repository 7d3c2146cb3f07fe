-- ===== src/Dns/Labels/Bounds.antt =====
-- The loop of `ParseLabels` ends, reads inside the packet, and keeps names short.
use go_dns_collector.Base.{
  ℕ, zero, suc, ◌+◌, ◌-◌, ◌≤◌, ◌<◌, ◌≡◌, refl, Option, none, some, List, [], ◌∷◌, ◌++◌, arith, pos,
  length, length-append, get_or, take, drop, length-take, length-drop, Bytes, join, Ensures,
  byte_at, uint16_at, slice, string_key, bytes_key, Ensures-bind,
}
use go_dns_collector.Dns.Error.{DecodeError}
use go_dns_collector.Dns.Labels.{
  Run, Round, again, stop, follow_pointer, take_label, read_length, round, rounds, initial,
  labels_at, parse_labels, first_end,
}

-- What is left to read: the bytes of this run and all those before its start.
abbrev pub measure : Run → ℕ
measure s = s.start_offset + (s.max_offset - s.offset)

-- The bytes that the labels take in a packet, without the final zero.
abbrev pub wire_length : List Bytes → ℕ
wire_length [] = 0
wire_length (l ∷ ls) = length l + 1 + wire_length ls

pub wire_length-append :
    (xs ys : List Bytes) → wire_length (xs ++ ys) ≡ wire_length xs + wire_length ys
wire_length-append [] ys = omega arith
wire_length-append (x ∷ xs) ys = omega (arith, wire_length-append xs ys)

abbrev EndWithin : ℕ → ℕ → ℕ → Option ℕ → Type 0
EndWithin first size offset none = first ≤ offset
EndWithin first size offset (some e) = (first < e) × (e ≤ size)

record Inv (first : ℕ) (payload : Bytes) (s : Run) : Type 0 where
  ends : EndWithin first (length payload) s.offset s.end_offset
  counted : wire_length s.labels ≡ s.total_length
  short : s.total_length ≤ 254

abbrev After : ℕ → Bytes → Run → Round → Type 0
After first payload s (again t) = Inv first payload t × (measure t < measure s)
After first payload s (stop labels e) =
    (first < e) × (e ≤ length payload) × (wire_length labels ≤ 254)

abbrev pub Any : DecodeError → Type 0
Any e = Unit

length-slice : (a n : ℕ) (p : Bytes) → a + n ≤ length p → length (take (a + n - a) (drop a p)) ≡ n
length-slice a n p h = omega (arith, length-take (a + n - a) (drop a p), length-drop a p)

module _ (first : ℕ) (payload : Bytes) (s : Run) (inv : Inv first payload s) where
  end-within :
      (n : ℕ)
      → 0 < n
      → s.offset + n ≤ length payload
      → (first < first_end s.end_offset (s.offset + n))
        × (first_end s.end_offset (s.offset + n) ≤ length payload)
  end-within n h fits = ground (arith, inv.ends)

  follow_pointer-After :
      s.offset < s.max_offset → Ensures (After first payload s) Any (follow_pointer payload s)
  unfolding follow_pointer uint16_at
  follow_pointer-After h = ground (arith, end-within 2)

  take_label-After :
      (size : ℕ)
      → s.offset < s.max_offset
      → Ensures (After first payload s) Any (take_label payload s size)
  unfolding take_label slice
  take_label-After size h = ground (
    arith,
    length-slice (s.offset + 1) size payload,
    wire_length-append s.labels
        (take (s.offset + size + 1 - (s.offset + 1)) (drop (s.offset + 1) payload) ∷ []),
  )

  round-After : Ensures (After first payload s) Any (round payload s)
  unfolding round read_length byte_at
  round-After =
      ground
        (arith, end-within 1, follow_pointer-After, take_label-After (get_or payload s.offset 0))

abbrev Found : ℕ → Bytes → List Bytes × ℕ → Type 0
Found first payload (labels, e) = (first < e) × (e ≤ length payload) × (wire_length labels ≤ 254)

rounds-Found :
    (fuel first : ℕ) (payload : Bytes) (s : Run)
    → measure s < fuel
    → Inv first payload s
    → Ensures (Found first payload) Any (rounds fuel payload s)
unfolding rounds
rounds-Found zero first payload s h inv = absurd (omega arith)
rounds-Found (suc fuel) first payload s h inv =
    Ensures-bind (After first payload s) (Found first payload) Any (round payload s) _
      (round-After first payload s inv)
      (elim [
        | again t ↦ λ p. rounds-Found fuel first payload t (omega arith) p.0
        | stop labels e ↦ λ p. p
      ])

labels_at-Found :
    (offset : ℕ) (payload : Bytes) → Ensures (Found offset payload) Any (labels_at offset payload)
unfolding labels_at
labels_at-Found offset payload =
    rounds-Found (offset + length payload + 1) offset payload (initial offset payload) (omega arith)
      (record { ends = omega arith; counted = refl; short = omega arith })

-- strings.Join with a one-byte separator puts one byte less than a zero-terminated name has.
length-join : (sep : ℕ) (ls : List Bytes) → length (join (sep ∷ []) ls) ≤ wire_length ls - 1
unfolding join
length-join sep [] = omega arith
length-join sep (x ∷ []) = omega arith
length-join sep (x ∷ y ∷ ls) =
    omega (arith, length-append x (sep ∷ join (sep ∷ []) (y ∷ ls)), length-join sep (y ∷ ls))

abbrev pub IsName : ℕ → Bytes → Bytes × ℕ → Type 0
IsName offset payload (name, e) = (offset < e) × (e ≤ length payload) × (length name ≤ 253)

-- On every packet and at every non-negative offset, ParseLabels ends without a panic: it returns an
-- error, or a name of at most 253 bytes and an end offset that is past the start and within the packet.
pub parse_labels-total :
    (offset : ℕ) (payload : Bytes)
    → Ensures (IsName offset payload) Any (parse_labels (pos offset) payload)
unfolding parse_labels
parse_labels-total offset payload =
    Ensures-bind (Found offset payload) (IsName offset payload) Any (labels_at offset payload) _
      (labels_at-Found offset payload) (λ r h. (h.0, h.1, omega (arith, length-join b'.' r.0)))
