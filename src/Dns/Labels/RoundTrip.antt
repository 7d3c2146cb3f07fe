-- ===== src/Dns/Labels/RoundTrip.antt =====
-- `ParseLabels` reads back the names that RFC 1035 encoders write, compressed or not.
use go_dns_collector.Base.{
  ℕ, suc, ◌+◌, ◌/◌, ◌%◌, ◌≤◌, ◌<◌, ◌≡◌, refl, ap, ◌∙◌, some, List, [], ◌∷◌, ◌++◌, arith, pos,
  length, length-append, get_or, get_or-append, Bytes, codes, join, ok, string_key, bytes_key,
}
use go_dns_collector.Dns.Labels.{
  Run, again, stop, round, rounds, initial, labels_at, parse_labels, first_end,
}
use go_dns_collector.Dns.Labels.Bounds.{wire_length}
use go_dns_collector.Dns.Labels.Wire.{
  encode_labels, encode_pointer, AreLabels, add_rounds-sub, push_labels, rounds_labels,
  push_labels_fields, round_stop, round_pointer,
}

length-encode_labels : (ls : List Bytes) → length (encode_labels ls) ≡ wire_length ls
length-encode_labels [] = refl
length-encode_labels (l ∷ ls) =
    omega (arith, length-append l (encode_labels ls), length-encode_labels ls)

-- What stands behind the labels of a name.
get_or-behind :
    (pre : Bytes) (ls : List Bytes) (tail : Bytes) (i : ℕ)
    → get_or (pre ++ (encode_labels ls ++ tail)) (length pre + wire_length ls + i) 0
      ≡ get_or tail i 0
get_or-behind pre ls tail i =
    let e : length pre + wire_length ls + i ≡ length pre + (length (encode_labels ls) + i) =
      omega (arith, length-encode_labels ls) in
    rw e
      (get_or-append pre (encode_labels ls ++ tail) _ 0 ∙ get_or-append (encode_labels ls) tail i 0)

length_packet :
    (pre : Bytes) (ls : List Bytes) (tail : Bytes)
    → length (pre ++ (encode_labels ls ++ tail)) ≡ length pre + wire_length ls + length tail
length_packet pre ls tail = omega (
  arith,
  length-append pre (encode_labels ls ++ tail),
  length-append (encode_labels ls) tail,
  length-encode_labels ls,
)

-- From a run at the first label of a name that a zero byte ends, the loop returns the labels.
rounds_name :
    (fuel : ℕ) (p pre : Bytes) (ls : List Bytes) (rest : Bytes) (s : Run)
    → p ≡ pre ++ (encode_labels ls ++ (0 ∷ rest))
    → AreLabels ls
    → s.offset ≡ length pre
    → s.offset + wire_length ls < s.max_offset
    → s.max_offset ≤ length p
    → s.total_length + wire_length ls ≤ 254
    → wire_length ls < fuel
    → rounds fuel p s ≡ ok (s.labels ++ ls, first_end s.end_offset (s.offset + wire_length ls + 1))
unfolding rounds
rounds_name fuel p pre ls rest s e a at below inside short enough =
    let (extra, used, left) = add_rounds-sub ls fuel enough in
    let last = push_labels s ls in
    let zero_byte : get_or p (s.offset + wire_length ls) 0 ≡ 0 =
      rw (e, at) (ground (arith, get_or-behind pre ls (0 ∷ rest) 0)) in
    let stopped : round p last
        ≡ ok (stop (s.labels ++ ls) (first_end s.end_offset (s.offset + wire_length ls + 1))) =
      rw (push_labels_fields s ls) (round_stop p _ zero_byte below inside) in
    rw (← used) (
      rounds_labels ls (suc extra) p pre (0 ∷ rest) s e a at (omega arith) inside short
      ∙ rw stopped)

-- A name of 1 to 63 byte labels, whose labels and their length bytes are at most 254, and that ends
-- with a zero byte, is read whole, whatever stands before and after it: the result is its labels
-- joined by dots and the offset behind the zero byte.
pub parse_labels-encode :
    (pre : Bytes) (ls : List Bytes) (rest : Bytes)
    → AreLabels ls
    → wire_length ls ≤ 254
    → parse_labels (pos (length pre)) (pre ++ (encode_labels ls ++ (0 ∷ rest)))
      ≡ ok (join (codes ".") ls, length pre + wire_length ls + 1)
unfolding parse_labels labels_at
parse_labels-encode pre ls rest a short =
    let p = pre ++ (encode_labels ls ++ (0 ∷ rest)) in
    let size : length p ≡ length pre + wire_length ls + (1 + length rest) =
      length_packet pre ls (0 ∷ rest) ∙ ap (λ n. length pre + wire_length ls + n) (omega arith) in
    rw (
      rounds_name (length pre + length p + 1) p pre ls rest (initial (length pre) p) refl a refl
        (omega arith) (omega arith) (omega arith) (omega arith))

one_round :
    (extra : ℕ) (p : Bytes) (s t : Run)
    → round p s ≡ ok (again t)
    → rounds (suc extra) p s ≡ rounds extra p t
unfolding rounds
one_round extra p s t e = rw e

-- A name whose labels `ls` end in a pointer back to the labels `ms`, which stand whole before it.
pub record IsCompressed (p pre back : Bytes) (ls ms : List Bytes) : Type 0 where
  pub rest : Bytes
  pub rest_back : Bytes
  pub packet : p ≡ pre ++ (encode_labels ls ++ (encode_pointer (length back) ++ rest))
  pub packet_back : p ≡ back ++ (encode_labels ms ++ (0 ∷ rest_back))
  pub labels : AreLabels ls
  pub labels_back : AreLabels ms
  pub before : length back + wire_length ms < length pre
  pub reachable : length back < 16384
  pub short : wire_length ls + wire_length ms ≤ 254

module _ (p pre back : Bytes) (ls ms : List Bytes) (c : IsCompressed p pre back ls ms) where
  size : length p ≡ length pre + wire_length ls + (2 + length c.rest)
  size =
      ap length c.packet
      ∙ length_packet pre ls (encode_pointer (length back) ++ c.rest)
      ∙ ap (λ n. length pre + wire_length ls + n) (omega arith)

  abbrev at_pointer : Run
  at_pointer = push_labels (initial (length pre) p) ls

  abbrev jumped : Run
  jumped = record (initial (length pre) p) {
    labels = ls;
    total_length = 0 + wire_length ls;
    end_offset = some (length pre + wire_length ls + 2);
    max_offset = length pre;
    start_offset = length back;
    offset = length back;
  }

  round_jump : round p at_pointer ≡ ok (again jumped)
  round_jump =
      let hi : get_or p (length pre + wire_length ls) 0 ≡ 192 + length back / 256 =
        rw c.packet
          (ground (arith, get_or-behind pre ls (encode_pointer (length back) ++ c.rest) 0)) in
      let lo : get_or p (length pre + wire_length ls + 1) 0 ≡ length back % 256 =
        rw c.packet (get_or-behind pre ls (encode_pointer (length back) ++ c.rest) 1) in
      rw push_labels_fields (
        round_pointer p _ (length back) c.reachable (omega (arith, c.before)) hi lo
          (omega (arith, size)) (omega arith))

  -- A name of some labels and a pointer to an uncompressed name that ends before it, at an offset
  -- below 16384, where all the labels with their length bytes are at most 254, is read as its labels
  -- followed by those that its pointer leads to, joined by dots, and ends behind the pointer.
  pub parse_labels-pointer :
      parse_labels (pos (length pre)) p
      ≡ ok (join (codes ".") (ls ++ ms), length pre + wire_length ls + 2)
  unfolding parse_labels labels_at
  parse_labels-pointer =
      let fuel = length pre + length p + 1 in
      let (extra, used, left) = add_rounds-sub ls fuel (omega (arith, size)) in
      let first : rounds fuel p (initial (length pre) p) ≡ rounds extra p jumped = rw (← used) (
        rounds_labels ls (suc extra) p pre (encode_pointer (length back) ++ c.rest) _ c.packet
          c.labels refl (omega (arith, size)) (omega arith) (omega (arith, c.short))
        ∙ one_round extra p at_pointer jumped round_jump) in
      let second : rounds extra p jumped ≡ ok (ls ++ ms, length pre + wire_length ls + 2) =
        rounds_name extra p back ms c.rest_back jumped c.packet_back c.labels_back refl
          (omega (arith, c.before)) (omega (arith, size)) (omega (arith, c.short))
          (omega (arith, c.before, size)) in
      rw (first ∙ second)
