-- ===== src/Dns/Labels/Wire.antt =====
-- Names as RFC 1035 writes them, and what `ParseLabels` reads from them.
use go_dns_collector.Base.{
  ℕ, zero, suc, ◌+◌, ◌-◌, ◌/◌, ◌%◌, ◌≤◌, ◌<◌, ◌≡◌, refl, ap, ◌∙◌, some, List, [], ◌∷◌, ◌++◌,
  append-nil, append_assoc, arith, length, length-append, get_or, take, drop, get_or-append,
  drop-append, take_append, Bytes, ok, byte_at, uint16_at, slice, string_key, bytes_key,
}
use go_dns_collector.Dns.Labels.{
  stop, follow_pointer, rounds, first_end, Run, again, take_label, read_length, round,
}
use go_dns_collector.Dns.Labels.Bits.{label_bits, pointer_word, pointer_bits}
use go_dns_collector.Dns.Labels.Bounds.{wire_length}

-- The labels of a name on the wire, without what ends it.
abbrev pub encode_labels : List Bytes → Bytes
encode_labels [] = []
encode_labels (l ∷ ls) = length l ∷ (l ++ encode_labels ls)

abbrev pub AreLabels : List Bytes → Type 0
AreLabels [] = Unit
AreLabels (l ∷ ls) = (0 < length l) × (length l < 64) × AreLabels ls

take-drop-label :
    (pre l tail : Bytes) (n a : ℕ)
    → a ≡ length pre + 1
    → n ≡ length l
    → take n (drop a (pre ++ (length l ∷ (l ++ tail)))) ≡ l
take-drop-label pre l tail n a e f =
    rw (e, f, drop-append pre (length l ∷ (l ++ tail)) 1) (take_append l tail)

abbrev pub push_label : Run → Bytes → Run
push_label s l = record s {
  labels = s.labels ++ l ∷ [];
  offset = s.offset + (length l + 1);
  total_length = s.total_length + (length l + 1);
}

module _ (pre l tail : Bytes) (s : Run) where
  abbrev here : Bytes
  here = pre ++ (length l ∷ (l ++ tail))

  round_label :
      s.offset ≡ length pre
      → 0 < length l
      → length l < 64
      → s.offset + length l + 1 ≤ s.max_offset
      → s.max_offset ≤ length here
      → s.total_length + length l + 1 ≤ 254
      → round here s ≡ ok (again (push_label s l))
  unfolding round read_length take_label byte_at slice
  round_label at some_bytes small below inside short = ground (
    arith,
    get_or-append pre (length l ∷ (l ++ tail)) 0 0,
    label_bits (length l) small,
    take-drop-label pre l tail (s.offset + length l + 1 - (s.offset + 1)) (s.offset + 1),
  )

-- Rounds for each label, then `extra` rounds.
abbrev pub add_rounds : List Bytes → ℕ → ℕ
add_rounds [] extra = extra
add_rounds (l ∷ ls) extra = suc (add_rounds ls extra)

-- Fuel above the length of the labels is a round for each label, one more, and the rest.
pub add_rounds-sub :
    (ls : List Bytes) (fuel : ℕ)
    → wire_length ls < fuel
    → (extra : ℕ) × (add_rounds ls (suc extra) ≡ fuel) × (fuel ≤ suc extra + wire_length ls)
add_rounds-sub ls zero h = absurd (omega arith)
add_rounds-sub [] (suc fuel) h = (fuel, refl, omega arith)
add_rounds-sub (l ∷ ls) (suc fuel) h =
    let (extra, e, b) = add_rounds-sub ls fuel (omega arith) in (extra, ap suc e, omega arith)

abbrev pub push_labels : Run → List Bytes → Run
push_labels s [] = s
push_labels s (l ∷ ls) = push_labels (push_label s l) ls

pub rounds_labels :
    (ls : List Bytes) (extra : ℕ) (p pre tail : Bytes) (s : Run)
    → p ≡ pre ++ (encode_labels ls ++ tail)
    → AreLabels ls
    → s.offset ≡ length pre
    → s.offset + wire_length ls ≤ s.max_offset
    → s.max_offset ≤ length p
    → s.total_length + wire_length ls ≤ 254
    → rounds (add_rounds ls extra) p s ≡ rounds extra p (push_labels s ls)
unfolding rounds
rounds_labels [] extra p pre tail s e a at below inside short = refl
rounds_labels (l ∷ ls) extra p pre tail s e a at below inside short =
    let e₁ : p ≡ pre ++ (length l ∷ (l ++ (encode_labels ls ++ tail))) = e ∙ simp append_assoc in
    let e₂ : p ≡ (pre ++ (length l ∷ l)) ++ (encode_labels ls ++ tail) = e₁ ∙ simp append_assoc in
    let first : round p s ≡ ok (again (push_label s l)) = rw e₁ (
      round_label pre l (encode_labels ls ++ tail) s at a.0 a.1 (omega arith) (rw e₁ at inside)
        (omega arith)) in
    rw first (
      rounds_labels ls extra p (pre ++ (length l ∷ l)) tail (push_label s l) e₂ a.2
        (omega (arith, length-append pre (length l ∷ l))) (omega arith) inside (omega arith))

pub push_labels_fields :
    (s : Run) (ls : List Bytes)
    → (push_labels s ls ≡ record s {
      labels = s.labels ++ ls;
      offset = s.offset + wire_length ls;
      total_length = s.total_length + wire_length ls;
    })
push_labels_fields s [] = ground (arith, append-nil s.labels)
push_labels_fields s (l ∷ ls) =
    push_labels_fields (push_label s l) ls ∙ ground (arith, append_assoc s.labels (l ∷ []) ls)

pub round_stop :
    (p : Bytes) (s : Run)
    → get_or p s.offset 0 ≡ 0
    → s.offset < s.max_offset
    → s.max_offset ≤ length p
    → round p s ≡ ok (stop s.labels (first_end s.end_offset (s.offset + 1)))
unfolding round read_length byte_at
round_stop p s z h inside = ground arith

-- A compression pointer to offset `target`.
abbrev pub encode_pointer : ℕ → Bytes
encode_pointer target = (192 + target / 256) ∷ (target % 256) ∷ []

pub round_pointer :
    (p : Bytes) (s : Run) (target : ℕ)
    → target < 16384
    → target < s.start_offset
    → get_or p s.offset 0 ≡ 192 + target / 256
    → get_or p (s.offset + 1) 0 ≡ target % 256
    → s.offset + 2 ≤ s.max_offset
    → s.max_offset ≤ length p
    → round p s
      ≡ ok (
          again (record s {
            end_offset = some (first_end s.end_offset (s.offset + 2));
            max_offset = s.start_offset;
            start_offset = target;
            offset = target;
          }))
unfolding round read_length follow_pointer byte_at uint16_at
round_pointer p s target small before hi lo below inside =
    ground (arith, pointer_word target small, pointer_bits (target / 256) (omega arith))
