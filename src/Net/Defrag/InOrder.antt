-- ===== src/Net/Defrag/InOrder.antt =====
-- Fragments that come in their order, and IPv4 fragments that do not.
use go_dns_collector.Base.{
  ℕ, ◌+◌, ◌*◌, ◌≤◌, ◌<◌, ◌≡◌, refl, sym, ap, ◌∙◌, subst, true, false, Option, none, some, List, [],
  ◌∷◌, ◌++◌, append-nil, append_assoc, arith, ltb, leb, ◌==◌, ℤ, pos, length, length-append, Bytes,
  Outcome, ok, ◌>>=◌, string_key, bytes_key,
}
use go_dns_collector.Net.Defrag.{
  Family, ip4, ip6, Packet, Fragments, no_fragments, Reassembled, DefragError, offset_of, length_of,
  add16, header_length, append_data, build, insert,
}

-- The data of fragments in their order.
abbrev pub data_of : List Packet → Bytes
data_of [] = []
data_of (p ∷ ps) = p.payload ++ data_of ps

-- The fragments start where the data before them, `n` bytes, ends; their headers tell their length;
-- and the data end within 16 bits.
abbrev pub Consecutive : ℕ → List Packet → Type 0
Consecutive n [] = Unit
Consecutive n (p ∷ ps) =
    (p.frag_offset * 8 ≡ n)
    × (p.ip_length ≡ length p.payload + header_length p.family)
    × (0 < length p.payload)
    × (n + length p.payload + 20 < 65536)
    × Consecutive (n + length p.payload) ps

abbrev pub AllMore : List Packet → Type 0
AllMore [] = Unit
AllMore (p ∷ ps) = (p.more_fragments ≡ true) × AllMore ps

header_length-le : (v : Family) → header_length v ≤ 20
header_length-le ip4 = omega arith
header_length-le ip6 = omega arith

module _ (n : ℕ) (p : Packet) (at : p.frag_offset * 8 ≡ n)
    (told : p.ip_length ≡ length p.payload + header_length p.family)
    (short : n + length p.payload + 20 < 65536) where
  offset_of-at : offset_of p ≡ n
  offset_of-at = rw at (omega (arith, short))

  length_of-told : length_of p ≡ length p.payload
  length_of-told = omega (arith, told, short, header_length-le p.family)

append_data-Consecutive :
    (ps : List Packet) (final : Bytes) (n : ℕ)
    → Consecutive n ps
    → append_data ps final n ≡ ok (final ++ data_of ps)
unfolding append_data
append_data-Consecutive [] final n c = ap ok (sym (append-nil final))
append_data-Consecutive (p ∷ ps) final n (at, told, some_data, short, c) =
    let past : add16 n (length p.payload) ≡ n + length p.payload = omega (arith, short) in
    let here : (n == n) ≡ true = ground arith in
    rw (offset_of-at n p at told short) (
      rw here (
        rw (length_of-told n p at told short) (
          rw past (
            append_data-Consecutive ps (final ++ p.payload) (n + length p.payload) c
            ∙ ap ok (append_assoc final p.payload (data_of ps))))))

-- What has been taken in: the fragments, and their length twice.
abbrev pub held : List Packet → ℕ → ℤ → Fragments
held ps n t = record { list = ps; highest = n; current = n; last_seen = t }

Consecutive-last :
    (n : ℕ) (ps rest : List Packet)
    → Consecutive n (ps ++ rest)
    → Consecutive (n + length (data_of ps)) rest
Consecutive-last n [] rest c = subst (λ m. Consecutive m rest) (omega arith) c
Consecutive-last n (p ∷ ps) rest (at, told, some_data, short, c) =
    let e : n + length p.payload + length (data_of ps) ≡ n + length (p.payload ++ data_of ps) =
      omega (arith, length-append p.payload (data_of ps)) in
    subst (λ m. Consecutive m rest) e (Consecutive-last (n + length p.payload) ps rest c)

pub Consecutive-behind :
    (ps rest : List Packet) → Consecutive 0 (ps ++ rest) → Consecutive (length (data_of ps)) rest
Consecutive-behind ps rest c =
    subst (λ m. Consecutive m rest) (omega arith) (Consecutive-last 0 ps rest c)

module _ (ps : List Packet) (n : ℕ) (t : ℤ) (p : Packet) (c : Consecutive n (p ∷ [])) where
  pub insert-more :
      p.more_fragments ≡ true
      → insert (held ps n t) p ≡ ok (held (ps ++ p ∷ []) (n + length p.payload) p.timestamp, none)
  unfolding insert
  insert-more more =
      let (at, told, some_data, short, _) = c in
      let past : add16 n (length p.payload) ≡ n + length p.payload = omega (arith, short) in
      let here : leb n n ≡ true = ground arith in
      let on : ltb n (n + length p.payload) ≡ true = ground arith in
      rw (offset_of-at n p at told short)
        (rw here (rw (length_of-told n p at told short) (rw past (rw on (rw more refl)))))

  pub insert-last :
      p.more_fragments ≡ false
      → Consecutive 0 (ps ++ p ∷ [])
      → insert (held ps n t) p
        ≡ ok (
          held (ps ++ p ∷ []) (n + length p.payload) p.timestamp,
          some (record {
            family = p.family;
            payload = data_of (ps ++ p ∷ []);
            timestamp = p.timestamp;
          }),
        )
  unfolding insert build
  insert-last last whole =
      let (at, told, some_data, short, _) = c in
      let past : add16 n (length p.payload) ≡ n + length p.payload = omega (arith, short) in
      let here : leb n n ≡ true = ground arith in
      let on : ltb n (n + length p.payload) ≡ true = ground arith in
      let even : (n + length p.payload == n + length p.payload) ≡ true = ground arith in
      rw (offset_of-at n p at told short) (
        rw here (
          rw (length_of-told n p at told short) (
            rw past (
              rw on (
                rw (append_data-Consecutive (ps ++ p ∷ []) [] 0 whole) (rw last (rw even refl)))))))

abbrev pub given : Option Reassembled → List Reassembled → List Reassembled
given none outs = outs
given (some out) outs = out ∷ outs

-- The packets that the fragments of one datagram give.
unfoldable pub insert_all : Fragments → List Packet → Outcome DefragError (List Reassembled)
insert_all f [] = ok []
insert_all f (p ∷ ps) = insert f p >>= λ (f', out). insert_all f' ps >>= λ outs. ok (given out outs)

pub length-data_of :
    (ps : List Packet) (p : Packet)
    → length (data_of (ps ++ p ∷ [])) ≡ length (data_of ps) + length p.payload
length-data_of [] p = omega (arith, length-append p.payload [])
length-data_of (q ∷ ps) p = omega (
  arith,
  length-append q.payload (data_of (ps ++ p ∷ [])),
  length-append q.payload (data_of ps),
  length-data_of ps p,
)

abbrev pub whole_packet : List Packet → Packet → Reassembled
whole_packet ps p = record { family = p.family; payload = data_of ps; timestamp = p.timestamp }

insert_all-held :
    (rest ps : List Packet) (p : Packet) (t : ℤ)
    → AllMore rest
    → p.more_fragments ≡ false
    → Consecutive 0 (ps ++ (rest ++ p ∷ []))
    → insert_all (held ps (length (data_of ps)) t) (rest ++ p ∷ [])
      ≡ ok (whole_packet (ps ++ (rest ++ p ∷ [])) p ∷ [])
unfolding insert_all
insert_all-held [] ps p t more last c =
    let c' = Consecutive-behind ps (p ∷ []) c in
    rw (insert-last ps (length (data_of ps)) t p c' last c) refl
insert_all-held (q ∷ rest) ps p t (first, more) last c =
    let (at, told, some_data, short, _) = Consecutive-behind ps (q ∷ (rest ++ p ∷ [])) c in
    let taken = insert-more ps (length (data_of ps)) t q (at, told, some_data, short, tt) first in
    let size : length (data_of ps) + length q.payload ≡ length (data_of (ps ++ q ∷ [])) =
      sym (length-data_of ps q) in
    let same : (ps ++ q ∷ []) ++ (rest ++ p ∷ []) ≡ ps ++ (q ∷ (rest ++ p ∷ [])) =
      append_assoc ps (q ∷ []) (rest ++ p ∷ []) in
    rw taken (
      rw size (
        rw
          (insert_all-held rest (ps ++ q ∷ []) p q.timestamp more last
            (subst (Consecutive 0) (sym same) c))
          (rw same refl)))

-- Fragments of one datagram that come in their order, each with data and all but the last with the
-- flag for more, of one or several families, give exactly one packet, when the last one comes: its
-- data are theirs, one after the other, and its family and time are those of the last. The headers
-- tell the length of the data, whose end and 20 bytes more fit in 16 bits.
pub insert_all-Consecutive :
    (ps : List Packet) (p : Packet)
    → AllMore ps
    → p.more_fragments ≡ false
    → Consecutive 0 (ps ++ p ∷ [])
    → insert_all no_fragments (ps ++ p ∷ []) ≡ ok (whole_packet (ps ++ p ∷ []) p ∷ [])
insert_all-Consecutive ps p more last c = insert_all-held ps [] p (pos 0) more last c
