-- ===== src/Net/Defrag.antt =====
-- `fragments.insert` and `fragments.build` of netlib/ipdefrag.go. A packet is what gopacket decodes
-- of its headers: IPv4, or IPv6 with a fragment header. The packet that `build` serialises is its
-- payload, its family and its time.
pub mod InOrder
pub mod Swapped
use go_dns_collector.Base.{
  ℕ, ◌+◌, ◌-◌, ◌*◌, ◌%◌, Bool, not, ◌&&◌, Option, none, some, List, [], ◌∷◌, ◌++◌, ltb, leb, ◌==◌,
  if◌then◌else◌, ℤ, pos, length, Bytes, nil_assertion, Outcome, ok, err, panic, ◌>>=◌, slice,
}

pub data Family : Type 0 where
  ip4 ip6 : Family

-- `frag_offset` counts eight bytes; `ip_length` is the `Length` of the IPv4 or IPv6 header.
pub record Packet : Type 0 where
  pub family : Family
  pub frag_offset : ℕ
  pub ip_length : ℕ
  pub more_fragments : Bool
  pub payload : Bytes
  pub timestamp : ℤ

pub record Fragments : Type 0 where
  pub list : List Packet
  pub highest : ℕ
  pub current : ℕ
  pub last_seen : ℤ

-- new(fragments)
abbrev pub no_fragments : Fragments
no_fragments = record { list = []; highest = 0; current = 0; last_seen = pos 0 }

pub record Reassembled : Type 0 where
  pub family : Family
  pub payload : Bytes
  pub timestamp : ℤ

pub data DefragError : Type 0 where
  invalid_fragment hole_found : DefragError

-- Arithmetic on uint16.
abbrev pub add16 : ℕ → ℕ → ℕ
add16 a b = (a + b) % 65536

abbrev pub sub16 : ℕ → ℕ → ℕ
sub16 a b = (a + 65536 - b) % 65536

abbrev pub header_length : Family → ℕ
header_length ip4 = 20
header_length ip6 = 8

-- The offset and the length of the data of a fragment.
abbrev pub offset_of : Packet → ℕ
offset_of p = p.frag_offset * 8 % 65536

abbrev pub length_of : Packet → ℕ
length_of p = sub16 p.ip_length (header_length p.family)

abbrev also : Packet → Option (List Packet) → Option (List Packet)
also e none = none
also e (some es) = some (e ∷ es)

-- The loop of `insert` over a list that holds later fragments; `none` for a fragment that is there.
-- The assertion on the IPv6 fragment layer panics on an IPv4 packet, which has none.
pub insert_before : Packet → List Packet → Outcome DefragError (Option (List Packet))
insert_before p [] = ok (some [])
insert_before p (e ∷ es) = elim e.family [
  | ip4 ↦ panic nil_assertion
  | ip6 ↦
      (if offset_of p == offset_of e
        then ok none
        else if leb (offset_of p) (offset_of e)
        then ok (some (p ∷ e ∷ es))
        else insert_before p es >>= λ rest. ok (also e rest))
]

-- The loop of `build`: the data of the fragments and the offset behind them.
pub append_data : List Packet → Bytes → ℕ → Outcome DefragError Bytes
append_data [] final current = ok final
append_data (e ∷ es) final current =
    if offset_of e == current
    then append_data es (final ++ e.payload) (add16 current (length_of e))
    else if ltb (offset_of e) current
    then (let start = sub16 current (offset_of e) in
        if ltb (length_of e) start
        then err invalid_fragment
        else slice start (length e.payload) e.payload >>= λ rest.
            append_data es (final ++ rest) (add16 current (offset_of e)))
    else err hole_found

unfoldable pub build : Fragments → Packet → Outcome DefragError Reassembled
unfolding append_data
build f p = append_data f.list [] 0 >>= λ final.
    ok (record { family = p.family; payload = final; timestamp = p.timestamp })

-- The counters when the packet stands in the list.
abbrev pub updated : Fragments → Packet → List Packet → Fragments
updated f p list =
    let past = add16 (offset_of p) (length_of p) in
    record {
      list = list;
      highest = if ltb f.highest past then past else f.highest;
      current = add16 f.current (length_of p);
      last_seen = p.timestamp;
    }

-- The end of `insert`, when the packet stands in the list.
pub update : Fragments → Packet → List Packet → Outcome DefragError (Fragments × Option Reassembled)
update f p list =
    let f' = updated f p list in
    if not p.more_fragments && f'.highest == f'.current
    then (build f' p >>= λ out. ok (f', some out))
    else ok (f', none)

abbrev inserted :
    Fragments → Packet → Option (List Packet) → Outcome DefragError (Fragments × Option Reassembled)
inserted f p none = ok (f, none)
inserted f p (some list) = update f p list

unfoldable pub insert : Fragments → Packet → Outcome DefragError (Fragments × Option Reassembled)
unfolding insert_before update
insert f p =
    if leb f.highest (offset_of p)
    then update f p (f.list ++ p ∷ [])
    else insert_before p f.list >>= inserted f p
