-- ===== src/Net/Defrag/Swapped.antt =====
-- IPv4 fragments that do not come in their order.
use go_dns_collector.Base.{
  ◌<◌, ◌≡◌, refl, true, none, List, [], ◌∷◌, arith, leb, lt→ltb, gt→leb, nil_assertion, ok, panic,
  string_key, bytes_key,
}
use go_dns_collector.Net.Defrag.{
  ip4, Packet, Fragments, no_fragments, offset_of, length_of, add16, insert,
}
use go_dns_collector.Net.Defrag.InOrder.{insert_all}

after_first : Packet → Fragments
after_first b = record {
  list = b ∷ [];
  highest = add16 (offset_of b) (length_of b);
  current = add16 0 (length_of b);
  last_seen = b.timestamp;
}

first_fragment :
    (b : Packet)
    → b.more_fragments ≡ true
    → 0 < add16 (offset_of b) (length_of b)
    → insert no_fragments b ≡ ok (after_first b, none)
unfolding insert after_first
first_fragment b more some_data =
    let here : leb 0 (offset_of b) ≡ true = ground arith in
    rw here (rw more (rw (lt→ltb _ _ some_data) refl))

second_fragment :
    (a b : Packet)
    → b.family ≡ ip4
    → offset_of a < add16 (offset_of b) (length_of b)
    → insert (after_first b) a ≡ panic nil_assertion
unfolding insert after_first
second_fragment a b v before = rw (gt→leb _ _ before) (rw v refl)

-- When an IPv4 fragment with the flag for more is the first of its datagram to come, a fragment that
-- starts before its end panics, whatever else comes after it.
pub insert_all-swapped :
    (a b : Packet) (rest : List Packet)
    → b.family ≡ ip4
    → b.more_fragments ≡ true
    → offset_of a < add16 (offset_of b) (length_of b)
    → insert_all no_fragments (b ∷ a ∷ rest) ≡ panic nil_assertion
unfolding insert_all
insert_all-swapped a b rest v more before =
    rw (first_fragment b more (omega (arith, before))) (rw (second_fragment a b v before) refl)
