-- ===== src/Net/Examples.antt =====
-- Runs of the reassembly on concrete segments and fragments.
use go_dns_collector.Base.{
  ℕ, String, ◌≡◌, refl, Bool, true, false, List, [], ◌∷◌, ◌++◌, arith, pos, Bytes, nil_assertion,
  panic, string_key, bytes_key,
}
use go_dns_collector.Net.Defrag.{ip4, Family, Packet, no_fragments}
use go_dns_collector.Net.Defrag.InOrder.{insert_all}
use go_dns_collector.Net.Defrag.Swapped.{insert_all-swapped}
use go_dns_collector.Net.Tcp.{Segment, Stream, new_stream, reassembled}
use go_dns_collector.Net.Tcp.Framing.{frame, Delivers}
use go_dns_collector.Net.Tcp.Messages.{Framed, segments, messages, reassembled-frames}
use go_dns_collector.Net.Tcp.Stuck.{reassembled-stuck}

abbrev segment : Bytes → Segment
segment bytes = record { bytes = bytes; skip = pos 0; seen = pos 5 }

abbrev stream : Stream String
stream = new_stream "a" "b" false

-- A message of three bytes in three segments, the first one cutting its length, and an empty one.
abbrev two_messages : List (Bytes × List Segment)
two_messages =
    (10 ∷ 20 ∷ 30 ∷ [], segment (0 ∷ []) ∷ segment (3 ∷ 10 ∷ 20 ∷ []) ∷ segment (30 ∷ []) ∷ [])
    ∷ ([], segment (0 ∷ 0 ∷ []) ∷ [])
    ∷ []

two_messages-Framed : Framed two_messages
two_messages-Framed = ((refl, (refl, (refl, tt))), refl, ((refl, tt), refl, tt))

reassembled-frames_example :
    Delivers (messages two_messages) (reassembled stream (segments two_messages))
reassembled-frames_example = reassembled-frames two_messages stream (refl, refl) two_messages-Framed

reassembled-stuck_example :
    (reassembled stream
      (segment (frame (10 ∷ 20 ∷ []) ++ frame (30 ∷ [])) ∷ segment (frame (40 ∷ [])) ∷ [])).1
    ≡ []
reassembled-stuck_example =
    reassembled-stuck stream (segment (frame (10 ∷ 20 ∷ []) ++ frame (30 ∷ [])))
      (segment (frame (40 ∷ [])) ∷ []) (10 ∷ 20 ∷ []) (frame (30 ∷ [])) (refl, refl) refl refl
      (omega arith) (omega arith) (omega arith)

abbrev fragment : Family → ℕ → Bool → Packet
fragment family offset more = record {
  family = family;
  frag_offset = offset;
  ip_length = 16;
  more_fragments = more;
  payload = 1 ∷ 2 ∷ 3 ∷ 4 ∷ 5 ∷ 6 ∷ 7 ∷ 8 ∷ [];
  timestamp = pos offset;
}

abbrev fragment4 : ℕ → Packet
fragment4 offset = record (fragment ip4 offset true) { ip_length = 28 }

insert_all-swapped_example :
    insert_all no_fragments (fragment4 1 ∷ fragment4 0 ∷ []) ≡ panic nil_assertion
insert_all-swapped_example =
    insert_all-swapped (fragment4 0) (fragment4 1) [] refl refl (omega arith)
