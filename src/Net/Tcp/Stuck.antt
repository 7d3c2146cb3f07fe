-- ===== src/Net/Tcp/Stuck.antt =====
-- A stream whose buffer has passed the end of a message.
use go_dns_collector.Base.{
  ◌+◌, ◌*◌, ◌/◌, ◌%◌, ◌<◌, ◌≡◌, refl, ap, ◌∙◌, false, List, [], ◌∷◌, ◌++◌, append-nil, arith,
  length, length-append, Bytes, string_key, bytes_key,
}
use go_dns_collector.Net.Tcp.Framing.{frame, Idle}
use go_dns_collector.Net.Tcp.{
  Segment, DnsPacket, Stream, read_len, send, receive, reassembled, is_skipped,
}

module _ {Flow : Type 0} where
  -- The buffer is longer than the message that it starts with.
  abbrev pub Overrun : Stream Flow → Type 0
  Overrun s = (0 < s.len_dns) × (s.len_dns + 2 < length s.buffer)

  abbrev pub Silent : Stream Flow × List (DnsPacket Flow) → Type 0
  Silent (s, sent) = Overrun s × (sent ≡ [])

  receive-Overrun : (s : Stream Flow) (r : Segment) → Overrun s → Silent (receive s r)
  unfolding receive send read_len
  receive-Overrun s r (h, h') = ground (arith, length-append s.buffer r.bytes)

  reassembled-Overrun :
      (rs : List Segment) (s : Stream Flow) → Overrun s → Silent (reassembled s rs)
  unfolding reassembled
  reassembled-Overrun [] s h = (h, refl)
  reassembled-Overrun (r ∷ rs) s h =
      let (h', e) = receive-Overrun s r h in
      let (h'', e') = reassembled-Overrun rs _ h' in (h'', rw e e')

  start-Overrun :
      (s : Stream Flow) (r : Segment) (m more : Bytes)
      → Idle s
      → is_skipped r.skip ≡ false
      → r.bytes ≡ frame m ++ more
      → 0 < length m
      → length m < 65536
      → 0 < length more
      → Silent (receive s r)
  unfolding receive send read_len
  start-Overrun s r m more (i, i') g e l l' k =
      let f : length m / 256 * 256 + length m % 256 ≡ length m = omega arith in
      let n = length-append m more in rw i (rw i' (rw g (rw e (rw f (ground arith)))))

  -- When one segment brings an idle stream a message of 1 to 65535 bytes and the first bytes of what
  -- follows it, the stream sends no packet for it, nor for any segments after it.
  pub reassembled-stuck :
      (s : Stream Flow) (r : Segment) (rs : List Segment) (m more : Bytes)
      → Idle s
      → is_skipped r.skip ≡ false
      → r.bytes ≡ frame m ++ more
      → 0 < length m
      → length m < 65536
      → 0 < length more
      → (reassembled s (r ∷ rs)).1 ≡ []
  unfolding reassembled
  reassembled-stuck s r rs m more i g e l l' k =
      let (h, sent) = start-Overrun s r m more i g e l l' k in
      let (h', sent') = reassembled-Overrun rs _ h in
      ap (◌++◌ (receive s r).1) sent' ∙ (append-nil _ ∙ sent)
