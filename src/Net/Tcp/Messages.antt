-- ===== src/Net/Tcp/Messages.antt =====
-- Streams of messages, in the order in which they are sent.
use go_dns_collector.Base.{
  ◌≡◌, refl, sym, ap, ◌∙◌, List, [], ◌∷◌, ◌++◌, append_assoc, arith, Bytes, string_key, bytes_key,
}
use go_dns_collector.Net.Tcp.{Segment, Stream, receive, reassembled}
use go_dns_collector.Net.Tcp.Framing.{
  frame, joined, Gapless, Idle, Delivers, payloads-append, reassembled-Pending,
}

-- Each message comes in segments of its own, however many and wherever they cut its frame.
abbrev pub Framed : List (Bytes × List Segment) → Type 0
Framed [] = Unit
Framed ((m, rs) ∷ ms) = Gapless rs × (joined rs ≡ frame m) × Framed ms

abbrev pub segments : List (Bytes × List Segment) → List Segment
segments [] = []
segments ((m, rs) ∷ ms) = rs ++ segments ms

abbrev pub messages : List (Bytes × List Segment) → List Bytes
messages [] = []
messages ((m, rs) ∷ ms) = m ∷ messages ms

module _ {Flow : Type 0} where
  reassembled-append :
      (rs rs' : List Segment) (s : Stream Flow)
      → reassembled s (rs ++ rs') ≡ (
        (reassembled (reassembled s rs).0 rs').0,
        (reassembled s rs).1 ++ (reassembled (reassembled s rs).0 rs').1,
      )
  unfolding reassembled
  reassembled-append [] rs' s = refl
  reassembled-append (r ∷ rs) rs' s =
      let (s', sent) = receive s r in
      rw (reassembled-append rs rs' s')
        (ap (λ ps. ((reassembled (reassembled s' rs).0 rs').0, ps)) (sym (append_assoc sent _ _)))

  run_nothing : (s : Stream Flow) → Idle s → Delivers [] (reassembled s [])
  unfolding reassembled
  run_nothing s h = (refl, h)

  -- A stream with an empty buffer that gets messages one after the other, each in segments of its
  -- own that cut its two-byte length and its bytes at any places, and without a gap, sends exactly
  -- these messages in their order, and its buffer is empty again. A message may be
  -- empty.
  pub reassembled-frames :
      (ms : List (Bytes × List Segment)) (s : Stream Flow)
      → Idle s
      → Framed ms
      → Delivers (messages ms) (reassembled s (segments ms))
  reassembled-frames [] s h f = run_nothing s h
  reassembled-frames ((m, rs) ∷ ms) s (h, h') (g, e, f) =
      let (k, i) = reassembled-Pending rs m [] s (h, h') g (omega arith) e in
      let (k', i') = reassembled-frames ms (reassembled s rs).0 i f in
      rw (reassembled-append rs (segments ms) s)
        (payloads-append (reassembled s rs).1 _ ∙ (rw k (ap (◌∷◌ m) k')), i')
