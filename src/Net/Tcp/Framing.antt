-- ===== src/Net/Tcp/Framing.antt =====
-- Messages in whatever segments they come.
use go_dns_collector.Base.{
  ℕ, suc, ◌+◌, ◌*◌, ◌/◌, ◌%◌, ◌≤◌, ◌<◌, ◌≡◌, refl, sym, ap, ◌∙◌, ◌⊎◌, inl, inr, true, false, some,
  List, [], ◌∷◌, ◌++◌, append-nil, append_assoc, arith, ltb, ◌==◌, if◌then◌else◌, Bool-cases, ℤ,
  length, length-append, take, drop, Bytes, be16, string_key, bytes_key,
}
use go_dns_collector.Net.Tcp.{
  Segment, DnsPacket, Stream, read_len, send, receive, reassembled, is_skipped,
}

-- A message behind its length, as RFC 1035 4.2.2 sends it.
abbrev pub frame : Bytes → Bytes
frame m = length m / 256 ∷ length m % 256 ∷ m

abbrev pub joined : List Segment → Bytes
joined [] = []
joined (r ∷ rs) = r.bytes ++ joined rs

-- No segment follows a gap.
abbrev pub Gapless : List Segment → Type 0
Gapless [] = Unit
Gapless (r ∷ rs) = (is_skipped r.skip ≡ false) × Gapless rs

-- The length that is read from the start of a frame.
pub be16-frame : (m w rest : Bytes) → w ++ rest ≡ frame m → 2 ≤ length w → be16 0 w ≡ length m
be16-frame m [] rest e h = omega arith
be16-frame m (x ∷ []) rest e h = omega arith
be16-frame m (x ∷ y ∷ w) rest e h =
    let e' : be16 0 (x ∷ y ∷ (w ++ rest)) ≡ be16 0 (frame m) = ap (be16 0) e in omega (arith, e')

length-frame : (m w rest : Bytes) → w ++ rest ≡ frame m → length w + length rest ≡ length m + 2
length-frame m w rest e =
    let e' : length (w ++ rest) ≡ length (frame m) = ap length e in
    omega (arith, e', length-append w rest)

no_rest : (rest : Bytes) → length rest ≡ 0 → rest ≡ []
no_rest [] h = refl
no_rest (x ∷ rest) h = ground arith

take_length : (xs : Bytes) → take (length xs) xs ≡ xs
take_length [] = refl
take_length (x ∷ xs) = ap (◌∷◌ x) (take_length xs)

drop_length : (xs : Bytes) → drop (length xs) xs ≡ []
drop_length [] = refl
drop_length (x ∷ xs) = drop_length xs

drop_frame : (x y : ℕ) (m : Bytes) → drop (length m + 2) (x ∷ y ∷ m) ≡ []
drop_frame x y m = let e : length m + 2 ≡ suc (suc (length m)) = omega arith in rw e (drop_length m)

module _ {Flow : Type 0} where
  abbrev pub Idle : Stream Flow → Type 0
  Idle s = (s.buffer ≡ []) × (s.len_dns ≡ 0)

  abbrev pub payloads : List (DnsPacket Flow) → List Bytes
  payloads [] = []
  payloads (p ∷ ps) = p.payload ∷ payloads ps

  -- The stream has read `p` of the frame of `m`.
  abbrev pub Pending : Bytes → Bytes → Stream Flow → Type 0
  Pending m p s = (s.buffer ≡ p) × (s.len_dns ≡ (if ltb (length p) 2 then 0 else length m))

  abbrev Waits : Bytes → Bytes → Stream Flow × List (DnsPacket Flow) → Type 0
  Waits m p (s, sent) = Pending m p s × (sent ≡ [])

  abbrev pub Delivers : List Bytes → Stream Flow × List (DnsPacket Flow) → Type 0
  Delivers ms (s, sent) = (payloads sent ≡ ms) × Idle s

  receive-Waits :
      (m p rest : Bytes) (s : Stream Flow) (r : Segment)
      → Pending m p s
      → is_skipped r.skip ≡ false
      → (p ++ r.bytes) ++ rest ≡ frame m
      → 0 < length rest
      → Waits m (p ++ r.bytes) (receive s r)
  unfolding receive send read_len
  receive-Waits m p rest s r (h, h') g e l =
      let w = p ++ r.bytes in
      let n : length w + length rest ≡ length m + 2 = length-frame m w rest e in
      let n' : length w ≡ length p + length r.bytes = length-append p r.bytes in
      let f : 2 ≤ length w → be16 0 w ≡ length m = be16-frame m w rest e in
      rw h (rw g (ground (arith, f)))

  send-Delivers :
      (m : Bytes) (t s : Stream Flow) (seen : ℤ)
      → s.buffer ≡ frame m
      → s.len_dns ≡ length m
      → Delivers (m ∷ []) (send t seen (some s))
  unfolding send
  send-Delivers m t s seen h h' =
      let c : (length (frame m) == length m + 2) ≡ true = ground arith in
      rw h (rw h' (rw c (ap (λ p. p ∷ []) (take_length m), (drop_frame _ _ m, refl))))

  receive-Delivers :
      (m p : Bytes) (s : Stream Flow) (r : Segment)
      → Pending m p s
      → is_skipped r.skip ≡ false
      → length p < length m + 2
      → p ++ r.bytes ≡ frame m
      → Delivers (m ∷ []) (receive s r)
  unfolding receive send read_len
  receive-Delivers m p s r (h, h') g l e =
      let f : length m / 256 * 256 + length m % 256 ≡ length m = omega arith in
      let c : ltb (length (frame m)) 2 ≡ false = ground arith in
      let last : s.len_dns ≡ 0 ⊎ s.len_dns ≡ length m = ground arith in
      let s' = record s { buffer = frame m } in
      let s'' = record s' { len_dns = length m; tcp_reassembled = false } in
      rw h (
        rw g (
          rw e (elim (Bool-cases (s.len_dns == 0)) [
            | inl z ↦ rw z (rw c (rw f (send-Delivers m s' s'' r.seen refl refl)))
            | inr z ↦ rw z (send-Delivers m s' s' r.seen refl (ground (arith, last)))
          ])))

  pub payloads-append :
      (ps qs : List (DnsPacket Flow)) → payloads (ps ++ qs) ≡ payloads ps ++ payloads qs
  payloads-append [] qs = refl
  payloads-append (p ∷ ps) qs = ap (◌∷◌ p.payload) (payloads-append ps qs)

  reassembled-Delivers :
      (r : Segment) (rs : List Segment) (s : Stream Flow) (ms ns : List Bytes)
      → payloads (receive s r).1 ≡ ms
      → Delivers ns (reassembled (receive s r).0 rs)
      → Delivers (ms ++ ns) (reassembled s (r ∷ rs))
  unfolding reassembled
  reassembled-Delivers r rs s ms ns h (k, i) =
      (payloads-append (receive s r).1 _ ∙ (rw h (ap (◌++◌ ms) k)), i)

  -- Segments without bytes leave an idle stream idle.
  receive-Idle : (s : Stream Flow) (r : Segment) → Idle s → r.bytes ≡ [] → Delivers [] (receive s r)
  unfolding receive send read_len
  receive-Idle s r (h, h') e = rw h (rw h' (rw e (ground arith)))

  reassembled-Idle :
      (rs : List Segment) (s : Stream Flow)
      → Idle s
      → joined rs ≡ []
      → Delivers [] (reassembled s rs)
  unfolding reassembled
  reassembled-Idle [] s h e = (refl, h)
  reassembled-Idle (r ∷ rs) s h e =
      let n : length (r.bytes ++ joined rs) ≡ 0 = ap length e in
      let n' = length-append r.bytes (joined rs) in
      let (k, i) = receive-Idle s r h (no_rest r.bytes (omega (arith, n))) in
      let later = reassembled-Idle rs _ i (no_rest (joined rs) (omega (arith, n))) in
      reassembled-Delivers r rs s [] [] k later

  pub reassembled-Pending :
      (rs : List Segment) (m p : Bytes) (s : Stream Flow)
      → Pending m p s
      → Gapless rs
      → length p < length m + 2
      → p ++ joined rs ≡ frame m
      → Delivers (m ∷ []) (reassembled s rs)
  unfolding reassembled
  reassembled-Pending [] m p s h g l e =
      let n : length p + 0 ≡ length m + 2 = length-frame m p [] e in absurd (omega (arith, n))
  reassembled-Pending (r ∷ rs) m p s h (g, gs) l e =
      let w = p ++ r.bytes in
      let e' : w ++ joined rs ≡ frame m = append_assoc p r.bytes (joined rs) ∙ e in
      let n = length-frame m w (joined rs) e' in
      elim (Bool-cases (ltb 0 (length (joined rs)))) [
        | inl more ↦
            (let (i, k) = receive-Waits m p (joined rs) s r h g e' (ground arith) in
              let later = reassembled-Pending rs m w _ i gs (ground arith) e' in
              reassembled-Delivers r rs s [] (m ∷ []) (ap payloads k) later)
        | inr last ↦
            (let none_left : joined rs ≡ [] = no_rest (joined rs) (ground arith) in
              let whole : w ≡ frame m = sym (append-nil w) ∙ (ap (◌++◌ w) (sym none_left) ∙ e') in
              let (k, i) = receive-Delivers m p s r h g l whole in
              reassembled-Delivers r rs s (m ∷ []) [] k (reassembled-Idle rs _ i none_left))
      ]
