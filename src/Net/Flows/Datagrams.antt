-- ===== src/Net/Flows/Datagrams.antt =====
-- A datagram in fragments, with other packets between them, through `IpDefragger`.
use go_dns_collector.Base.{
  ℕ, ◌+◌, ◌<◌, ◌≡◌, refl, sym, ap, ◌∙◌, subst, true, false, none, List, [], ◌∷◌, ◌++◌, append-nil,
  append_assoc, arith, ltb, ℤ, pos, length, length-append, ok, string_key, bytes_key, value_or,
  find,
}
use go_dns_collector.Net.Defrag.{Packet, Fragments, no_fragments, Reassembled}
use go_dns_collector.Net.Defrag.InOrder.{
  data_of, Consecutive, AllMore, held, insert-more, insert-last, length-data_of, Consecutive-behind,
  whole_packet,
}
use go_dns_collector.Net.Flows.{
  Datagram, IpFlow, same_flow, same_flow_iff, flow_key, flow_of, max_fragments, dont_defrag,
  security_checks, flush, put, packet, pending, conclude, defrag_ip, rebuilt,
}
use go_dns_collector.Net.Flows.Isolated.{find-put}
use go_dns_collector.Net.Flows.Defragger.{ip_defragger, send_by}
use go_dns_collector.Net.Flows.Whole.{AllWhole, sent, sent-append, ip_defragger-whole}

-- Fragments, each with the packets that come before it and are no fragments.
abbrev pub traffic : List (List Datagram × Datagram) → List Datagram
traffic [] = []
traffic ((ws, d) ∷ ts) = ws ++ d ∷ traffic ts

abbrev pub others : List (List Datagram × Datagram) → List Datagram
others [] = []
others ((ws, d) ∷ ts) = ws ++ others ts

abbrev pub packets : List (List Datagram × Datagram) → List Packet
packets [] = []
packets ((ws, d) ∷ ts) = d.packet ∷ packets ts

-- Fragments of the flow `k` that pass the checks, between packets that are none.
abbrev pub AllOf : IpFlow → List (List Datagram × Datagram) → Type 0
AllOf k [] = Unit
AllOf k ((ws, d) ∷ ts) =
    AllWhole ws
    × (dont_defrag d ≡ false)
    × (security_checks d ≡ none)
    × (flow_of d ≡ k)
    × AllOf k ts

module _ (decode : Reassembled → Datagram) where
  module _ (d : Datagram) (fs : List (IpFlow × Fragments)) (ps : List Packet) (n : ℕ) (t : ℤ)
      (part : dont_defrag d ≡ false) (safe : security_checks d ≡ none)
      (had : value_or no_fragments (find (flow_of d) fs) ≡ held ps n t)
      (c : Consecutive n (d.packet ∷ [])) where
    defrag_ip-more :
        d.packet.more_fragments ≡ true
        → length (ps ++ d.packet ∷ []) < max_fragments d.packet.family
        → defrag_ip decode d fs
          ≡ ok (
            put
                (flow_of d)
                (held (ps ++ d.packet ∷ []) (n + length d.packet.payload) d.packet.timestamp)
                fs,
            pending,
          )
    unfolding defrag_ip conclude
    defrag_ip-more more short =
        let room : ltb (max_fragments d.packet.family) (length (ps ++ d.packet ∷ []) + 1) ≡ false =
          ground arith in
        rw part (rw safe (rw had (rw (insert-more ps n t d.packet c more) (rw room refl))))

    defrag_ip-last :
        d.packet.more_fragments ≡ false
        → Consecutive 0 (ps ++ d.packet ∷ [])
        → defrag_ip decode d fs
          ≡ ok (
            flush (flow_of d) fs,
            packet (rebuilt decode (whole_packet (ps ++ d.packet ∷ []) d.packet)),
          )
    unfolding defrag_ip conclude
    defrag_ip-last last whole =
        rw part (rw safe (rw had (rw (insert-last ps n t d.packet c last whole) refl)))

find-put-same :
    (k : IpFlow) (d : Datagram) (f : Fragments) (fs : List (IpFlow × Fragments))
    → flow_of d ≡ k
    → value_or no_fragments (find k (put (flow_of d) f fs)) ≡ f
find-put-same k d f fs e =
    let same : same_flow (flow_of d) k ≡ true = (same_flow_iff (flow_of d) k).1 e in
    rw (find-put k (flow_of d) f fs) (rw same refl)

module _ (decode : Reassembled → Datagram) (k : IpFlow) where
  fragments-held :
      (ts : List (List Datagram × Datagram)) (ws : List Datagram) (d : Datagram) (ps : List Packet)
      (t : ℤ) (fs : List (IpFlow × Fragments))
      → value_or no_fragments (find k fs) ≡ held ps (length (data_of ps)) t
      → AllOf k (ts ++ (ws, d) ∷ [])
      → AllMore (packets ts)
      → d.packet.more_fragments ≡ false
      → Consecutive 0 (ps ++ packets (ts ++ (ws, d) ∷ []))
      → length ps + length ts < max_fragments k.family
      → (let out = rebuilt decode (whole_packet (ps ++ packets (ts ++ (ws, d) ∷ [])) d.packet) in
          ip_defragger decode (traffic (ts ++ (ws, d) ∷ [])) fs
          ≡ ok (sent (others (ts ++ (ws, d) ∷ [])) (send_by out.transport out ([], []))))
  unfolding ip_defragger
  fragments-held [] ws d ps t fs had (wholes, part, safe, own, _) more last c room =
      let had' : value_or no_fragments (find (flow_of d) fs) ≡ held ps (length (data_of ps)) t =
        rw own had in
      let c' = Consecutive-behind ps (d.packet ∷ []) c in
      rw (ip_defragger-whole decode ws (d ∷ []) fs wholes) (
        rw (defrag_ip-last decode d fs ps (length (data_of ps)) t part safe had' c' last c)
          (rw (append-nil ws) refl))
  fragments-held ((vs, e) ∷ ts) ws d ps t fs had (wholes, part, safe, own, parts) (first, more) last
        c room =
      let had' : value_or no_fragments (find (flow_of e) fs) ≡ held ps (length (data_of ps)) t =
        rw own had in
      let (at, told, some_data, short, _) =
        Consecutive-behind ps (e.packet ∷ packets (ts ++ (ws, d) ∷ [])) c in
      let family : e.packet.family ≡ k.family = ap (λ i. i.family) own in
      let size : length (data_of ps) + length e.packet.payload
          ≡ length (data_of (ps ++ e.packet ∷ [])) =
        sym (length-data_of ps e.packet) in
      let one : length (ps ++ e.packet ∷ []) ≡ length ps + 1 =
        omega (arith, length-append ps (e.packet ∷ [])) in
      let room' : length (ps ++ e.packet ∷ []) < max_fragments e.packet.family =
        subst (λ v. length (ps ++ e.packet ∷ []) < max_fragments v) (sym family)
          (omega (arith, room, one)) in
      let same : (ps ++ e.packet ∷ []) ++ packets (ts ++ (ws, d) ∷ [])
          ≡ ps ++ (e.packet ∷ packets (ts ++ (ws, d) ∷ [])) =
        append_assoc ps (e.packet ∷ []) (packets (ts ++ (ws, d) ∷ [])) in
      let f =
        held (ps ++ e.packet ∷ []) (length (data_of ps) + length e.packet.payload)
          e.packet.timestamp in
      let fs' = put (flow_of e) f fs in
      let rest =
        fragments-held ts ws d (ps ++ e.packet ∷ []) e.packet.timestamp fs'
          (find-put-same k e f fs own
            ∙ ap (λ m. held (ps ++ e.packet ∷ []) m e.packet.timestamp) size)
          parts more last (subst (Consecutive 0) (sym same) c) (omega (arith, room, one)) in
      let out =
        rebuilt decode (whole_packet (ps ++ packets ((vs, e) ∷ (ts ++ (ws, d) ∷ []))) d.packet) in
      rw (ip_defragger-whole decode vs (e ∷ traffic (ts ++ (ws, d) ∷ [])) fs wholes) (
        rw
          (defrag_ip-more decode e fs ps (length (data_of ps)) t part safe had'
            (at, told, some_data, short, tt) first room')
          (rw rest (
            rw same (
              ap ok (
                sent-append vs (others (ts ++ (ws, d) ∷ []))
                  (send_by out.transport out ([], [])))))))

  -- The fragments of a datagram come in their order, each with data and all but the last with the flag
  -- for more; packets that are no fragments come before and between them; the map has nothing of the
  -- datagram's flow, and the fragments before the last are fewer than its family's maximum. Then the
  -- loop sends the other packets, each to the channel of its transport in their order, and behind them
  -- the datagram with the data of all fragments. The headers tell the length of the data, whose end
  -- and 20 bytes more fit in 16 bits, and all fragments pass the security checks.
  pub ip_defragger-fragments :
      (ts : List (List Datagram × Datagram)) (ws : List Datagram) (d : Datagram)
      (fs : List (IpFlow × Fragments))
      → find k fs ≡ none
      → AllOf k (ts ++ (ws, d) ∷ [])
      → AllMore (packets ts)
      → d.packet.more_fragments ≡ false
      → Consecutive 0 (packets (ts ++ (ws, d) ∷ []))
      → length ts < max_fragments k.family
      → (let out = rebuilt decode (whole_packet (packets (ts ++ (ws, d) ∷ [])) d.packet) in
          ip_defragger decode (traffic (ts ++ (ws, d) ∷ [])) fs
          ≡ ok (sent (others (ts ++ (ws, d) ∷ [])) (send_by out.transport out ([], []))))
  ip_defragger-fragments ts ws d fs new parts more last c room =
      fragments-held ts ws d [] (pos 0) fs (ap (value_or no_fragments) new) parts more last c
        (omega (arith, room))
