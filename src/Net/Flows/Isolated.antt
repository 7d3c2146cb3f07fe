-- ===== src/Net/Flows/Isolated.antt =====
-- The map of flows of `DefragIP`: what a packet does to its own flow and to the others.
use go_dns_collector.Base.{
  ℕ, ◌+◌, ◌<◌, ◌≡◌, refl, subst, inl, inr, false, Option, none, some, List, [], ◌∷◌, arith, ltb,
  if◌then◌else◌, Bool-cases, length, Outcome, ok, err, panic, string_key, bytes_key, value_or, find,
}
use go_dns_collector.Net.Defrag.{Packet, Fragments, no_fragments, Reassembled, DefragError, insert}
use go_dns_collector.Net.Flows.{
  Datagram, IpFlow, same_flow, same_flow_iff, flow_key, flow_of, DefragIpError, max_fragments,
  dont_defrag, security_checks, flush, put, Answer, unless_unsafe, left_by, conclude, defrag_ip,
}

pub find-flush :
    (j k : IpFlow) (fs : List (IpFlow × Fragments))
    → find j (flush k fs) ≡ (if same_flow k j then none else find j fs)
unfolding flush find
find-flush j k [] = ground arith
find-flush j k ((i, f) ∷ fs) =
    ground (arith, same_flow_iff i k, same_flow_iff i j, same_flow_iff k j, find-flush j k fs)

pub find-put :
    (j k : IpFlow) (f : Fragments) (fs : List (IpFlow × Fragments))
    → find j (put k f fs) ≡ (if same_flow k j then some f else find j fs)
unfolding put find
find-put j k f fs = ground (arith, find-flush j k fs)

-- What holds of the map when there is no panic.
abbrev pub Leaves :
    (List (IpFlow × Fragments) → Type 0) → Outcome ⊥ (List (IpFlow × Fragments) × Answer) → Type 0
Leaves P (ok (fs, a)) = P fs
Leaves P (err e) = ⊥
Leaves P (panic c) = Unit

module _ (decode : Reassembled → Datagram) (P : List (IpFlow × Fragments) → Type 0)
    (fs : List (IpFlow × Fragments)) where
  conclude-Leaves :
      (k : IpFlow) (f : Fragments) (p : Packet)
      (o : Outcome DefragError (Fragments × Option Reassembled))
      → P (flush k fs)
      → ((g : Fragments) → length g.list < max_fragments k.family → P (put k g fs))
      → Leaves P (conclude decode k f p fs o)
  unfolding conclude
  conclude-Leaves k f p (ok (f', some out)) gone kept = gone
  conclude-Leaves k f p (ok (f', none)) gone kept =
      elim (Bool-cases (ltb (max_fragments k.family) (length f'.list + 1))) [
        | inl e ↦ rw e gone
        | inr e ↦ rw e (kept f' (grind arith))
      ]
  conclude-Leaves k f p (err e') gone kept =
      elim (Bool-cases (ltb (max_fragments k.family) (length (left_by f p).list + 1))) [
        | inl e ↦ rw e gone
        | inr e ↦ rw e (kept (left_by f p) (grind arith))
      ]
  conclude-Leaves k f p (panic c) gone kept = tt

  unless_unsafe-Leaves :
      (d : Datagram) (check : Option DefragIpError)
      → P fs
      → P (flush (flow_of d) fs)
      → ((g : Fragments) → length g.list < max_fragments d.packet.family → P (put (flow_of d) g fs))
      → Leaves P (unless_unsafe decode d fs check)
  unless_unsafe-Leaves d none same gone kept =
      let f = value_or no_fragments (find (flow_of d) fs) in
      conclude-Leaves (flow_of d) f d.packet (insert f d.packet) gone kept
  unless_unsafe-Leaves d (some e) same gone kept = same

  -- `DefragIP` keeps the map, drops the packet's flow, or puts one below the limit.
  pub defrag_ip-Leaves :
      (d : Datagram)
      → P fs
      → P (flush (flow_of d) fs)
      → ((g : Fragments) → length g.list < max_fragments d.packet.family → P (put (flow_of d) g fs))
      → Leaves P (defrag_ip decode d fs)
  unfolding defrag_ip
  defrag_ip-Leaves d same gone kept = elim (Bool-cases (dont_defrag d)) [
    | inl e ↦ rw e same
    | inr e ↦ rw e (unless_unsafe-Leaves d (security_checks d) same gone kept)
  ]

-- A packet changes no flow but its own, whatever comes of it.
pub defrag_ip-find :
    (decode : Reassembled → Datagram) (j : IpFlow) (d : Datagram) (fs : List (IpFlow × Fragments))
    → same_flow (flow_of d) j ≡ false
    → Leaves (λ fs'. find j fs' ≡ find j fs) (defrag_ip decode d fs)
defrag_ip-find decode j d fs other =
    defrag_ip-Leaves decode (λ fs'. find j fs' ≡ find j fs) fs d refl
      (rw (find-flush j (flow_of d) fs) (rw other refl))
      (λ g short. rw (find-put j (flow_of d) g fs) (rw other refl))

-- The flows' lists are below their limit.
abbrev pub Below : List (IpFlow × Fragments) → Type 0
Below fs =
    (k : IpFlow) (f : Fragments) → find k fs ≡ some f → length f.list < max_fragments k.family

Below-flush : (k : IpFlow) (fs : List (IpFlow × Fragments)) → Below fs → Below (flush k fs)
Below-flush k fs below j f = rw (find-flush j k fs) (ground (arith, below j f))

some-length : (f g : Fragments) (n : ℕ) → some f ≡ some g → length f.list < n → length g.list < n
some-length f g n e short = ground arith

Below-put :
    (k : IpFlow) (f : Fragments) (fs : List (IpFlow × Fragments))
    → length f.list < max_fragments k.family
    → Below fs
    → Below (put k f fs)
Below-put k f fs short below j g = rw (find-put j k f fs) (elim (Bool-cases (same_flow k j)) [
  | inl e ↦ rw e (λ there.
      subst (λ i. length g.list < max_fragments i.family) ((same_flow_iff k j).0 e)
        (some-length f g (max_fragments k.family) there short))
  | inr e ↦ rw e (below j g)
])

-- Whatever packet comes, when it does not panic the lists of all flows stay below their limit.
pub defrag_ip-Below :
    (decode : Reassembled → Datagram) (d : Datagram) (fs : List (IpFlow × Fragments))
    → Below fs
    → Leaves Below (defrag_ip decode d fs)
defrag_ip-Below decode d fs below =
    defrag_ip-Leaves decode Below fs d below (Below-flush (flow_of d) fs below)
      (λ g short. Below-put (flow_of d) g fs short below)
