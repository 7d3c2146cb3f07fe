-- ===== src/Net/Flows.antt =====
-- `IpDefragmenter` of netlib/ipdefrag.go: which packets it leaves alone, which it refuses, and its map
-- of flows. What gopacket decodes of a packet is a `Datagram`.
pub mod Isolated
pub mod Defragger
pub mod Whole
pub mod Datagrams
pub mod Checks
mod Examples
use go_dns_collector.Base.{
  ℕ, ◌+◌, ◌*◌, ◌≡◌, refl, ◌↔◌, Bool, true, false, not, ◌&&◌, ◌||◌, Option, none, some, List, [],
  ◌∷◌, ◌++◌, arith, ltb, leb, ◌==◌, if◌then◌else◌, ℤ, pos, negsuc, length, Bytes, bytes_eq,
  bytes_eq_iff, Outcome, ok, err, panic, Key, string_key, bytes_key, value_or, find,
}
use go_dns_collector.Net.Defrag.{
  Family, ip4, ip6, Packet, Fragments, no_fragments, Reassembled, DefragError, invalid_fragment,
  hole_found, add16, sub16, offset_of, updated, insert_before, insert,
}

-- The ports and the payload of the transport layer, when it is UDP or TCP.
pub data Transport : Type 0 where
  udp : ℕ → ℕ → Bytes → Transport
  tcp : ℕ → ℕ → Bytes → Transport
  other_transport : Transport

-- `flow` is the two addresses, `ihl` the IPv4 header's length in words of 32 bits, `fragment_layer`
-- says whether there is an IPv6 fragment header, and `identification` is its number or the IPv4 one.
pub record Datagram : Type 0 where
  pub packet : Packet
  pub flow : Bytes
  pub identification : ℕ
  pub fragment_layer : Bool
  pub dont_fragment : Bool
  pub ihl : ℕ
  pub transport : Transport
  pub truncated : Bool

pub record IpFlow : Type 0 where
  pub family : Family
  pub flow : Bytes
  pub id : ℕ

abbrev same_family : Family → Family → Bool
same_family ip4 ip4 = true
same_family ip4 ip6 = false
same_family ip6 ip4 = false
same_family ip6 ip6 = true

same_family_iff : (v w : Family) → (same_family v w ≡ true) ↔ (v ≡ w)
same_family_iff ip4 ip4 = (λ e. refl, λ e. refl)
same_family_iff ip4 ip6 = (λ e. grind arith, λ e. grind arith)
same_family_iff ip6 ip4 = (λ e. grind arith, λ e. grind arith)
same_family_iff ip6 ip6 = (λ e. refl, λ e. refl)

-- Equality of the Go structs.
abbrev same_flow : IpFlow → IpFlow → Bool
same_flow a b = same_family a.family b.family && bytes_eq a.flow b.flow && a.id == b.id

abbrev ip_flow : Family → Bytes → ℕ → IpFlow
ip_flow v x m = record { family = v; flow = x; id = m }

IpFlow-fields :
    (v w : Family) (x y : Bytes) (m n : ℕ) → v ≡ w → x ≡ y → m ≡ n → ip_flow v x m ≡ ip_flow w y n
IpFlow-fields v w x y m n p q r = rw p (rw q (rw r refl))

pub same_flow_iff : (a b : IpFlow) → (same_flow a b ≡ true) ↔ (a ≡ b)
same_flow_iff a b = (
  λ e.
      IpFlow-fields a.family b.family a.flow b.flow a.id b.id
        ((same_family_iff a.family b.family).0 (ground arith))
        ((bytes_eq_iff a.flow b.flow).0 (ground arith)) (ground arith),
  λ e. rw e (ground (arith, same_family_iff b.family b.family, bytes_eq_iff b.flow b.flow)),
)

instance abbrev pub flow_key : Key IpFlow
flow_key = record { same = same_flow; same_iff = same_flow_iff }

-- newIPv4, newIPv6
abbrev pub flow_of : Datagram → IpFlow
flow_of d = record { family = d.packet.family; flow = d.flow; id = d.identification }

pub data DefragIpError : Type 0 where
  offset_too_big overrun too_small list_maximum : DefragIpError
  not_built : DefragError → DefragIpError

-- IPv4MaximumFragmentListLen, IPv6MaximumFragmentListLen
abbrev pub max_fragments : Family → ℕ
max_fragments ip4 = 8192
max_fragments ip6 = 52

unfoldable pub dont_defrag : Datagram → Bool
dont_defrag d = elim d.packet.family [
  | ip6 ↦ not d.fragment_layer
  | ip4 ↦ d.dont_fragment || not d.packet.more_fragments && d.packet.frag_offset == 0
]

-- `none` when there is nothing against the packet. The offset in bytes is a uint16, also where it is
-- widened before the sum.
unfoldable pub security_checks : Datagram → Option DefragIpError
security_checks d = elim d.packet.family [
  | ip6 ↦
      (if ltb 8189 d.packet.frag_offset
        then some offset_too_big
        else if ltb 65535 (offset_of d.packet + length d.packet.payload)
        then some overrun
        else none)
  | ip4 ↦
      (if ltb (sub16 d.packet.ip_length (d.ihl * 4)) 8
        then some too_small
        else if ltb 8183 d.packet.frag_offset
        then some offset_too_big
        else if ltb 65535 (add16 (offset_of d.packet) d.packet.ip_length)
        then some overrun
        else none)
]

-- delete(d.ipFlows, ipf)
pub flush : IpFlow → List (IpFlow × Fragments) → List (IpFlow × Fragments)
flush k [] = []
flush k ((j, f) ∷ fs) = let rest = flush k fs in if same_flow j k then rest else (j, f) ∷ rest

-- d.ipFlows[ipf] = fl
pub put : IpFlow → Fragments → List (IpFlow × Fragments) → List (IpFlow × Fragments)
put k f fs = (k, f) ∷ flush k fs

pub data Answer : Type 0 where
  packet : Datagram → Answer
  pending : Answer
  refused : DefragIpError → Answer

-- What an `insert` that gives an error leaves in `f`.
abbrev updated_or : Fragments → Packet → Outcome DefragError (Option (List Packet)) → Fragments
updated_or f p (ok (some list)) = updated f p list
updated_or f p (ok none) = f
updated_or f p (err e) = f
updated_or f p (panic c) = f

abbrev pub left_by : Fragments → Packet → Fragments
left_by f p =
    if leb f.highest (offset_of p)
    then updated f p (f.list ++ p ∷ [])
    else updated_or f p (insert_before p f.list)

-- `decode` is gopacket's reading of the packet that `build` serialises; it is marked as truncated.
module _ (decode : Reassembled → Datagram) where
  abbrev pub rebuilt : Reassembled → Datagram
  rebuilt out = record (decode out) { truncated = true }

  -- What `DefragIP` does with the result of `insert`.
  unfoldable pub conclude :
      IpFlow
      → Fragments
      → Packet
      → List (IpFlow × Fragments)
      → Outcome DefragError (Fragments × Option Reassembled)
      → Outcome ⊥ (List (IpFlow × Fragments) × Answer)
  unfolding flush put
  conclude k f p fs (ok (f', some out)) = ok (flush k fs, packet (rebuilt out))
  conclude k f p fs (ok (f', none)) =
      if ltb (max_fragments k.family) (length f'.list + 1)
      then ok (flush k fs, refused list_maximum)
      else ok (put k f' fs, pending)
  conclude k f p fs (err e) =
      if ltb (max_fragments k.family) (length (left_by f p).list + 1)
      then ok (flush k fs, refused list_maximum)
      else ok (put k (left_by f p) fs, refused (not_built e))
  conclude k f p fs (panic c) = panic c

  abbrev pub unless_unsafe :
      Datagram
      → List (IpFlow × Fragments)
      → Option DefragIpError
      → Outcome ⊥ (List (IpFlow × Fragments) × Answer)
  unless_unsafe d fs (some e) = ok (fs, refused e)
  unless_unsafe d fs none =
      let k = flow_of d in
      let f = value_or no_fragments (find k fs) in conclude k f d.packet fs (insert f d.packet)

  unfoldable pub defrag_ip :
      Datagram → List (IpFlow × Fragments) → Outcome ⊥ (List (IpFlow × Fragments) × Answer)
  defrag_ip d fs =
      if dont_defrag d then ok (fs, packet d) else unless_unsafe d fs (security_checks d)

-- t.Before(u)
abbrev before : ℤ → ℤ → Bool
before (pos m) (pos n) = ltb m n
before (pos m) (negsuc n) = false
before (negsuc m) (pos n) = true
before (negsuc m) (negsuc n) = ltb n m

-- DiscardOlderThan, with the number of flows that it drops
unfoldable pub discard_older_than : ℤ → List (IpFlow × Fragments) → ℕ × List (IpFlow × Fragments)
discard_older_than t [] = (0, [])
discard_older_than t ((k, f) ∷ fs) =
    let (n, rest) = discard_older_than t fs in
    if before f.last_seen t then (n + 1, rest) else (n, (k, f) ∷ rest)
