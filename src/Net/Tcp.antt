-- ===== src/Net/Tcp.antt =====
-- `stream.Reassembled` of netlib/tcpassembly.go. The flows of gopacket are opaque; packets sent to
-- the channel are a list in the order of sending. `buffer` is the field `data`.
pub mod Framing
pub mod Messages
pub mod Stuck
use go_dns_collector.Base.{
  ℕ, ◌+◌, Bool, true, false, Option, none, some, List, [], ◌∷◌, ◌++◌, ltb, ◌==◌, if◌then◌else◌, ℤ,
  pos, negsuc, length, take, drop, Bytes, be16,
}

-- tcpassembly.Reassembly: `Skip` is -1 for an unknown number of bytes.
pub record Segment : Type 0 where
  pub bytes : Bytes
  pub skip : ℤ
  pub seen : ℤ

pub record DnsPacket (Flow : Type 0) : Type 0 where
  pub payload : Bytes
  pub ip_layer : Flow
  pub transport_layer : Flow
  pub timestamp : ℤ
  pub ip_defragmented : Bool
  pub tcp_reassembled : Bool

pub record Stream (Flow : Type 0) : Type 0 where
  pub net : Flow
  pub transport : Flow
  pub buffer : Bytes
  pub len_dns : ℕ
  pub last_seen : ℤ
  pub tcp_reassembled : Bool
  pub ip_defragmented : Bool

abbrev pub is_skipped : ℤ → Bool
is_skipped (pos n) = ltb 0 n
is_skipped (negsuc n) = false

module _ {Flow : Type 0} where
  -- DnsStreamFactory.New
  abbrev pub new_stream : Flow → Flow → Bool → Stream Flow
  new_stream net transport defragmented = record {
    net = net;
    transport = transport;
    buffer = [];
    len_dns = 0;
    last_seen = pos 0;
    tcp_reassembled = false;
    ip_defragmented = defragmented;
  }

  -- The length of the message, read unless it is known; `none` while two bytes are not there.
  pub read_len : Stream Flow → Option (Stream Flow)
  read_len s =
      if s.len_dns == 0
      then (if ltb (length s.buffer) 2
          then none
          else some (record s { len_dns = be16 0 s.buffer; tcp_reassembled = false }))
      else some s

  abbrev pub packet_of : Stream Flow → ℤ → DnsPacket Flow
  packet_of s seen = record {
    payload = take s.len_dns (drop 2 s.buffer);
    ip_layer = s.net;
    transport_layer = s.transport;
    timestamp = seen;
    ip_defragmented = s.ip_defragmented;
    tcp_reassembled = s.tcp_reassembled;
  }

  pub send : Stream Flow → ℤ → Option (Stream Flow) → Stream Flow × List (DnsPacket Flow)
  send before seen none = (before, [])
  send before seen (some s) =
      if length s.buffer == s.len_dns + 2
      then (
        record s { last_seen = seen; buffer = drop (s.len_dns + 2) s.buffer; len_dns = 0 },
        packet_of s seen ∷ [],
      )
      else (record s { tcp_reassembled = true }, [])

  -- One round of the loop of Reassembled.
  unfoldable pub receive : Stream Flow → Segment → Stream Flow × List (DnsPacket Flow)
  unfolding send read_len
  receive s r =
      let s' = record s { buffer = s.buffer ++ r.bytes } in
      if is_skipped r.skip then (s, []) else send s' r.seen (read_len s')

  unfoldable pub reassembled : Stream Flow → List Segment → Stream Flow × List (DnsPacket Flow)
  reassembled s [] = (s, [])
  reassembled s (r ∷ rs) =
      let (s', sent) = receive s r in let (last, more) = reassembled s' rs in (last, sent ++ more)
