-- ===== src/Transform/Latency.antt =====
-- `LatencyProcessor` of transformers/latency.go: the maps of pending queries and their timers.
-- Both maps are association lists. A timer of `time.AfterFunc` is an event of the environment that
-- names the key, and for `MapQueries` the message, that its `Set` was called with.
pub mod Pairs
pub mod Timers
use go_dns_collector.Base.{
  ℕ, ◌+◌, ◌-◌, ◌*◌, ◌%◌, ◌^◌, Bool, true, false, not, ◌&&◌, Option, none, some, List, [], ◌∷◌,
  str_eq, ltb, leb, ◌==◌, if◌then◌else◌, ℤ, pos, negsuc, Bytes, codes, decimal, join,
}
use Prim.Native.Nat.{bit_xor}
use go_dns_collector.Message.{DnsMessage, dns_query}

module _ {ℓ} {V : Type ℓ} where
  unfoldable pub get : ℕ → List (ℕ × V) → Option V
  get k [] = none
  get k ((j, v) ∷ m) = if j == k then some v else get k m

  -- delete(kv, key)
  unfoldable pub remove : ℕ → List (ℕ × V) → List (ℕ × V)
  remove k [] = []
  remove k ((j, v) ∷ m) = let rest = remove k m in if j == k then rest else (j, v) ∷ rest

  -- kv[key] = value
  unfoldable pub put : ℕ → V → List (ℕ × V) → List (ℕ × V)
  unfolding remove
  put k v m = (k, v) ∷ remove k m

-- fnv.New64a: the FNV-1a hash of 64 bits
unfoldable pub fnv64a : ℕ → Bytes → ℕ
fnv64a h [] = h
fnv64a h (c ∷ cs) = fnv64a (bit_xor h c * 1099511628211 % 2 ^ 64) cs

abbrev pub offset64 : ℕ
offset64 = 14695981039346656037

-- The digits that strconv.Atoi reads, up to the largest int64; `none` for a text that is no number.
unfoldable pub digits_value : ℕ → Bytes → Option ℕ
digits_value n [] = some n
digits_value n (c ∷ cs) =
    if leb b'0' c && leb c b'9' then digits_value (n * 10 + (c - b'0')) cs else none

abbrev positive : Option ℕ → Bool
positive none = false
positive (some n) = ltb 0 n

-- `port, _ := strconv.Atoi(s); port > 0`: a text that is no number gives 0, and one that is too
-- large gives the largest number of its sign.
unfoldable pub is_port : Bytes → Bool
unfolding digits_value
is_port [] = false
is_port (c ∷ []) = positive (digits_value 0 (c ∷ []))
is_port (c ∷ d ∷ ds) =
    if c == b'+' then positive (digits_value 0 (d ∷ ds)) else positive (digits_value 0 (c ∷ d ∷ ds))

-- The query's address, port and identifier, joined by "+" and hashed.
unfoldable pub query_key : DnsMessage → ℕ
unfolding fnv64a join decimal
query_key dm = fnv64a offset64 (
    join (codes "+")
      (codes dm.network_info.query_ip ∷ codes dm.network_info.query_port ∷ decimal dm.dns.id ∷ []))

abbrev not_empty : Bytes → Bool
not_empty [] = false
not_empty (c ∷ cs) = true

-- The guard of MeasureLatency and DetectEvictedTimeout.
unfoldable pub is_tracked : DnsMessage → Bool
unfolding is_port
is_tracked dm =
    not_empty (codes dm.network_info.query_ip)
    && (is_port (codes dm.network_info.query_port) && not dm.dns.malformed_packet)

-- a - b
abbrev int_sub : ℕ → ℕ → ℤ
int_sub a b = if leb b a then pos (a - b) else negsuc (b - a - 1)

unfoldable pub diff : ℤ → ℤ → ℤ
diff (pos a) (pos b) = int_sub a b
diff (pos a) (negsuc b) = pos (a + (b + 1))
diff (negsuc a) (pos b) = negsuc (a + b)
diff (negsuc a) (negsuc b) = int_sub b a

abbrev pub HashQueries : Type 0
HashQueries = List (ℕ × ℤ)

abbrev pub answer_latency : ℕ → DnsMessage → HashQueries → Option ℤ → HashQueries × DnsMessage
answer_latency key dm kv none = (kv, dm)
answer_latency key dm kv (some sent) = (
  remove key kv,
  record dm { dns_tap = record (dm.dns_tap) { latency = diff dm.dns_tap.timestamp sent } },
)

-- MeasureLatency
unfoldable pub measure_latency : HashQueries → DnsMessage → HashQueries × DnsMessage
measure_latency kv dm =
    let key = query_key dm in
    if is_tracked dm
    then (if str_eq dm.dns.type dns_query
        then (put key dm.dns_tap.timestamp kv, dm)
        else answer_latency key dm kv (get key kv))
    else (kv, dm)

abbrev pub MapQueries : Type 0
MapQueries = List (ℕ × DnsMessage)

-- DetectEvictedTimeout
unfoldable pub detect_evicted_timeout : MapQueries → DnsMessage → MapQueries
detect_evicted_timeout kv dm =
    let key = query_key dm in
    if is_tracked dm
    then (if str_eq dm.dns.type dns_query then put key dm kv else remove key kv)
    else kv

abbrev pub timed_out : DnsMessage → DnsMessage
timed_out dm = record dm { dns = record (dm.dns) { rcode = "TIMEOUT" } }

abbrev exists : Option DnsMessage → Bool
exists none = false
exists (some dm) = true

-- The function that `Set` hands to time.AfterFunc: the messages that it sends, and the map.
unfoldable pub query_timer : ℕ → DnsMessage → MapQueries → MapQueries × List DnsMessage
query_timer key dm kv = (remove key kv, if exists (get key kv) then timed_out dm ∷ [] else [])
