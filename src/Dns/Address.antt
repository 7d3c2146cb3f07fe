-- ===== src/Dns/Address.antt =====
-- `net.IP.String` of the standard library, as dnsutils/dns.go and dnsutils/edns.go use it.
use go_dns_collector.Base.{
  ℕ, ◌+◌, ◌*◌, ◌≡◌, refl, Bool, List, [], ◌∷◌, ◌++◌, map, ltb, leb, ◌==◌, if◌then◌else◌, take, drop,
  Bytes, codes, bytes_eq, decimal, hex_onto, hex_digit, join, string_key, bytes_key,
}

-- Four numbers, `a.b.c.d`.
unfoldable pub ipv4_string : Bytes → Bytes
unfolding join
ipv4_string addr = join (codes ".") (map decimal addr)

words : Bytes → List ℕ
words (a ∷ b ∷ rest) = (a * 256 + b) ∷ words rest
words _ = []

-- The zeros in front.
zero_run : List ℕ → ℕ
zero_run [] = 0
zero_run (w ∷ ws) = let more = zero_run ws in if w == 0 then more + 1 else 0

-- The first longest run of zeros: where it starts and how long it is.
best_run : ℕ → List ℕ → ℕ × ℕ
best_run i [] = (i, 0)
best_run i (w ∷ ws) =
    let (at, size) = best_run (i + 1) ws in
    let here = zero_run (w ∷ ws) in if leb size here then (i, here) else (at, size)

hex16 : ℕ → Bytes
unfolding hex_onto hex_digit
hex16 w = hex_onto 4 w []

-- A run of at least two zero words is written `::`.
ipv6_words : List ℕ → ℕ × ℕ → Bytes
unfolding join hex16
ipv6_words ws (at, size) =
    if ltb size 2
    then join (codes ":") (map hex16 ws)
    else join (codes ":") (map hex16 (take at ws))
      ++ (codes "::" ++ join (codes ":") (map hex16 (drop (at + size) ws)))

-- `::ffff:a.b.c.d`
is_v4_mapped : Bytes → Bool
unfolding bytes_eq
is_v4_mapped addr = bytes_eq (take 12 addr) (0 ∷ 0 ∷ 0 ∷ 0 ∷ 0 ∷ 0 ∷ 0 ∷ 0 ∷ 0 ∷ 0 ∷ 255 ∷ 255 ∷ [])

unfoldable pub ipv6_string : Bytes → Bytes
unfolding words zero_run best_run ipv6_words is_v4_mapped
ipv6_string addr =
    if is_v4_mapped addr
    then ipv4_string (drop 12 addr)
    else ipv6_words (words addr) (best_run 0 (words addr))

loopback :
    ipv6_string (0 ∷ 0 ∷ 0 ∷ 0 ∷ 0 ∷ 0 ∷ 0 ∷ 0 ∷ 0 ∷ 0 ∷ 0 ∷ 0 ∷ 0 ∷ 0 ∷ 0 ∷ 1 ∷ []) ≡ codes "::1"
unfolding ipv6_string decimal
loopback = refl

documentation :
    ipv6_string (0x20 ∷ 0x01 ∷ 0x0d ∷ 0xb8 ∷ 0 ∷ 0 ∷ 0 ∷ 0 ∷ 0 ∷ 1 ∷ 0 ∷ 0 ∷ 0 ∷ 0 ∷ 0 ∷ 0x1a ∷ [])
    ≡ codes "2001:db8::1:0:0:1a"
unfolding ipv6_string decimal
documentation = refl

v4 : ipv4_string (192 ∷ 0 ∷ 2 ∷ 10 ∷ []) ≡ codes "192.0.2.10"
unfolding ipv4_string decimal
v4 = refl
