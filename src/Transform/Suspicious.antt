-- ===== src/Transform/Suspicious.antt =====
-- `SuspiciousTransform` of transformers/suspicious.go. The score is a sum of ones.
pub mod Score
use go_dns_collector.Base.{
  ℕ, ◌+◌, String, Bool, true, false, not, ◌&&◌, ◌||◌, Option, none, some, List, [], ◌∷◌, str_eq,
  ltb, ◌==◌, if◌then◌else◌, length, Bytes,
}
use go_dns_collector.Message.{DnsMessage, Suspicious}
use go_dns_collector.Transform.Config.{SuspiciousConfig}

abbrev pub zero_suspicious : Suspicious
zero_suspicious = record {
  score = 0;
  malformed_packet = false;
  large_packet = false;
  long_domain = false;
  slow_domain = false;
  unallowed_chars = false;
  uncommon_qtypes = false;
  excessive_number_labels = false;
}

-- InitDnsMessage
unfoldable pub init_suspicious : DnsMessage → DnsMessage
init_suspicious dm = record dm { suspicious = some zero_suspicious }

-- _, found := CommonQtypes[qtype]
unfoldable pub is_common : List String → String → Bool
is_common [] q = false
is_common (x ∷ xs) q = str_eq x q || is_common xs q

-- strings.Count(s, ".")
unfoldable pub count_dots : Bytes → ℕ
count_dots [] = 0
count_dots (c ∷ cs) = (if c == b'.' then 1 else 0) + count_dots cs

has_prefix : Bytes → Bytes → Bool
has_prefix [] s = true
has_prefix (p ∷ ps) [] = false
has_prefix (p ∷ ps) (c ∷ cs) = p == c && has_prefix ps cs

-- strings.Contains
unfoldable pub contains : Bytes → Bytes → Bool
unfolding has_prefix
contains [] sub = has_prefix sub []
contains (c ∷ cs) sub = has_prefix sub (c ∷ cs) || contains cs sub

-- the loop over UnallowedChars, which breaks at the first hit
unfoldable pub contains_any : Bytes → List Bytes → Bool
contains_any name [] = false
contains_any name (v ∷ vs) = contains name v || contains_any name vs

module _ (c : SuspiciousConfig) (dm : DnsMessage) where
  pub check_malformed : Suspicious → Suspicious
  check_malformed s =
      if dm.dns.malformed_packet
      then record s { score = s.score + 1; malformed_packet = true }
      else s

  pub check_long_domain : Suspicious → Suspicious
  check_long_domain s =
      if ltb c.threshold_qname_len (length dm.dns.qname)
      then record s { score = s.score + 1; long_domain = true }
      else s

  pub check_large_packet : Suspicious → Suspicious
  check_large_packet s =
      if ltb c.threshold_packet_len dm.dns.length
      then record s { score = s.score + 1; large_packet = true }
      else s

  pub check_qtype : Suspicious → Suspicious
  check_qtype s =
      if not (is_common c.common_qtypes dm.dns.qtype)
      then record s { score = s.score + 1; uncommon_qtypes = true }
      else s

  pub check_labels : Suspicious → Suspicious
  check_labels s =
      if ltb c.threshold_max_labels (count_dots dm.dns.qname)
      then record s { score = s.score + 1; excessive_number_labels = true }
      else s

  pub check_chars : Suspicious → Suspicious
  check_chars s =
      if contains_any dm.dns.qname c.unallowed_chars
      then record s { score = s.score + 1; unallowed_chars = true }
      else s

  -- The checks in the order of CheckIfSuspicious.
  pub checks : Suspicious → Suspicious
  checks s =
      check_chars
        (check_labels (check_qtype (check_large_packet (check_long_domain (check_malformed s)))))

abbrev pub with_checks : SuspiciousConfig → DnsMessage → Option Suspicious → DnsMessage
with_checks c dm none = dm
with_checks c dm (some s) = record dm { suspicious = some (checks c dm s) }

-- A message that was not initialised is only logged.
unfoldable pub check_if_suspicious : SuspiciousConfig → DnsMessage → DnsMessage
unfolding checks check_chars check_labels check_qtype check_large_packet check_long_domain
    check_malformed
check_if_suspicious c dm = with_checks c dm dm.suspicious
