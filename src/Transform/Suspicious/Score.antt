-- ===== src/Transform/Suspicious/Score.antt =====
-- The score and the flags tell the same story.
use go_dns_collector.Base.{
  ℕ, ◌+◌, ◌≡◌, refl, ap, ◌∙◌, Bool, true, false, not, some, arith, ltb, length, string_key,
  bytes_key,
}
use go_dns_collector.Message.{DnsMessage, Suspicious}
use go_dns_collector.Transform.Config.{SuspiciousConfig}
use go_dns_collector.Transform.Suspicious.{
  zero_suspicious, init_suspicious, is_common, count_dots, contains_any, check_malformed,
  check_long_domain, check_large_packet, check_qtype, check_labels, check_chars, checks,
  check_if_suspicious,
}

abbrev bit : Bool → ℕ
bit true = 1
bit false = 0

-- The flags that are raised.
abbrev pub raised : Suspicious → ℕ
raised s =
    bit s.malformed_packet
    + bit s.large_packet
    + bit s.long_domain
    + bit s.slow_domain
    + bit s.unallowed_chars
    + bit s.uncommon_qtypes
    + bit s.excessive_number_labels

-- What the six checks look for.
abbrev pub findings : SuspiciousConfig → DnsMessage → Suspicious
findings c dm = record {
  score = raised (record zero_suspicious {
    malformed_packet = dm.dns.malformed_packet;
    large_packet = ltb c.threshold_packet_len dm.dns.length;
    long_domain = ltb c.threshold_qname_len (length dm.dns.qname);
    unallowed_chars = contains_any dm.dns.qname c.unallowed_chars;
    uncommon_qtypes = not (is_common c.common_qtypes dm.dns.qtype);
    excessive_number_labels = ltb c.threshold_max_labels (count_dots dm.dns.qname);
  });
  malformed_packet = dm.dns.malformed_packet;
  large_packet = ltb c.threshold_packet_len dm.dns.length;
  long_domain = ltb c.threshold_qname_len (length dm.dns.qname);
  slow_domain = false;
  unallowed_chars = contains_any dm.dns.qname c.unallowed_chars;
  uncommon_qtypes = not (is_common c.common_qtypes dm.dns.qtype);
  excessive_number_labels = ltb c.threshold_max_labels (count_dots dm.dns.qname);
}

-- The first three checks, then the rest, on a message with no findings.
first_checks :
    (c : SuspiciousConfig) (dm : DnsMessage)
    → check_large_packet c dm (check_long_domain c dm (check_malformed c dm zero_suspicious))
      ≡ record zero_suspicious {
        score =
            bit dm.dns.malformed_packet
            + bit (ltb c.threshold_packet_len dm.dns.length)
            + bit (ltb c.threshold_qname_len (length dm.dns.qname));
        malformed_packet = dm.dns.malformed_packet;
        large_packet = ltb c.threshold_packet_len dm.dns.length;
        long_domain = ltb c.threshold_qname_len (length dm.dns.qname);
      }
unfolding check_malformed check_long_domain check_large_packet
first_checks c dm = ground arith

last_checks :
    (c : SuspiciousConfig) (dm : DnsMessage) (s : Suspicious)
    → s.unallowed_chars ≡ false
    → s.uncommon_qtypes ≡ false
    → s.excessive_number_labels ≡ false
    → check_chars c dm (check_labels c dm (check_qtype c dm s)) ≡ record s {
      score =
          s.score
          + bit (contains_any dm.dns.qname c.unallowed_chars)
          + bit (not (is_common c.common_qtypes dm.dns.qtype))
          + bit (ltb c.threshold_max_labels (count_dots dm.dns.qname));
      unallowed_chars = contains_any dm.dns.qname c.unallowed_chars;
      uncommon_qtypes = not (is_common c.common_qtypes dm.dns.qtype);
      excessive_number_labels = ltb c.threshold_max_labels (count_dots dm.dns.qname);
    }
unfolding check_chars check_labels check_qtype
last_checks c dm s e f g = ground arith

checks-findings :
    (c : SuspiciousConfig) (dm : DnsMessage) → checks c dm zero_suspicious ≡ findings c dm
unfolding checks
checks-findings c dm = rw (first_checks c dm) (last_checks c dm _ refl refl refl ∙ ground arith)

-- On an initialised message CheckIfSuspicious raises exactly the flags of the six conditions, each
-- for its own condition, and the score is the number of flags raised; nothing else changes.
pub check_if_suspicious-init :
    (c : SuspiciousConfig) (dm : DnsMessage)
    → check_if_suspicious c (init_suspicious dm) ≡ record dm { suspicious = some (findings c dm) }
unfolding check_if_suspicious init_suspicious
check_if_suspicious-init c dm =
    ap (λ s. record dm { suspicious = some s }) (checks-findings c (init_suspicious dm))
