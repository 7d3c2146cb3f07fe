-- ===== src/Message/Examples.antt =====
-- Texts of concrete messages.
use go_dns_collector.Base.{
  ◌≡◌, refl, true, false, none, some, List, [], ◌∷◌, if◌then◌else◌, pos, Bytes, codes, bytes_eq,
  join, ok, string_key, bytes_key, find,
}
use go_dns_collector.Message.{DnsMessage, init}
use go_dns_collector.Message.Strings.{before_colon, after_colon, has_prefix}
use go_dns_collector.Message.Text.{Formats, text}
use go_dns_collector.Message.Text.Joined.{AllSupported, Fields, Described, text-Fields}

-- The expressions match what begins with the family's name.
abbrev formats : Formats
formats = record {
  atoi = λ s. if bytes_eq s (codes "0") then some (pos 0) else none;
  unix = λ digits t. codes "0";
  localtime = λ sec nsec. codes "0";
  sprintf = λ format s. s;
  pdns_directives = has_prefix (codes "powerdns");
  geoip_directives = has_prefix (codes "geoip");
  suspicious_directives = has_prefix (codes "suspicious");
  public_suffix_directives = has_prefix (codes "publixsuffix");
}

abbrev words : List Bytes
words =
    codes "qname"
    ∷ codes "powerdns-tags:0"
    ∷ codes "powerdns-metadata:KEY"
    ∷ codes "ttl"
    ∷ codes "geoip-city"
    ∷ []

-- A message with a PowerDNS part and the suspicious part that goes with it.
abbrev resolved : DnsMessage
resolved = record init {
  power_dns = some (record {
    tags = "blocked" ∷ [];
    original_request_subnet = "";
    applied_policy = "";
    metadata = ("KEY", "some value") ∷ [];
  });
  suspicious = some (record {
    score = 1;
    malformed_packet = false;
    large_packet = false;
    long_domain = true;
    slow_domain = false;
    unallowed_chars = false;
    uncommon_qtypes = false;
    excessive_number_labels = false;
  });
}

words-AllSupported : AllSupported formats (codes " ") (codes "\"") resolved words
unfolding find bytes_eq before_colon after_colon has_prefix
words-AllSupported = ((refl, tt), ((refl, tt), ((refl, tt), ((refl, tt), ((refl, tt), tt)))))

text-Fields_example :
    (l : List Bytes) × Fields formats (codes " ") (codes "\"") resolved words l
    × Described formats (codes " ") (codes "\"") resolved words l
    × (text formats (codes " ") (codes "\"") resolved words ≡ ok (join (codes " ") l))
text-Fields_example =
    text-Fields formats (codes " ") (codes "\"") resolved words words-AllSupported tt
