-- ===== src/Message/Text.antt =====
-- The text of a message, `Bytes` of dnsutils/message.go, with its directives. `Formats` holds what
-- it calls: strconv.Atoi, fmt.Sprintf, time.Format and the four regular expressions.
pub mod Directives
pub mod Writable
pub mod Joined
use go_dns_collector.Base.{
  ℕ, zero, suc, String, Bool, true, false, Option, none, some, List, [], ◌∷◌, ◌++◌, map, str_eq,
  ◌==◌, if◌then◌else◌, ℤ, pos, negsuc, length, Bytes, codes, bytes_eq, decimal, join, out_of_range,
  nil_pointer, Outcome, ok, err, panic, ◌>>=◌, string_key, bytes_key, find,
}
use go_dns_collector.Message.{
  DnsMessage, DnsAnswer, DnsGeo, DnsOption, PowerDns, Suspicious, PublicSuffix,
}
use go_dns_collector.Message.Strings.{
  before_colon, after_colon, has_prefix, contains, replace_from, replace_all,
}

-- `unix d t` is `%.<d>f` of a time, `sprintf f x` formats one string.
pub record Formats : Type 0 where
  pub atoi : Bytes → Option ℤ
  pub unix : ℕ → ℤ → Bytes
  pub localtime : ℕ → ℕ → Bytes
  pub sprintf : Bytes → Bytes → Bytes
  pub pdns_directives : Bytes → Bool
  pub geoip_directives : Bytes → Bool
  pub suspicious_directives : Bytes → Bool
  pub public_suffix_directives : Bytes → Bool

-- log.Fatalf
pub data Fatal : Type 0 where
  bad_tag_index : Bytes → Fatal
  bad_directive : Bytes → Fatal

abbrev pub dash : Bytes
dash = codes "-"

abbrev or_dash : Bytes → Bytes
or_dash [] = dash
or_dash (c ∷ cs) = c ∷ cs

abbrev flag : Bool → String → Bytes
flag true name = codes name
flag false name = dash

abbrev first_ttl : List DnsAnswer → Bytes
first_ttl [] = dash
first_ttl (a ∷ l) = decimal a.ttl

abbrev first_rdata : List DnsAnswer → Bytes
first_rdata [] = dash
first_rdata (a ∷ l) = a.rdata

-- The data of the first option named CSUBNET.
abbrev csubnet : List DnsOption → Bytes
csubnet [] = []
csubnet (o ∷ l) = if str_eq o.name "CSUBNET" then o.value else csubnet l

abbrev csubnet_or_dash : List DnsOption → Bytes
csubnet_or_dash [] = dash
csubnet_or_dash (o ∷ l) = csubnet (o ∷ l)

abbrev tag_at : ℕ → List String → Bytes
tag_at n [] = dash
tag_at zero (t ∷ ts) = codes t
tag_at (suc n) (t ∷ ts) = tag_at n ts

abbrev value_of : Bytes → List (String × String) → Option String
value_of key [] = none
value_of key ((k, v) ∷ m) = if bytes_eq (codes k) key then some v else value_of key m

-- strings.Replace(metaValue, " ", "_", -1)
abbrev underscored : Bytes → Bytes
underscored s = map (λ c. if c == b' ' then b'_' else c) s

abbrev meta_text : Option String → Bytes
meta_text none = dash
meta_text (some v) = or_dash (underscored (codes v))

abbrev meta_for : Option Bytes → List (String × String) → Bytes
meta_for none m = dash
meta_for (some key) m = meta_text (value_of key m)

module _ (lib : Formats) where
  -- A negative index is out of range.
  abbrev indexed : Bytes → List String → Option ℤ → Outcome Fatal Bytes
  indexed arg tags none = err (bad_tag_index arg)
  indexed arg tags (some (pos n)) = ok (tag_at n tags)
  indexed arg tags (some (negsuc n)) = panic out_of_range

  abbrev tags_text : Option Bytes → List String → Outcome Fatal Bytes
  tags_text arg [] = ok dash
  tags_text none (t ∷ ts) = ok (join (codes ",") (map codes (t ∷ ts)))
  tags_text (some arg) (t ∷ ts) = indexed arg (t ∷ ts) (lib.atoi arg)

  -- handlePdnsDirectives; another directive of the same prefix writes nothing.
  unfoldable pub pdns_text : Bytes → Option Bytes → Option PowerDns → Outcome Fatal Bytes
  pdns_text d arg none = ok dash
  pdns_text d arg (some p) =
      if bytes_eq d (codes "powerdns-tags")
      then tags_text arg p.tags
      else if bytes_eq d (codes "powerdns-applied-policy")
      then ok (or_dash (codes p.applied_policy))
      else if bytes_eq d (codes "powerdns-original-request-subnet")
      then ok (or_dash (codes p.original_request_subnet))
      else if bytes_eq d (codes "powerdns-metadata")
      then ok (meta_for arg p.metadata)
      else ok []

  -- handleGeoIPDirectives
  unfoldable pub geoip_text : Bytes → Option DnsGeo → Outcome Fatal Bytes
  geoip_text d none = ok dash
  geoip_text d (some g) =
      if bytes_eq d (codes "geoip-continent")
      then ok (codes g.continent)
      else if bytes_eq d (codes "geoip-country")
      then ok (codes g.country_iso_code)
      else if bytes_eq d (codes "geoip-city")
      then ok (codes g.city)
      else if bytes_eq d (codes "geoip-as-number")
      then ok (codes g.autonomous_system_number)
      else if bytes_eq d (codes "geoip-as-owner")
      then ok (codes g.autonomous_system_org)
      else ok []

  abbrev score_text : Option Suspicious → Outcome Fatal Bytes
  score_text none = panic nil_pointer
  score_text (some s) = ok (decimal s.score)

  -- handleSuspiciousDirectives, which tests the pointer of PowerDNS.
  unfoldable pub suspicious_text : Bytes → Option PowerDns → Option Suspicious → Outcome Fatal Bytes
  suspicious_text d none s = ok dash
  suspicious_text d (some p) s =
      if bytes_eq d (codes "suspicious-score") then score_text s else ok []

  -- handlePublicSuffixDirectives
  unfoldable pub public_suffix_text : Bytes → Option PublicSuffix → Outcome Fatal Bytes
  public_suffix_text d none = ok dash
  public_suffix_text d (some s) =
      if bytes_eq d (codes "publixsuffix-tld")
      then ok s.qname_public_suffix
      else if bytes_eq d (codes "publixsuffix-etld+1")
      then ok s.qname_effective_tld_plus_one
      else ok []

  module _ (delimiter boundary : Bytes) (dm : DnsMessage) where
    -- A name that has the delimiter in it stands between boundaries, those inside it escaped.
    unfoldable pub qname_text : Bytes → Bytes
    unfolding contains replace_all
    qname_text name =
        if contains delimiter name
        then lib.sprintf (boundary ++ (codes "%s" ++ boundary)) (
            if contains boundary name
            then replace_all name boundary (codes "\\" ++ boundary)
            else name)
        else name

    -- The cases of the switch that name one directive, in their order.
    abbrev pub plain_fields : List (Bytes × Bytes)
    plain_fields =
        (codes "ttl", first_ttl dm.dns.dns_rrs.answers)
        ∷ (codes "answer", first_rdata dm.dns.dns_rrs.answers)
        ∷ (codes "edns-csubnet", csubnet_or_dash dm.edns.options)
        ∷ (codes "answercount", decimal (length dm.dns.dns_rrs.answers))
        ∷ (codes "id", decimal dm.dns.id)
        ∷ (codes "timestamp", codes dm.dns_tap.timestamp_rfc3339)
        ∷ (codes "timestamp-rfc3339ns", codes dm.dns_tap.timestamp_rfc3339)
        ∷ (codes "timestamp-unixms", lib.unix 3 dm.dns_tap.timestamp)
        ∷ (codes "timestamp-unixus", lib.unix 6 dm.dns_tap.timestamp)
        ∷ (codes "timestamp-unixns", lib.unix 9 dm.dns_tap.timestamp)
        ∷ (codes "localtime", lib.localtime dm.dns_tap.time_sec dm.dns_tap.time_nsec)
        ∷ (codes "identity", codes dm.dns_tap.identity)
        ∷ (codes "version", codes dm.dns_tap.version)
        ∷ (codes "operation", codes dm.dns_tap.operation)
        ∷ (codes "rcode", codes dm.dns.rcode)
        ∷ (codes "queryip", codes dm.network_info.query_ip)
        ∷ (codes "queryport", codes dm.network_info.query_port)
        ∷ (codes "responseip", codes dm.network_info.response_ip)
        ∷ (codes "responseport", codes dm.network_info.response_port)
        ∷ (codes "family", codes dm.network_info.family)
        ∷ (codes "protocol", codes dm.network_info.protocol)
        ∷ (codes "length", decimal dm.dns.length ++ codes "b")
        ∷ (codes "qname", qname_text dm.dns.qname)
        ∷ (codes "qtype", codes dm.dns.qtype)
        ∷ (codes "latency", codes dm.dns_tap.latency_sec)
        ∷ (codes "malformed", flag dm.dns.malformed_packet "PKTERR")
        ∷ (codes "qr", codes dm.dns.type)
        ∷ (codes "opcode", decimal dm.dns.opcode)
        ∷ (codes "tr", flag dm.network_info.tcp_reassembled "TR")
        ∷ (codes "df", flag dm.network_info.ip_defragmented "DF")
        ∷ (codes "tc", flag dm.dns.flags.tc "TC")
        ∷ (codes "aa", flag dm.dns.flags.aa "AA")
        ∷ (codes "ra", flag dm.dns.flags.ra "RA")
        ∷ (codes "ad", flag dm.dns.flags.ad "AD")
        ∷ []

    abbrev pub family_text : Bytes → Bytes → Option Bytes → Outcome Fatal Bytes
    family_text word d arg =
        if lib.pdns_directives d
        then pdns_text d arg dm.power_dns
        else if lib.geoip_directives d
        then geoip_text d dm.geo
        else if lib.suspicious_directives d
        then suspicious_text d dm.power_dns dm.suspicious
        else if lib.public_suffix_directives d
        then public_suffix_text d dm.public_suffix
        else err (bad_directive word)

    abbrev pub or_family : Bytes → Option Bytes → Outcome Fatal Bytes
    or_family word none = family_text word (before_colon word) (after_colon word)
    or_family word (some text) = ok text

    -- The switch, for one word of the format.
    unfoldable pub field : Bytes → Outcome Fatal Bytes
    unfolding find
    field word = or_family word (find (before_colon word) plain_fields)

    -- Bytes: a delimiter follows each field but the last.
    unfoldable pub text : List Bytes → Outcome Fatal Bytes
    text [] = ok []
    text (w ∷ []) = field w
    text (w ∷ v ∷ ws) = field w >>= λ a. text (v ∷ ws) >>= λ rest. ok (a ++ (delimiter ++ rest))
