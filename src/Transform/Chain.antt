-- ===== src/Transform/Chain.antt =====
-- `Transforms` of transformers/subprocessors.go, the list that `Prepare` makes and the fields that
-- `InitDnsMessageFormat` sets. `Lookups` holds the answers of the libraries for public suffixes,
-- addresses, hashes and the GeoIP database.
use go_dns_collector.Base.{
  ℕ, String, Bool, ◌&&◌, ◌||◌, Option, some, List, [], ◌∷◌, ◌++◌, if◌then◌else◌, Bytes, codes,
  string_key, bytes_key,
}
use go_dns_collector.Message.{DnsMessage, DnsGeo, PublicSuffix}
use go_dns_collector.Transform.Config.{ConfigTransformers}
use go_dns_collector.Transform.Filtering.{Filtering, new_filtering}
use go_dns_collector.Transform.Suspicious.{init_suspicious}
use go_dns_collector.Transform.Latency.{HashQueries, MapQueries}

-- `public_suffix` and `etld_plus_one` are those of the public suffix list, `mask` is
-- `net.ParseIP(ip).Mask(mask).String()`, `sha1` the hash in hexadecimal, `geoip` is `Lookup` of the
-- GeoIP processor, `none` for an error.
pub record Lookups : Type 0 where
  pub public_suffix : Bytes → Bytes × Bool
  pub etld_plus_one : Bytes → Option Bytes
  pub mask : List ℕ → String → String
  pub sha1 : String → String
  pub geoip : String → Option DnsGeo

-- The functions that `Prepare` appends, by the names of the methods.
pub data Transform : Type 0 where
  lowercase quiet effective_tld effective_tld_plus_one geoip anonymize_ip minimaze_qname : Transform
  hash_ip suspicious latency evicted_timeout : Transform

-- RETURN_SUCCESS, RETURN_DROP, RETURN_ERROR
pub data Code : Type 0 where
  return_success return_drop return_error : Code

pub record Transforms : Type 0 where
  pub config : ConfigTransformers
  pub filtering : Filtering
  pub hash_queries : HashQueries
  pub map_queries : MapQueries
  pub active_transforms : List Transform

abbrev pub one_if : Bool → Transform → List Transform
one_if b t = if b then t ∷ [] else []

abbrev pub all_if : Bool → List Transform → List Transform
all_if b ts = if b then ts else []

-- Prepare
unfoldable pub prepare : ConfigTransformers → List Transform
prepare c =
    all_if c.normalize.enable (
      one_if c.normalize.qname_lower_case lowercase
      ++ (one_if c.normalize.quiet_text quiet
          ++ (one_if c.normalize.add_tld effective_tld
              ++ one_if c.normalize.add_tld_plus_one effective_tld_plus_one)))
    ++ (one_if c.geoip_enable geoip
        ++ (all_if c.user_privacy.enable (
              one_if c.user_privacy.anonymize_ip anonymize_ip
              ++ (one_if c.user_privacy.minimaze_qname minimaze_qname
                  ++ one_if c.user_privacy.hash_ip hash_ip))
            ++ (one_if c.suspicious.enable suspicious
                ++ all_if c.latency.enable (
                    one_if c.latency.measure_latency latency
                    ++ one_if c.latency.unanswered_queries evicted_timeout))))

-- NewTransforms
unfoldable pub new_transforms : ConfigTransformers → Transforms
new_transforms c = record {
  config = c;
  filtering = new_filtering c.filtering;
  hash_queries = [];
  map_queries = [];
  active_transforms = prepare c;
}

abbrev no_geo : DnsGeo
no_geo = record {
  city = "-";
  continent = "-";
  country_iso_code = "-";
  autonomous_system_number = "-";
  autonomous_system_org = "-";
}

abbrev no_suffix : PublicSuffix
no_suffix = record { qname_public_suffix = codes "-"; qname_effective_tld_plus_one = codes "-" }

-- The three `InitDnsMessage` of InitDnsMessageFormat, under their conditions.
unfoldable pub init_geo : ConfigTransformers → DnsMessage → DnsMessage
init_geo c dm = if c.geoip_enable then record dm { geo = some no_geo } else dm

unfoldable pub init_suffix : ConfigTransformers → DnsMessage → DnsMessage
init_suffix c dm =
    if c.normalize.enable && (c.normalize.add_tld || c.normalize.add_tld_plus_one)
    then record dm { public_suffix = some no_suffix }
    else dm

unfoldable pub init_dns_message_format : ConfigTransformers → DnsMessage → DnsMessage
unfolding init_geo init_suffix
init_dns_message_format c dm =
    let dm' = init_geo c dm in
    init_suffix c (if c.suspicious.enable then init_suspicious dm' else dm')
