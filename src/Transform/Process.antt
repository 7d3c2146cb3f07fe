-- ===== src/Transform/Process.antt =====
-- What each transform does with a message, and `ProcessMessage`, from transformers/subprocessors.go,
-- with GetEffectiveTld and GetEffectiveTldPlusOne of transformers/normalize.go and the methods of
-- transformers/userprivacy.go. A field of a nil pointer panics.
pub mod Ready
pub mod Safe
pub mod Quieted
use go_dns_collector.Base.{
  ℕ, String, Bool, false, ◌||◌, Option, none, some, List, [], ◌∷◌, ◌==◌, if◌then◌else◌, drop, Bytes,
  codes, nil_pointer, Outcome, ok, panic, ◌>>=◌,
}
use go_dns_collector.Message.{DnsMessage, DnsGeo, PublicSuffix}
use go_dns_collector.Transform.Filtering.{Matchers, Filtering, check_if_drop, to_lower}
use go_dns_collector.Transform.Suspicious.{check_if_suspicious}
use go_dns_collector.Transform.Quiet.{quiet_text, lowercase_qname}
use go_dns_collector.Transform.Latency.{measure_latency, detect_evicted_timeout}
use go_dns_collector.Transform.Chain.{
  Lookups, Transform, lowercase, quiet, effective_tld, effective_tld_plus_one, geoip, anonymize_ip,
  minimaze_qname, hash_ip, suspicious, latency, evicted_timeout, Code, return_success, return_drop,
  return_error, Transforms,
}

-- strings.TrimSuffix(qname, ".")
unfoldable pub trim_dot : Bytes → Bytes
trim_dot [] = []
trim_dot (c ∷ []) = if c == b'.' then [] else c ∷ []
trim_dot (c ∷ d ∷ ds) = c ∷ trim_dot (d ∷ ds)

-- strings.LastIndex(ip, ".") != -1
unfoldable pub has_dot : Bytes → Bool
has_dot [] = false
has_dot (c ∷ cs) = c == b'.' || has_dot cs

abbrev pub v4_mask : List ℕ
v4_mask = 255 ∷ 255 ∷ 0 ∷ 0 ∷ []

abbrev pub v6_mask : List ℕ
v6_mask = 255 ∷ 255 ∷ 255 ∷ 255 ∷ 255 ∷ 255 ∷ 255 ∷ 255 ∷ 0 ∷ 0 ∷ 0 ∷ 0 ∷ 0 ∷ 0 ∷ 0 ∷ 0 ∷ []

-- What a transform returns: the state, the message and the code, or a panic. It has no error value.
abbrev pub Result : Type 0
Result = Outcome ⊥ (Transforms × DnsMessage × Code)

abbrev success : Transforms → DnsMessage → Result
success p dm = ok (p, dm, return_success)

abbrev pub set_geo : Transforms → DnsMessage → DnsGeo → Option DnsGeo → Result
set_geo p dm g none = panic nil_pointer
set_geo p dm g (some old) = success p (record dm { geo = some g })

abbrev pub set_suffix : Transforms → DnsMessage → Bytes → Option PublicSuffix → Result
set_suffix p dm tld none = panic nil_pointer
set_suffix p dm tld (some old) =
    success p (record dm { public_suffix = some (record old { qname_public_suffix = tld }) })

abbrev pub set_plus_one : Transforms → DnsMessage → Bytes → Option PublicSuffix → Result
set_plus_one p dm etld none = panic nil_pointer
set_plus_one p dm etld (some old) =
    success p
      (record dm { public_suffix = some (record old { qname_effective_tld_plus_one = etld }) })

abbrev pub set_query_ip : DnsMessage → String → DnsMessage
set_query_ip dm ip = record dm { network_info = record (dm.network_info) { query_ip = ip } }

abbrev pub set_qname : DnsMessage → Bytes → DnsMessage
set_qname dm name = record dm { dns = record (dm.dns) { qname = name } }

module _ (lib : Lookups) where
  pub geoip_transform : Transforms → DnsMessage → Option DnsGeo → Result
  geoip_transform p dm none = ok (p, dm, return_error)
  geoip_transform p dm (some g) = set_geo p dm g dm.geo

  unfoldable pub get_effective_tld : Transforms → DnsMessage → Result
  get_effective_tld p dm =
      let (etld, icann) = lib.public_suffix (trim_dot (to_lower dm.dns.qname)) in
      if icann then set_suffix p dm etld dm.public_suffix else success p dm

  abbrev pub with_plus_one : Transforms → DnsMessage → Option Bytes → Result
  with_plus_one p dm none = success p dm
  with_plus_one p dm (some etld) = set_plus_one p dm etld dm.public_suffix

  pub get_effective_tld_plus_one : Transforms → DnsMessage → Result
  get_effective_tld_plus_one p dm =
      with_plus_one p dm (lib.etld_plus_one (trim_dot (to_lower dm.dns.qname)))

  pub anonymized : String → String
  anonymized ip = if has_dot (codes ip) then lib.mask v4_mask ip else lib.mask v6_mask ip

  abbrev or_qname : Bytes → Option Bytes → Bytes
  or_qname name none = name
  or_qname name (some etpo) = etpo

  pub minimized : Bytes → Bytes
  minimized name = or_qname name (lib.etld_plus_one name)

  pub hashed : DnsMessage → DnsMessage
  hashed dm = record dm {
    network_info = record (dm.network_info) {
      query_ip = lib.sha1 dm.network_info.query_ip;
      response_ip = lib.sha1 dm.network_info.response_ip;
    };
  }

  -- One call of an active transform.
  unfoldable pub apply : Transform → Transforms → DnsMessage → Result
  unfolding geoip_transform get_effective_tld get_effective_tld_plus_one anonymized minimized hashed
      trim_dot has_dot lowercase_qname
  apply lowercase p dm = success p (lowercase_qname dm)
  apply quiet p dm = success p (quiet_text dm)
  apply effective_tld p dm = get_effective_tld p dm
  apply effective_tld_plus_one p dm = get_effective_tld_plus_one p dm
  apply geoip p dm = geoip_transform p dm (lib.geoip dm.network_info.query_ip)
  apply anonymize_ip p dm = success p (set_query_ip dm (anonymized dm.network_info.query_ip))
  apply minimaze_qname p dm = success p (set_qname dm (minimized dm.dns.qname))
  apply hash_ip p dm = success p (hashed dm)
  apply suspicious p dm = success p (check_if_suspicious p.config.suspicious dm)
  apply latency p dm =
      let (kv, dm') = measure_latency p.hash_queries dm in
      success (record p { hash_queries = kv }) dm'
  apply evicted_timeout p dm =
      success (record p { map_queries = detect_evicted_timeout p.map_queries dm }) dm

  abbrev pub unless_stopped : Code → Result → Result → Result
  unless_stopped return_success next stop = next
  unless_stopped return_drop next stop = stop
  unless_stopped return_error next stop = stop

  -- The loop over activeTransforms, which stops at the first code that is not RETURN_SUCCESS.
  unfoldable pub apply_all : List Transform → Transforms → DnsMessage → Result
  apply_all [] p dm = success p dm
  apply_all (t ∷ ts) p dm = apply t p dm >>= λ (p', dm', code).
      unless_stopped code (apply_all ts p' dm') (ok (p', dm', code))

  -- ProcessMessage
  unfoldable pub process_message : Matchers → Transforms → DnsMessage → Result
  process_message m p dm =
      let (f, drop) = check_if_drop m p.filtering dm in
      let p' = record p { filtering = f } in
      if drop then ok (p', dm, return_drop) else apply_all p'.active_transforms p' dm
