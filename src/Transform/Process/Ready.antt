-- ===== src/Transform/Process/Ready.antt =====
-- No transform reads a field of a nil pointer: `InitDnsMessageFormat` sets what `Prepare` lists.
use go_dns_collector.Base.{
  ℕ, ◌≡◌, refl, sym, ap, ◌∙◌, subst, inl, inr, Option, none, some, List, [], ◌∷◌, str_eq,
  Bool-cases, ℤ, Bytes, Ensures, string_key, bytes_key, Ensures-bind,
}
use go_dns_collector.Message.{DnsMessage, DnsGeo, PublicSuffix, Suspicious, dns_query}
use go_dns_collector.Transform.Config.{SuspiciousConfig}
use go_dns_collector.Transform.Filtering.{to_lower}
use go_dns_collector.Transform.Suspicious.{check_if_suspicious, with_checks}
use go_dns_collector.Transform.Quiet.{quiet_text}
use go_dns_collector.Transform.Latency.{
  measure_latency, HashQueries, is_tracked, query_key, get, answer_latency,
}
use go_dns_collector.Transform.Chain.{
  Lookups, Transform, lowercase, quiet, effective_tld, effective_tld_plus_one, geoip, anonymize_ip,
  minimaze_qname, hash_ip, suspicious, latency, evicted_timeout, Code, return_success, return_drop,
  return_error, Transforms, prepare,
}
use go_dns_collector.Transform.Process.{
  Result, geoip_transform, get_effective_tld, get_effective_tld_plus_one, apply, unless_stopped,
  apply_all, trim_dot, set_geo, set_suffix, set_plus_one, with_plus_one,
}

abbrev pub IsSome {ℓ} : {A : Type ℓ} → Option A → Type 0
IsSome none = ⊥
IsSome (some a) = Unit

-- What a transform reads.
abbrev pub Needs : Transform → DnsMessage → Type 0
Needs geoip dm = IsSome dm.geo
Needs effective_tld dm = IsSome dm.public_suffix
Needs effective_tld_plus_one dm = IsSome dm.public_suffix
Needs t dm = Unit

abbrev pub Suited : List Transform → DnsMessage → Type 0
Suited [] dm = Unit
Suited (t ∷ ts) dm = Needs t dm × Suited ts dm

-- Both pointers that are set stay set.
abbrev pub Keeps : DnsMessage → DnsMessage → Type 0
Keeps dm dm' =
    (IsSome dm.geo → IsSome dm'.geo) × (IsSome dm.public_suffix → IsSome dm'.public_suffix)

-- The transforms are those of `Prepare` for the configuration.
abbrev pub Prepared : Transforms → Type 0
Prepared p = p.active_transforms ≡ prepare p.config

abbrev pub StaysPrepared : Transforms × DnsMessage × Code → Type 0
StaysPrepared (p, dm, code) = Prepared p

-- They are `ts`, too.
abbrev pub Stays : List Transform → Transforms × DnsMessage × Code → Type 0
Stays ts (p, dm, code) = Prepared p × (p.active_transforms ≡ ts)

abbrev Applied : Transforms → DnsMessage → Transforms × DnsMessage × Code → Type 0
Applied p dm (p', dm', code) =
    Keeps dm dm' × ((p'.config ≡ p.config) × (p'.active_transforms ≡ p.active_transforms))

Needs-Keeps : (t : Transform) (dm dm' : DnsMessage) → Keeps dm dm' → Needs t dm → Needs t dm'
Needs-Keeps geoip dm dm' (g, s) h = g h
Needs-Keeps effective_tld dm dm' (g, s) h = s h
Needs-Keeps effective_tld_plus_one dm dm' (g, s) h = s h
Needs-Keeps _ dm dm' k h = tt

pub Suited-Keeps :
    (ts : List Transform) (dm dm' : DnsMessage) → Keeps dm dm' → Suited ts dm → Suited ts dm'
Suited-Keeps [] dm dm' k h = tt
Suited-Keeps (t ∷ ts) dm dm' k (h, hs) = (Needs-Keeps t dm dm' k h, Suited-Keeps ts dm dm' k hs)

pub Keeps-same :
    (dm dm' : DnsMessage) → dm'.geo ≡ dm.geo → dm'.public_suffix ≡ dm.public_suffix → Keeps dm dm'
Keeps-same dm dm' g s = (subst IsSome (sym g), subst IsSome (sym s))

with_checks-Keeps :
    (c : SuspiciousConfig) (dm : DnsMessage) (o : Option Suspicious) → Keeps dm (with_checks c dm o)
with_checks-Keeps c dm none = (λ h. h, λ h. h)
with_checks-Keeps c dm (some s) = (λ h. h, λ h. h)

check_if_suspicious-Keeps :
    (c : SuspiciousConfig) (dm : DnsMessage) → Keeps dm (check_if_suspicious c dm)
unfolding check_if_suspicious
check_if_suspicious-Keeps c dm = with_checks-Keeps c dm dm.suspicious

answer_latency-Keeps :
    (k : ℕ) (dm : DnsMessage) (kv : HashQueries) (o : Option ℤ)
    → Keeps dm (answer_latency k dm kv o).1
answer_latency-Keeps k dm kv none = (λ h. h, λ h. h)
answer_latency-Keeps k dm kv (some v) = (λ h. h, λ h. h)

measure_latency-Keeps : (kv : HashQueries) (dm : DnsMessage) → Keeps dm (measure_latency kv dm).1
unfolding measure_latency
measure_latency-Keeps kv dm = elim (Bool-cases (is_tracked dm)) [
  | inr e ↦ rw e (λ h. h, λ h. h)
  | inl e ↦ rw e (elim (Bool-cases (str_eq dm.dns.type dns_query)) [
    | inl e' ↦ rw e' (λ h. h, λ h. h)
    | inr e' ↦ rw e' (answer_latency-Keeps (query_key dm) dm kv (get (query_key dm) kv))
  ])
]

quiet_text-Keeps : (dm : DnsMessage) → Keeps dm (quiet_text dm)
unfolding quiet_text
quiet_text-Keeps dm = (λ h. h, λ h. h)

set_geo-Applied :
    (p : Transforms) (dm : DnsMessage) (g : DnsGeo) (o : Option DnsGeo)
    → IsSome o
    → Ensures (Applied p dm) (λ e. ⊥) (set_geo p dm g o)
set_geo-Applied p dm g none h = h
set_geo-Applied p dm g (some old) h = ((λ h. tt, λ h. h), (refl, refl))

set_suffix-Applied :
    (p : Transforms) (dm : DnsMessage) (t : Bytes) (o : Option PublicSuffix)
    → IsSome o
    → Ensures (Applied p dm) (λ e. ⊥) (set_suffix p dm t o)
set_suffix-Applied p dm t none h = h
set_suffix-Applied p dm t (some old) h = ((λ h. h, λ h. tt), (refl, refl))

set_plus_one-Applied :
    (p : Transforms) (dm : DnsMessage) (t : Bytes) (o : Option PublicSuffix)
    → IsSome o
    → Ensures (Applied p dm) (λ e. ⊥) (set_plus_one p dm t o)
set_plus_one-Applied p dm t none h = h
set_plus_one-Applied p dm t (some old) h = ((λ h. h, λ h. tt), (refl, refl))

module _ (lib : Lookups) where
  geoip_transform-Applied :
      (p : Transforms) (dm : DnsMessage) (g : Option DnsGeo)
      → IsSome dm.geo
      → Ensures (Applied p dm) (λ e. ⊥) (geoip_transform lib p dm g)
  unfolding geoip_transform
  geoip_transform-Applied p dm none h = ((λ h. h, λ h. h), (refl, refl))
  geoip_transform-Applied p dm (some g) h = set_geo-Applied p dm g dm.geo h

  get_effective_tld-Applied :
      (p : Transforms) (dm : DnsMessage)
      → IsSome dm.public_suffix
      → Ensures (Applied p dm) (λ e. ⊥) (get_effective_tld lib p dm)
  unfolding get_effective_tld
  get_effective_tld-Applied p dm h =
      let (tld, icann) = lib.public_suffix (trim_dot (to_lower dm.dns.qname)) in
      elim (Bool-cases icann) [
        | inl e ↦ rw e (set_suffix-Applied p dm tld dm.public_suffix h)
        | inr e ↦ rw e ((λ h. h, λ h. h), (refl, refl))
      ]

  with_plus_one-Applied :
      (p : Transforms) (dm : DnsMessage) (o : Option Bytes)
      → IsSome dm.public_suffix
      → Ensures (Applied p dm) (λ e. ⊥) (with_plus_one lib p dm o)
  with_plus_one-Applied p dm none h = ((λ h. h, λ h. h), (refl, refl))
  with_plus_one-Applied p dm (some t) h = set_plus_one-Applied p dm t dm.public_suffix h

  get_effective_tld_plus_one-Applied :
      (p : Transforms) (dm : DnsMessage)
      → IsSome dm.public_suffix
      → Ensures (Applied p dm) (λ e. ⊥) (get_effective_tld_plus_one lib p dm)
  unfolding get_effective_tld_plus_one
  get_effective_tld_plus_one-Applied p dm h =
      with_plus_one-Applied p dm (lib.etld_plus_one (trim_dot (to_lower dm.dns.qname))) h

  apply-Applied :
      (t : Transform) (p : Transforms) (dm : DnsMessage)
      → Needs t dm
      → Ensures (Applied p dm) (λ e. ⊥) (apply lib t p dm)
  unfolding apply
  apply-Applied effective_tld p dm h = get_effective_tld-Applied p dm h
  apply-Applied effective_tld_plus_one p dm h = get_effective_tld_plus_one-Applied p dm h
  apply-Applied geoip p dm h = geoip_transform-Applied p dm (lib.geoip dm.network_info.query_ip) h
  apply-Applied suspicious p dm h = (check_if_suspicious-Keeps p.config.suspicious dm, (refl, refl))
  apply-Applied latency p dm h = (measure_latency-Keeps p.hash_queries dm, (refl, refl))
  apply-Applied lowercase p dm h = ((λ h. h, λ h. h), (refl, refl))
  apply-Applied quiet p dm h = (quiet_text-Keeps dm, (refl, refl))
  apply-Applied anonymize_ip p dm h = ((λ h. h, λ h. h), (refl, refl))
  apply-Applied minimaze_qname p dm h = ((λ h. h, λ h. h), (refl, refl))
  apply-Applied hash_ip p dm h = ((λ h. h, λ h. h), (refl, refl))
  apply-Applied evicted_timeout p dm h = ((λ h. h, λ h. h), (refl, refl))

  unless_stopped-Stays :
      (us : List Transform) (code : Code) (next stop : Result)
      → Ensures (Stays us) (λ e. ⊥) next
      → Ensures (Stays us) (λ e. ⊥) stop
      → Ensures (Stays us) (λ e. ⊥) (unless_stopped lib code next stop)
  unless_stopped-Stays us return_success next stop h h' = h
  unless_stopped-Stays us return_drop next stop h h' = h'
  unless_stopped-Stays us return_error next stop h h' = h'

  pub apply_all-Stays :
      (us ts : List Transform) (p : Transforms) (dm : DnsMessage)
      → Prepared p
      → p.active_transforms ≡ us
      → Suited ts dm
      → Ensures (Stays us) (λ e. ⊥) (apply_all lib ts p dm)
  unfolding apply_all
  apply_all-Stays us [] p dm h same s = (h, same)
  apply_all-Stays us (t ∷ ts) p dm h same (s, ss) =
      Ensures-bind (Applied p dm) (Stays us) (λ e. ⊥) (apply lib t p dm) _ (apply-Applied t p dm s)
        (λ (p', dm', code) (k, (c, a)).
          let h' : Prepared p' = a ∙ (h ∙ sym (ap prepare c)) in
          let same' : p'.active_transforms ≡ us = a ∙ same in
          unless_stopped-Stays us code (apply_all lib ts p' dm') _
            (apply_all-Stays us ts p' dm' h' same' (Suited-Keeps ts dm dm' k ss)) (h', same'))
