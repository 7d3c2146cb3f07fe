-- ===== src/Transform/Process/Safe.antt =====
-- `ProcessMessage` on messages that `InitDnsMessageFormat` has prepared.
use go_dns_collector.Base.{
  ◌≡◌, refl, inl, inr, Bool, true, false, ◌||◌, List, [], ◌∷◌, ◌++◌, arith, Bool-cases, drop,
  Ensures, Ensures-weaken,
}
use go_dns_collector.Message.{DnsMessage}
use go_dns_collector.Transform.Config.{ConfigTransformers}
use go_dns_collector.Transform.Filtering.{Matchers, check_if_drop}
use go_dns_collector.Transform.Suspicious.{init_suspicious}
use go_dns_collector.Transform.Chain.{
  Lookups, Transform, lowercase, quiet, effective_tld, effective_tld_plus_one, geoip, anonymize_ip,
  minimaze_qname, hash_ip, suspicious, latency, evicted_timeout, Transforms, one_if, all_if,
  prepare, new_transforms, init_geo, init_suffix, init_dns_message_format,
}
use go_dns_collector.Transform.Process.{process_message}
use go_dns_collector.Transform.Process.Ready.{
  IsSome, Needs, Suited, Prepared, StaysPrepared, Stays, apply_all-Stays,
}

Suited-append :
    (ts us : List Transform) (dm : DnsMessage) → Suited ts dm → Suited us dm → Suited (ts ++ us) dm
Suited-append [] us dm h k = k
Suited-append (t ∷ ts) us dm (h, hs) k = (h, Suited-append ts us dm hs k)

Suited-all_if :
    (b : Bool) (ts : List Transform) (dm : DnsMessage)
    → (b ≡ true → Suited ts dm)
    → Suited (all_if b ts) dm
Suited-all_if true ts dm h = h refl
Suited-all_if false ts dm h = tt

Suited-one_if :
    (b : Bool) (t : Transform) (dm : DnsMessage) → (b ≡ true → Needs t dm) → Suited (one_if b t) dm
Suited-one_if true t dm h = (h refl, tt)
Suited-one_if false t dm h = tt

or_true : (b : Bool) → (b || true) ≡ true
or_true true = refl
or_true false = refl

module _ (c : ConfigTransformers) (dm : DnsMessage) where
  has_geo : c.geoip_enable ≡ true → IsSome (init_dns_message_format c dm).geo
  unfolding init_dns_message_format init_geo init_suffix init_suspicious
  has_geo h = elim (Bool-cases c.suspicious.enable) [
    | inl e ↦ rw e (rw h (ground arith))
    | inr e ↦ rw e (rw h (ground arith))
  ]

  has_suffix :
      c.normalize.enable ≡ true
      → (c.normalize.add_tld || c.normalize.add_tld_plus_one) ≡ true
      → IsSome (init_dns_message_format c dm).public_suffix
  unfolding init_dns_message_format init_suffix
  has_suffix h h' = rw h (rw h' tt)

  Suited-prepare : Suited (prepare c) (init_dns_message_format c dm)
  unfolding prepare
  Suited-prepare =
      let dm' = init_dns_message_format c dm in
      Suited-append _ _ dm'
        (Suited-all_if c.normalize.enable _ dm' (λ e.
          Suited-append _ _ dm' (Suited-one_if c.normalize.qname_lower_case lowercase dm' (λ h. tt))
            (Suited-append _ _ dm' (Suited-one_if c.normalize.quiet_text quiet dm' (λ h. tt)) (
              Suited-append _ _ dm'
                (Suited-one_if c.normalize.add_tld effective_tld dm'
                  (λ h. has_suffix e (rw h refl)))
                (Suited-one_if c.normalize.add_tld_plus_one effective_tld_plus_one dm'
                  (λ h. has_suffix e (rw h (or_true c.normalize.add_tld))))))))
        (Suited-append _ _ dm' (Suited-one_if c.geoip_enable geoip dm' has_geo) (
          Suited-append _ _ dm'
            (Suited-all_if c.user_privacy.enable _ dm' (λ e.
              Suited-append _ _ dm'
                (Suited-one_if c.user_privacy.anonymize_ip anonymize_ip dm' (λ h. tt))
                (Suited-append _ _ dm'
                  (Suited-one_if c.user_privacy.minimaze_qname minimaze_qname dm' (λ h. tt))
                  (Suited-one_if c.user_privacy.hash_ip hash_ip dm' (λ h. tt)))))
            (Suited-append _ _ dm' (Suited-one_if c.suspicious.enable suspicious dm' (λ h. tt)) (
              Suited-all_if c.latency.enable _ dm' (λ e.
                Suited-append _ _ dm'
                  (Suited-one_if c.latency.measure_latency latency dm' (λ h. tt))
                  (Suited-one_if c.latency.unanswered_queries evicted_timeout dm' (λ h. tt)))))))

pub new_transforms-Prepared : (c : ConfigTransformers) → Prepared (new_transforms c)
unfolding new_transforms
new_transforms-Prepared c = refl

-- The same for any message with the parts that the transforms read, which stay the same.
pub process_message-Stays :
    (lib : Lookups) (m : Matchers) (p : Transforms) (dm : DnsMessage)
    → Prepared p
    → Suited p.active_transforms dm
    → Ensures (Stays p.active_transforms) (λ e. ⊥) (process_message lib m p dm)
unfolding process_message
process_message-Stays lib m p dm h ready =
    let (f, drop) = check_if_drop m p.filtering dm in
    elim (Bool-cases drop) [
      | inl e ↦ rw e (h, refl)
      | inr e ↦ rw e (
          apply_all-Stays lib p.active_transforms p.active_transforms (record p { filtering = f })
            dm h refl ready)
    ]

pub process_message-Suited :
    (lib : Lookups) (m : Matchers) (p : Transforms) (dm : DnsMessage)
    → Prepared p
    → Suited p.active_transforms dm
    → Ensures StaysPrepared (λ e. ⊥) (process_message lib m p dm)
process_message-Suited lib m p dm h ready =
    Ensures-weaken (Stays p.active_transforms) StaysPrepared (λ e. ⊥) (λ e. ⊥)
      (process_message lib m p dm) (process_message-Stays lib m p dm h ready) (λ r stays. stays.0)
      (λ e no. no)

pub Suited-init :
    (p : Transforms) (dm : DnsMessage)
    → Prepared p
    → Suited p.active_transforms (init_dns_message_format p.config dm)
Suited-init p dm h = rw h (Suited-prepare p.config dm)

-- A message that InitDnsMessageFormat initialised for the configuration passes through
-- ProcessMessage without a panic, whatever the configuration, the message, the state and the answers
-- of the libraries are, if the transforms are those that Prepare lists; and they stay so.
pub process_message-Prepared :
    (lib : Lookups) (m : Matchers) (p : Transforms) (dm : DnsMessage)
    → Prepared p
    → Ensures StaysPrepared (λ e. ⊥) (process_message lib m p (init_dns_message_format p.config dm))
process_message-Prepared lib m p dm h =
    process_message-Suited lib m p (init_dns_message_format p.config dm) h (Suited-init p dm h)
