-- ===== src/Transform/Process/Quieted.antt =====
-- Quiet text and the latency transforms, in the order of `Prepare`.
use go_dns_collector.Base.{
  String, ◌≡◌, refl, sym, inl, inr, true, false, [], ◌∷◌, str_eq, eq_iff, Bool-cases, ok,
  string_key, bytes_key,
}
use go_dns_collector.Message.{DnsMessage, dns_query}
use go_dns_collector.Transform.Quiet.{shorten, dns_qr, quiet_text}
use go_dns_collector.Transform.Latency.{
  get, remove, is_tracked, measure_latency, detect_evicted_timeout,
}
use go_dns_collector.Transform.Chain.{
  Lookups, quiet, latency, evicted_timeout, Transforms, return_success,
}
use go_dns_collector.Transform.Process.{apply, apply_all}

-- No shortened type is QUERY.
shorten-query : (s : String) → str_eq (shorten dns_qr s) dns_query ≡ false
unfolding shorten dns_qr
shorten-query s = elim (Bool-cases (str_eq "QUERY" s)) [
  | inl e ↦ rw e refl
  | inr e ↦ rw e (elim (Bool-cases (str_eq "REPLY" s)) [
    | inl e' ↦ rw e' refl
    | inr e' ↦ rw e' (elim (Bool-cases (str_eq s dns_query)) [
      | inl q ↦ (let same : str_eq "QUERY" s ≡ true = (eq_iff _ _).1 (sym ((eq_iff _ _).0 q)) in cc)
      | inr q ↦ q
    ])
  ])
]

quiet_text-query : (dm : DnsMessage) → str_eq (quiet_text dm).dns.type dns_query ≡ false
unfolding quiet_text
quiet_text-query dm = shorten-query dm.dns.type

measure_quiet : (dm : DnsMessage) → measure_latency [] (quiet_text dm) ≡ ([], quiet_text dm)
unfolding measure_latency get
measure_quiet dm = elim (Bool-cases (is_tracked (quiet_text dm))) [
  | inl e ↦ rw e (rw (quiet_text-query dm) refl)
  | inr e ↦ rw e refl
]

detect_quiet : (dm : DnsMessage) → detect_evicted_timeout [] (quiet_text dm) ≡ []
unfolding detect_evicted_timeout remove
detect_quiet dm = elim (Bool-cases (is_tracked (quiet_text dm))) [
  | inl e ↦ rw e (rw (quiet_text-query dm) refl)
  | inr e ↦ rw e refl
]

-- With quiet text before the two latency transforms, as Prepare orders them, and no pending query
-- yet, a message leaves no pending query and gets no latency, whether it is a query or a reply: the
-- result is the shortened message.
pub apply_all-quiet :
    (lib : Lookups) (p : Transforms) (dm : DnsMessage)
    → p.hash_queries ≡ []
    → p.map_queries ≡ []
    → apply_all lib (quiet ∷ latency ∷ evicted_timeout ∷ []) p dm
      ≡ ok (p, quiet_text dm, return_success)
unfolding apply_all apply
apply_all-quiet lib p dm h h' = rw h (rw h' (rw (measure_quiet dm) (rw (detect_quiet dm) refl)))
