-- ===== src/Transform/Latency/Timers.antt =====
-- The timers of `MapQueries` and the queries that they were started for.
use go_dns_collector.Base.{
  ℕ, ◌≡◌, refl, ap, true, false, List, [], ◌∷◌, str_eq, string_key, bytes_key,
}
use go_dns_collector.Message.{DnsMessage, dns_query}
use go_dns_collector.Transform.Latency.{
  remove, put, query_key, is_tracked, MapQueries, detect_evicted_timeout, query_timer, timed_out,
}
use go_dns_collector.Transform.Latency.Pairs.{get-put, get-remove, remove_absent, remove-put}

abbrev pub detect_all : MapQueries → List DnsMessage → MapQueries
detect_all kv [] = kv
detect_all kv (dm ∷ dms) = detect_all (detect_evicted_timeout kv dm) dms

module _ (kv : MapQueries) (dm : DnsMessage) (tracked : is_tracked dm ≡ true) where
  detect_query :
      str_eq dm.dns.type dns_query ≡ true → detect_evicted_timeout kv dm ≡ put (query_key dm) dm kv
  unfolding detect_evicted_timeout
  detect_query h = rw tracked (rw h refl)

  detect_reply :
      str_eq dm.dns.type dns_query ≡ false → detect_evicted_timeout kv dm ≡ remove (query_key dm) kv
  unfolding detect_evicted_timeout
  detect_reply h = rw tracked (rw h refl)

timer_present :
    (k : ℕ) (old new : DnsMessage) (kv : MapQueries)
    → query_timer k old (put k new kv) ≡ (remove k kv, timed_out old ∷ [])
unfolding query_timer
timer_present k old new kv = rw (get-put k new kv) (rw (remove-put k new kv) refl)

timer_absent :
    (k : ℕ) (old : DnsMessage) (kv : MapQueries)
    → query_timer k old (remove k kv) ≡ (remove k kv, [])
unfolding query_timer
timer_absent k old kv = rw (get-remove k kv) (rw (remove_absent k kv) refl)

-- The timer of a tracked query that no message followed sends the query with the code TIMEOUT, and
-- the timer of one that a tracked reply with its key followed sends nothing. Both leave no entry for
-- the key.
pub query_timer-answered :
    (kv : MapQueries) (q r : DnsMessage)
    → is_tracked q ≡ true
    → is_tracked r ≡ true
    → str_eq q.dns.type dns_query ≡ true
    → str_eq r.dns.type dns_query ≡ false
    → query_key r ≡ query_key q
    → (query_timer (query_key q) q (detect_all kv (q ∷ []))
        ≡ (remove (query_key q) kv, timed_out q ∷ []))
      × (query_timer (query_key q) q (detect_all kv (q ∷ r ∷ [])) ≡ (remove (query_key q) kv, []))
query_timer-answered kv q r tq tr hq hr e =
    let k = query_key q in
    let second : detect_all kv (q ∷ r ∷ []) ≡ remove k kv =
      rw (detect_query kv q tq hq)
        (rw (detect_reply (put k q kv) r tr hr) (rw e (remove-put k q kv))) in
    (rw (detect_query kv q tq hq) (timer_present k q q kv), rw second (timer_absent k q kv))

-- A tracked query, a tracked reply with its key, and a second tracked query with that key, before
-- the first timer: the first timer sends the answered query with the code TIMEOUT and takes the
-- entry of the second query, whose own timer then sends nothing.
pub query_timer-stale :
    (kv : MapQueries) (q r again : DnsMessage)
    → is_tracked q ≡ true
    → is_tracked r ≡ true
    → is_tracked again ≡ true
    → str_eq q.dns.type dns_query ≡ true
    → str_eq r.dns.type dns_query ≡ false
    → str_eq again.dns.type dns_query ≡ true
    → query_key r ≡ query_key q
    → query_key again ≡ query_key q
    → (query_timer (query_key q) q (detect_all kv (q ∷ r ∷ again ∷ []))
        ≡ (remove (query_key q) kv, timed_out q ∷ []))
      × (query_timer (query_key q) again (remove (query_key q) kv) ≡ (remove (query_key q) kv, []))
query_timer-stale kv q r again tq tr ta hq hr ha e e' =
    let k = query_key q in
    let second : detect_evicted_timeout (detect_evicted_timeout kv q) r ≡ remove k kv =
      rw (detect_query kv q tq hq)
        (rw (detect_reply (put k q kv) r tr hr) (rw e (remove-put k q kv))) in
    let third : detect_all kv (q ∷ r ∷ again ∷ []) ≡ put k again (remove k kv) =
      rw second
        (rw (detect_query (remove k kv) again ta ha) (ap (λ j. put j again (remove k kv)) e')) in
    (
      rw third (rw (timer_present k q again (remove k kv)) (rw (remove_absent k kv) refl)),
      timer_absent k again kv,
    )
