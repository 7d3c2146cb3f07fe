-- ===== src/Transform/Latency/Pairs.antt =====
-- Queries and their replies in `MeasureLatency`.
use go_dns_collector.Base.{
  ℕ, ◌≡◌, refl, true, false, none, some, List, [], ◌∷◌, arith, str_eq, ℤ, string_key, bytes_key,
}
use go_dns_collector.Message.{DnsMessage, dns_query}
use go_dns_collector.Transform.Latency.{
  get, remove, put, query_key, is_tracked, diff, HashQueries, measure_latency,
}

module _ {ℓ} {V : Type ℓ} where
  -- What `put` stores is found, and what `remove` takes is not.
  pub get-put : (k : ℕ) (v : V) (m : List (ℕ × V)) → get k (put k v m) ≡ some v
  unfolding get put
  get-put k v m = ground arith

  pub get-remove : (k : ℕ) (m : List (ℕ × V)) → get k (remove k m) ≡ none
  unfolding get remove
  get-remove k [] = refl
  get-remove k ((j, v) ∷ m) = ground (arith, get-remove k m)

  pub remove_absent : (k : ℕ) (m : List (ℕ × V)) → remove k (remove k m) ≡ remove k m
  unfolding remove
  remove_absent k [] = refl
  remove_absent k ((j, v) ∷ m) = ground (arith, remove_absent k m)

  pub remove-put : (k : ℕ) (v : V) (m : List (ℕ × V)) → remove k (put k v m) ≡ remove k m
  unfolding put remove
  remove-put k v m = ground (arith, remove_absent k m)

-- Messages in the order in which they reach the transform.
abbrev pub measure_all : HashQueries → List DnsMessage → HashQueries × List DnsMessage
measure_all kv [] = (kv, [])
measure_all kv (dm ∷ dms) =
    let (kv', dm') = measure_latency kv dm in
    let (last, out) = measure_all kv' dms in (last, dm' ∷ out)

abbrev pub with_latency : DnsMessage → ℤ → DnsMessage
with_latency dm t = record dm { dns_tap = record (dm.dns_tap) { latency = t } }

module _ (kv : HashQueries) (dm : DnsMessage) (tracked : is_tracked dm ≡ true) where
  measure_query :
      str_eq dm.dns.type dns_query ≡ true
      → measure_latency kv dm ≡ (put (query_key dm) dm.dns_tap.timestamp kv, dm)
  unfolding measure_latency
  measure_query h = rw tracked (rw h refl)

  measure_reply :
      (sent : ℤ)
      → str_eq dm.dns.type dns_query ≡ false
      → get (query_key dm) kv ≡ some sent
      → measure_latency kv dm
        ≡ (remove (query_key dm) kv, with_latency dm (diff dm.dns_tap.timestamp sent))
  unfolding measure_latency
  measure_reply sent h g = rw tracked (rw h (rw g refl))

  measure_unknown :
      str_eq dm.dns.type dns_query ≡ false
      → get (query_key dm) kv ≡ none
      → measure_latency kv dm ≡ (kv, dm)
  unfolding measure_latency
  measure_unknown h g = rw tracked (rw h (rw g refl))

-- A tracked query followed by two tracked replies with its key: the first reply gets the difference
-- of the two timestamps as its latency, the query and the second reply pass unchanged, and the map
-- holds no entry for the key, whatever it held before, and is unchanged elsewhere.
pub measure_latency-pair :
    (kv : HashQueries) (q r r' : DnsMessage)
    → is_tracked q ≡ true
    → is_tracked r ≡ true
    → is_tracked r' ≡ true
    → str_eq q.dns.type dns_query ≡ true
    → str_eq r.dns.type dns_query ≡ false
    → str_eq r'.dns.type dns_query ≡ false
    → query_key r ≡ query_key q
    → query_key r' ≡ query_key q
    → measure_all kv (q ∷ r ∷ r' ∷ []) ≡ (
      remove (query_key q) kv,
      q ∷ with_latency r (diff r.dns_tap.timestamp q.dns_tap.timestamp) ∷ r' ∷ [],
    )
measure_latency-pair kv q r r' tq tr tr' hq hr hr' e e' =
    let sent = q.dns_tap.timestamp in
    let stored = put (query_key q) sent kv in
    let found : get (query_key r) stored ≡ some sent = rw e (get-put (query_key q) sent kv) in
    let gone : remove (query_key r) stored ≡ remove (query_key q) kv =
      rw e (remove-put (query_key q) sent kv) in
    let lost : get (query_key r') (remove (query_key q) kv) ≡ none =
      rw e' (get-remove (query_key q) kv) in
    rw (measure_query kv q tq hq) (
      rw (measure_reply stored r tr sent hr found)
        (rw gone (rw (measure_unknown (remove (query_key q) kv) r' tr' hr' lost) refl)))
