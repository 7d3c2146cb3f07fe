-- ===== src/Loggers/Prometheus/Eps.antt =====
-- The events per second of a stream, from ComputeEps of loggers/prometheus.go.
use go_dns_collector.Base.{
  ℕ, ◌+◌, ◌-◌, ◌%◌, ◌^◌, ◌<◌, String, ◌≡◌, refl, ap, ◌∙◌, inl, inr, true, ◌&&◌, Option, none, some,
  List, [], ◌∷◌, map, arith, str_eq, eq_iff, ltb, if◌then◌else◌, Bool-cases, string_key, bytes_key,
  value_or, find, find-adjust,
}
use go_dns_collector.Message.{DnsMessage}
use go_dns_collector.Loggers.Top.{TopMap}
use go_dns_collector.Loggers.RestApi.{nxdomain, servfail}
use go_dns_collector.Loggers.RestApi.Counts.{count, from_stream}
use go_dns_collector.Loggers.Prometheus.{
  EpsCounters, Prometheus, timeout, new_counters, count_event, positive_score, count_domain,
  count_suspicious, count_packet, record_message, compute, compute_eps,
}

counted_event : ℕ → EpsCounters → EpsCounters
counted_event n c = record c { total_events = c.total_events + n }

abbrev mapped : Option EpsCounters → Option EpsCounters
mapped none = none
mapped (some c) = some (compute c)

find-compute :
    (id : String) (m : List (String × EpsCounters))
    → find id (map (λ (id, c). (id, compute c)) m) ≡ mapped (find id m)
unfolding find
find-compute id [] = refl
find-compute id ((j, d) ∷ m) = elim (Bool-cases (str_eq j id)) [
  | inl e ↦ rw e refl
  | inr e ↦ rw e (find-compute id m)
]

small_mod : (n : ℕ) → n < 2 ^ 64 → n % 2 ^ 64 ≡ n
small_mod n h = omega (arith, h)

module _ {Top : Type 0} (top : TopMap Top) (top_n : ℕ) where
  count_domain-streams :
      (dm : DnsMessage) (s : Prometheus Top)
      → (count_domain top top_n dm s).streams_map ≡ s.streams_map
  unfolding count_domain
  count_domain-streams dm s = elim (Bool-cases (str_eq dm.dns.rcode timeout)) [
    | inl e ↦ rw e refl
    | inr e ↦ rw e (elim (Bool-cases (str_eq dm.dns.rcode servfail)) [
      | inl e ↦ rw e refl
      | inr e ↦ rw e (elim (Bool-cases (str_eq dm.dns.rcode nxdomain)) [
        | inl e ↦ rw e refl
        | inr e ↦ rw e refl
      ])
    ])
  ]

  count_suspicious-streams :
      (dm : DnsMessage) (s : Prometheus Top)
      → (count_suspicious top top_n dm s).streams_map ≡ s.streams_map
  unfolding count_suspicious
  count_suspicious-streams dm s = elim (Bool-cases (positive_score dm.suspicious)) [
    | inl e ↦ rw e refl
    | inr e ↦ rw e refl
  ]

  find-record_message :
      (id : String) (dm : DnsMessage) (s : Prometheus Top)
      → find id (record_message top top_n dm s).streams_map ≡ (
          if str_eq dm.dns_tap.identity id
          then some (count_event (value_or new_counters (find dm.dns_tap.identity s.streams_map)))
          else find id s.streams_map)
  unfolding record_message count_packet
  find-record_message id dm s =
      ap (find id) (count_suspicious-streams dm _ ∙ count_domain-streams dm _)
      ∙ find-adjust id dm.dns_tap.identity new_counters count_event s.streams_map

  unfoldable pub record_messages : List DnsMessage → Prometheus Top → Prometheus Top
  record_messages [] s = s
  record_messages (dm ∷ dms) s = record_messages dms (record_message top top_n dm s)

  find-record_messages :
      (id : String) (dms : List DnsMessage) (s : Prometheus Top) (c : EpsCounters)
      → find id s.streams_map ≡ some c
      → c.total_events + count (from_stream id) dms < 2 ^ 64
      → find id (record_messages dms s).streams_map
        ≡ some (counted_event (count (from_stream id) dms) c)
  unfolding record_messages count counted_event count_event
  find-record_messages id [] s c h small =
      h ∙ ap (λ n. some (record c { total_events = n })) (omega arith)
  find-record_messages id (dm ∷ dms) s c h small =
      elim (Bool-cases (str_eq dm.dns_tap.identity id)) [
        | inl e ↦
            let same : find dm.dns_tap.identity s.streams_map ≡ some c =
              ap (λ i. find i s.streams_map) ((eq_iff dm.dns_tap.identity id).0 e) ∙ h in
            let next : find id (record_message top top_n dm s).streams_map
                ≡ some (counted_event 1 c) =
              find-record_message id dm s
              ∙ rw e (
                  rw same (
                    ap (λ n. some (record c { total_events = n }))
                      (small_mod (c.total_events + 1) (omega (arith, (rw e at small)))))) in
            find-record_messages id dms (record_message top top_n dm s) (counted_event 1 c) next
              (omega (arith, (rw e at small)))
            ∙ ap (λ n. some (record c { total_events = n })) (rw e (omega arith))
        | inr e ↦
            find-record_messages id dms (record_message top top_n dm s) c
              (find-record_message id dm s ∙ rw e h) (omega (arith, (rw e at small)))
            ∙ ap (λ n. some (record c { total_events = n })) (rw e (omega arith))
      ]

  -- A stream whose counters a tick has just set, and that has had events before: at the next tick its
  -- events per second are the number of messages of the stream recorded in between, as long as
  -- its total stays below 2 ^ 64, and the maximum follows.
  pub compute_eps-rate :
      (id : String) (dms : List DnsMessage) (s : Prometheus Top) (c : EpsCounters)
      → find id s.streams_map ≡ some c
      → c.total_events_prev ≡ c.total_events
      → 0 < c.total_events
      → c.total_events + count (from_stream id) dms < 2 ^ 64
      → let n = count (from_stream id) dms in
        find id (compute_eps (record_messages dms s)).streams_map
        ≡ some (record {
          eps = n;
          eps_max = if ltb c.eps_max n then n else c.eps_max;
          total_events = c.total_events + n;
          total_events_prev = c.total_events + n;
        })
  unfolding compute_eps compute counted_event
  compute_eps-rate id dms s c h prev busy small =
      let n = count (from_stream id) dms in
      let on : (ltb 0 (c.total_events + n) && ltb 0 c.total_events_prev) ≡ true =
        ground (arith, prev, busy) in
      let gap : (c.total_events + n + (2 ^ 64 - c.total_events_prev)) % 2 ^ 64 ≡ n =
        omega (arith, prev, small) in
      find-compute id (record_messages dms s).streams_map
      ∙ ap mapped (find-record_messages id dms s c h small)
      ∙ rw on (rw gap refl)
