-- ===== src/Loggers/Sender/Again.antt =====
-- The client of loggers/fluentd.go sends its buffer again.
use go_dns_collector.Base.{
  ℕ, zero, suc, ◌+◌, ◌≡◌, refl, sym, ap, ◌∙◌, inl, inr, true, false, Option, List, [], ◌∷◌, ◌++◌,
  append-nil, append_assoc, arith, ltb, Bool-cases, length, Bytes, ok, Ensures, string_key,
  bytes_key,
}
use go_dns_collector.Message.{DnsMessage}
use go_dns_collector.Transform.Filtering.{Matchers}
use go_dns_collector.Transform.Chain.{Lookups, Transforms}
use go_dns_collector.Loggers.Sender.{Link, Client, Event, elapsed, send_all}
use go_dns_collector.Loggers.Sender.FluentdClient.{
  flush_events, flush_events_due, events_due, step_events,
}
use go_dns_collector.Loggers.Sender.Loop.{run_client}
use go_dns_collector.Loggers.Sender.Flush.{encoded, Works, send_all-Works, Option-cases}

pub intervals : ℕ → List Event
intervals zero = []
intervals (suc n) = elapsed ∷ intervals n

pub repeated : ℕ → List Bytes → List Bytes
repeated zero bs = []
repeated (suc n) bs = bs ++ repeated n bs

-- The connection is ready, the timer is set, the buffer is `dms`, and `sent` was sent.
abbrev pub Holds : List DnsMessage → List Bytes → Client → Type 0
Holds dms sent s = (s.ready ≡ true) × (s.timer_on ≡ true) × (s.buffer ≡ dms) × (s.sent ≡ sent)

module _ (link : Link) where
  send_all-buffer : (dms : List DnsMessage) (s : Client) → (send_all link dms s).buffer ≡ s.buffer
  unfolding send_all
  send_all-buffer [] s = refl
  send_all-buffer (dm ∷ dms) s = elim (Option-cases (link.encode dm)) [
    | inl e ↦ rw (e, send_all) (send_all-buffer dms s)
    | inr (bytes, e) ↦
        rw (e, send_all)
          (elim (Bool-cases (link.works s.flushes)) [
            | inl up ↦ rw up (
                send_all-buffer dms
                  (record s { flushes = s.flushes + 1; sent = s.sent ++ bytes ∷ [] }))
            | inr down ↦ rw down refl
          ])
  ]

encoded-none :
    (encode : DnsMessage → Option Bytes) (dms : List DnsMessage)
    → ltb 0 (length dms) ≡ false
    → encoded encode dms ≡ []
unfolding encoded
encoded-none encode [] e = refl
encoded-none encode (dm ∷ dms) e = grind arith

module _ (link : Link) (works : Works link) (lookups : Lookups) (matchers : Matchers) where
  step_events-elapsed :
      (p : Transforms) (s : Client)
      → s.ready ≡ true
      → s.timer_on ≡ true
      → step_events link lookups matchers elapsed p s ≡ ok (p, flush_events_due link s)
  unfolding step_events events_due
  step_events-elapsed p s ready on = rw on (rw ready refl)

  flush_events_due-Holds :
      (dms : List DnsMessage) (bs : List Bytes) (s : Client)
      → Holds dms bs s
      → Holds dms (bs ++ encoded link.encode dms) (flush_events_due link s)
  unfolding flush_events_due flush_events
  flush_events_due-Holds dms bs s (ready, on, same, sum) =
      elim (Bool-cases (ltb 0 (length s.buffer))) [
        | inl e ↦
            let (all, up, timer) = send_all-Works link works s.buffer s in
            rw e (
              up ∙ ready,
              refl,
              send_all-buffer link s.buffer s ∙ same,
              all
                  ∙ ap (λ b. b ++ encoded link.encode s.buffer) sum
                  ∙ ap (λ l. bs ++ encoded link.encode l) same,
            )
        | inr e ↦ rw e (
          ready,
          refl,
          same,
          sum
              ∙ sym (append-nil bs)
              ∙ ap (λ l. bs ++ l)
                  (sym (encoded-none link.encode dms (ap (λ l. ltb 0 (length l)) (sym same) ∙ e))),
        )
      ]

  -- While no message comes and no send fails, the Fluentd client sends all messages of its buffer again
  -- at the end of every flush interval, and keeps them.
  pub fluentd_client-again :
      (n : ℕ) (dms : List DnsMessage) (bs : List Bytes) (p : Transforms) (s : Client)
      → Holds dms bs s
      → Ensures
          (λ (q, s'). Holds dms (bs ++ repeated n (encoded link.encode dms)) s')
          (λ e. ⊥)
          (run_client (step_events link lookups matchers) (intervals n) p s)
  unfolding run_client intervals repeated
  fluentd_client-again zero dms bs p s (ready, on, same, sum) =
      (ready, on, same, sum ∙ sym (append-nil bs))
  fluentd_client-again (suc n) dms bs p s h = rw (step_events-elapsed p s h.0 h.1) (
      rw (sym (append_assoc bs (encoded link.encode dms) (repeated n (encoded link.encode dms)))) (
        fluentd_client-again n dms (bs ++ encoded link.encode dms) p (flush_events_due link s)
          (flush_events_due-Holds dms bs s h)))
