-- ===== src/Loggers/Worker.antt =====
-- The loops of `Run` in loggers/restapi.go and loggers/prometheus.go: a message from the channel goes
-- through the outgoing transforms and, if they do not drop it, into the state. No `Run` of a logger
-- calls `InitDnsMessageFormat`.
pub mod Loops
use go_dns_collector.Base.{List, [], ◌∷◌, Outcome, ok, err, panic, ◌>>=◌}
use go_dns_collector.Message.{DnsMessage}
use go_dns_collector.Transform.Filtering.{Matchers}
use go_dns_collector.Transform.Chain.{
  Lookups, Code, return_success, return_drop, return_error, Transforms,
}
use go_dns_collector.Transform.Process.{Result, process_message}

-- What a select takes: a message, or the timer.
pub data Event : Type 0 where
  incoming : DnsMessage → Event
  tick : Event

abbrev pub unless_drop :
    {S : Type 0} → (DnsMessage → S → S) → S → Result → Outcome ⊥ (Transforms × S)
unless_drop keep s (ok (p, dm, return_success)) = ok (p, keep dm s)
unless_drop keep s (ok (p, dm, return_drop)) = ok (p, s)
unless_drop keep s (ok (p, dm, return_error)) = ok (p, keep dm s)
unless_drop keep s (err e) = err e
unless_drop keep s (panic c) = panic c

module _ {S : Type 0} (lookups : Lookups) (matchers : Matchers) (keep : DnsMessage → S → S)
    (timer : S → S) where
  unfoldable pub handle : Event → Transforms → S → Outcome ⊥ (Transforms × S)
  handle (incoming dm) p s = unless_drop keep s (process_message lookups matchers p dm)
  handle tick p s = ok (p, timer s)

  -- The loop of Run, over the events until the channel is closed.
  unfoldable pub run_events : List Event → Transforms → S → Outcome ⊥ (Transforms × S)
  unfolding handle
  run_events [] p s = ok (p, s)
  run_events (e ∷ es) p s = handle e p s >>= λ (p', s'). run_events es p' s'
