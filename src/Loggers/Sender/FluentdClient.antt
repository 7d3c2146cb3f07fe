-- ===== src/Loggers/Sender/FluentdClient.antt =====
-- `FlushBuffer` and the cases of `Run` in loggers/fluentd.go, whose `FlushBuffer` does not empty the
-- buffer. The size of the buffer and the interval are those configured for the TCP client.
use go_dns_collector.Base.{
  true, false, not, [], ◌∷◌, ◌++◌, ltb, leb, if◌then◌else◌, length, Outcome, ok, string_key,
  bytes_key,
}
use go_dns_collector.Message.{DnsMessage}
use go_dns_collector.Transform.Filtering.{Matchers}
use go_dns_collector.Transform.Chain.{Lookups, Transforms}
use go_dns_collector.Transform.Process.{process_message}
use go_dns_collector.Loggers.Worker.{unless_drop}
use go_dns_collector.Loggers.Sender.{Link, Client, Event, connected, incoming, elapsed, send_all}

module _ (link : Link) where
  unfoldable pub flush_events : Client → Client
  unfolding send_all
  flush_events s = send_all link s.buffer s

  -- The end of the case of a message, when the transforms do not drop it.
  unfoldable pub append_event : DnsMessage → Client → Client
  unfolding flush_events
  append_event dm s =
      let s' : Client = record s { buffer = s.buffer ++ dm ∷ [] } in
      if leb link.buffer_size (length s'.buffer) then flush_events s' else s'

  unfoldable pub flush_events_due : Client → Client
  unfolding flush_events
  flush_events_due s =
      let s' = if ltb 0 (length s.buffer) then flush_events s else s in
      record s' { timer_on = true }

  -- The case of the flush timer. It is not set again when the connection is not ready.
  unfoldable pub events_due : Client → Client
  unfolding flush_events_due
  events_due s =
      if not s.ready then record s { buffer = []; timer_on = false } else flush_events_due s

  module _ (lookups : Lookups) (matchers : Matchers) where
    unfoldable pub step_events : Event → Transforms → Client → Outcome ⊥ (Transforms × Client)
    unfolding append_event events_due
    step_events (connected started) p s = ok (p, record s { ready = true })
    step_events (incoming dm) p s =
        if not s.ready
        then ok (p, s)
        else unless_drop append_event s (process_message lookups matchers p dm)
    step_events elapsed p s = ok (p, if s.timer_on then events_due s else s)
