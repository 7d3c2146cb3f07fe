-- ===== src/Loggers/Sender/TcpClient.antt =====
-- `FlushBuffer` and the cases of `Run` in loggers/tcpclient.go.
use go_dns_collector.Base.{
  true, false, not, [], ◌∷◌, ◌++◌, ltb, leb, if◌then◌else◌, length, Outcome, ok, string_key,
  bytes_key,
}
use go_dns_collector.Message.{DnsMessage}
use go_dns_collector.Transform.Filtering.{Matchers}
use go_dns_collector.Transform.Chain.{Lookups, Transforms}
use go_dns_collector.Transform.Process.{process_message}
use go_dns_collector.Loggers.Worker.{unless_drop}
use go_dns_collector.Loggers.Sender.{Link, Client, Event, connected, incoming, elapsed, send_all}

module _ (link : Link) where
  unfoldable pub flush_buffer : Client → Client
  unfolding send_all
  flush_buffer s = record (send_all link s.buffer s) { buffer = [] }

  -- The end of the case of a message, when the transforms do not drop it.
  unfoldable pub append_dm : DnsMessage → Client → Client
  unfolding flush_buffer
  append_dm dm s =
      let s' : Client = record s { buffer = s.buffer ++ dm ∷ [] } in
      if leb link.buffer_size (length s'.buffer) then flush_buffer s' else s'

  -- The case of the flush timer on a connection that is ready: flush, and set the timer again.
  unfoldable pub flush_due : Client → Client
  unfolding flush_buffer
  flush_due s =
      let s' = if ltb 0 (length s.buffer) then flush_buffer s else s in
      record s' { timer_on = true }

  -- The case of the flush timer. It is not set again when the connection is not ready.
  unfoldable pub timer_fired : Client → Client
  unfolding flush_due
  timer_fired s = if not s.ready then record s { buffer = []; timer_on = false } else flush_due s

  module _ (lookups : Lookups) (matchers : Matchers) where
    unfoldable pub step : Event → Transforms → Client → Outcome ⊥ (Transforms × Client)
    unfolding append_dm timer_fired
    step (connected started) p s = ok (p, record s { ready = true })
    step (incoming dm) p s =
        if not s.ready
        then ok (p, s)
        else unless_drop append_dm s (process_message lookups matchers p dm)
    step elapsed p s = ok (p, if s.timer_on then timer_fired s else s)
