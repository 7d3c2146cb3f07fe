-- ===== src/Loggers/Sender/DnstapClient.antt =====
-- `FlushBuffer` and the cases of `Run` in loggers/dnstapclient.go.
use go_dns_collector.Base.{
  String, true, not, Option, none, some, [], ◌∷◌, ◌++◌, ltb, leb, if◌then◌else◌, length, Outcome,
  ok, string_key, bytes_key,
}
use go_dns_collector.Message.{DnsMessage}
use go_dns_collector.Transform.Filtering.{Matchers}
use go_dns_collector.Transform.Chain.{Lookups, Transforms}
use go_dns_collector.Transform.Process.{process_message}
use go_dns_collector.Loggers.Worker.{unless_drop}
use go_dns_collector.Loggers.Sender.{Link, Client, Event, connected, incoming, elapsed, send_all}

-- The sender's name in place of the identity, when the configuration says so; `identity` is `none`
-- without `OverwriteIdentity`.
abbrev pub with_identity : Option String → DnsMessage → DnsMessage
with_identity none dm = dm
with_identity (some id) dm = record dm { dns_tap = record dm.dns_tap { identity = id } }

abbrev pub overwriting : Option String → Link → Link
overwriting identity link = record link { encode = λ dm. link.encode (with_identity identity dm) }

module _ (identity : Option String) (link : Link) where
  unfoldable pub flush_frames : Client → Client
  unfolding send_all
  flush_frames s = record (send_all (overwriting identity link) s.buffer s) { buffer = [] }

  -- The end of the case of a message, when the transforms do not drop it.
  unfoldable pub append_frame : DnsMessage → Client → Client
  unfolding flush_frames
  append_frame dm s =
      let s' : Client = record s { buffer = s.buffer ++ dm ∷ [] } in
      if leb link.buffer_size (length s'.buffer) then flush_frames s' else s'

  -- The case of the flush timer.
  unfoldable pub flush_frames_due : Client → Client
  unfolding flush_frames
  flush_frames_due s =
      let s' = if ltb 0 (length s.buffer) then flush_frames s else s in
      record s' { timer_on = true }

  module _ (lookups : Lookups) (matchers : Matchers) where
    unfoldable pub step_frames : Event → Transforms → Client → Outcome ⊥ (Transforms × Client)
    unfolding append_frame flush_frames_due
    step_frames (connected started) p s = ok (p, record s { ready = started })
    step_frames (incoming dm) p s =
        if not s.ready
        then ok (p, s)
        else unless_drop append_frame s (process_message lookups matchers p dm)
    step_frames elapsed p s = ok (p, if s.timer_on then flush_frames_due s else s)
