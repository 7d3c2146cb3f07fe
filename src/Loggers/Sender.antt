-- ===== src/Loggers/Sender.antt =====
-- The clients of loggers/tcpclient.go, dnstapclient.go and fluentd.go: a buffer of messages that is
-- flushed to a connection when it is full and when a timer fires. What the connection takes is a list
-- in the order of sending.
pub mod TcpClient
pub mod DnstapClient
pub mod Loop
pub mod Flush
pub mod Delivery
pub mod Delivered
pub mod Timer
pub mod Bounded
pub mod FluentdClient
pub mod Again
mod Examples
use go_dns_collector.Base.{
  ℕ, ◌+◌, Bool, true, false, Option, none, some, List, [], ◌∷◌, ◌++◌, Bytes,
}
use go_dns_collector.Message.{DnsMessage}

-- What a message becomes on the wire in the configured mode, `none` when it does not encode: the text
-- of `Bytes` with its delimiter, or what the JSON or protobuf libraries write. A text that cannot be
-- written ends the program, with a log.Fatalf or a panic of Message.Text: the clients are those of
-- messages that can be written. Then what the libraries
-- for connections answer: whether the `n`-th flush to the connection succeeds.
pub record Link : Type 0 where
  pub encode : DnsMessage → Option Bytes
  pub works : ℕ → Bool
  pub buffer_size : ℕ

-- `ready` is `writerReady` or `fsReady`; `timer_on` says that the flush timer was set and has not
-- fired; `flushes` counts the flushes to the connection.
pub record Client : Type 0 where
  pub ready : Bool
  pub buffer : List DnsMessage
  pub timer_on : Bool
  pub flushes : ℕ
  pub sent : List Bytes

-- What a select takes: the news of a connection, on which the protocol starts or not; a message; or the
-- end of the flush interval, which a timer that is off does not tell.
pub data Event : Type 0 where
  connected : Bool → Event
  incoming : DnsMessage → Event
  elapsed : Event

-- At the start of `Run`.
abbrev pub new_client : Client
new_client = record { ready = false; buffer = []; timer_on = true; flushes = 0; sent = [] }

module _ (link : Link) where
  -- The loop over the buffer, with `encode` and a flush for each message: a message that does not encode
  -- is passed over, and a flush that fails ends the loop.
  unfoldable pub send_all : List DnsMessage → Client → Client
  send_all [] s = s
  send_all (dm ∷ dms) s = elim (link.encode dm) [
    | none ↦ send_all dms s
    | some bytes ↦ elim (link.works s.flushes) [
      | true ↦ send_all dms (record s { flushes = s.flushes + 1; sent = s.sent ++ bytes ∷ [] })
      | false ↦ record s { flushes = s.flushes + 1; ready = false }
    ]
  ]
