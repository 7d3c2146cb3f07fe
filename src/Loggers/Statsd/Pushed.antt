-- ===== src/Loggers/Statsd/Pushed.antt =====
-- What a statsd server adds up of the lines of loggers/statsd.go.
use go_dns_collector.Base.{ℕ, zero, suc, String, List, [], ◌∷◌, ◌++◌, string_key, bytes_key}
use go_dns_collector.Message.{DnsMessage}
use go_dns_collector.Loggers.Worker.{Event, tick}
use go_dns_collector.Loggers.Statsd.{TopLists, StatsPerStream, Line, record_statsd, push}

-- The streams, and all lines sent so far.
pub record Statsd (Top : Type 0) : Type 0 where
  pub streams : List (String × StatsPerStream Top)
  pub lines : List Line

module _ {Top : Type 0} (top : TopLists Top) where
  abbrev pub keep_statsd : DnsMessage → Statsd Top → Statsd Top
  keep_statsd dm s = record s { streams = record_statsd top dm s.streams }

  -- The case of the timer, when there is a connection.
  abbrev pub pushed : Statsd Top → Statsd Top
  pushed s = record s { lines = s.lines ++ push top s.streams }

  pub ticks : ℕ → List Event
  ticks zero = []
  ticks (suc n) = tick ∷ ticks n

  -- `n` times a list.
  pub times : ℕ → List Line → List Line
  times zero ls = []
  times (suc n) ls = ls ++ times n ls
