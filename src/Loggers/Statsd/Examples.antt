-- ===== src/Loggers/Statsd/Examples.antt =====
-- Runs of the statsd client on concrete messages.
use go_dns_collector.Base.{ℕ, String, List, [], ◌∷◌, string_key, bytes_key}
use go_dns_collector.Message.{DnsMessage, init}
use go_dns_collector.Loggers.Statsd.{TopLists, StatsPerStream}
use go_dns_collector.Loggers.Statsd.Exact.{
  only, record_streams, stats_of, StreamCounts, record_streams-StreamCounts,
}
use go_dns_collector.Loggers.Statsd.Pushed.{Statsd}

-- A top list that keeps all that it is given.
abbrev top : TopLists (List (String × ℕ))
top = record { new_top_map = λ n. []; put = λ name n t. (name, n) ∷ t; get = λ t. t }

abbrev message : String → String → DnsMessage
message identity ip = record init {
  network_info = record (init.network_info) { query_ip = ip };
  dns_tap = record (init.dns_tap) { identity = identity };
}

abbrev history : List DnsMessage
history = message "edge" "192.0.2.1" ∷ message "core" "192.0.2.1" ∷ message "edge" "192.0.2.2" ∷ []

record_streams-StreamCounts_example :
    StreamCounts (only "edge" history) (stats_of top "edge" (record_streams top history []))
record_streams-StreamCounts_example = record_streams-StreamCounts top "edge" history

abbrev recorded : Statsd (List (String × ℕ))
recorded = record { streams = record_streams top history []; lines = [] }

-- The values of the stream of the first and the last message.
abbrev edge : StatsPerStream (List (String × ℕ))
edge = stats_of top "edge" (record_streams top history [])
