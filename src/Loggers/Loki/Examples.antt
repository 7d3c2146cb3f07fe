-- ===== src/Loggers/Loki/Examples.antt =====
-- Runs of the Loki client on concrete messages.
use go_dns_collector.Base.{
  String, true, false, List, [], ◌∷◌, Bytes, codes, Outcome, ok, string_key, bytes_key,
}
use go_dns_collector.Message.{DnsMessage, init}
use go_dns_collector.Message.Text.{Fatal}
use go_dns_collector.Loggers.Worker.{Event, incoming, tick}
use go_dns_collector.Loggers.Loki.{LokiClient, Encoder}

abbrev message : String → Bytes → DnsMessage
message identity name = record init {
  dns = record (init.dns) { qname = name };
  dns_tap = record (init.dns_tap) { identity = identity };
}

-- The name is the line.
abbrev line : DnsMessage → Bytes
line dm = dm.dns.qname

abbrev line_of : DnsMessage → Outcome Fatal Bytes
line_of dm = ok (line dm)

-- A batch is the first line, uncompressed, and an empty one fails.
abbrev encoder : Encoder
encoder = record {
  marshal = λ entries. elim entries [ [] ↦ ([], true) | e ∷ es ↦ (e.line, false) ];
  snappy = λ buf. buf;
}

abbrev events : List Event
events =
    incoming (message "edge" (codes "a.fr"))
    ∷ incoming (message "core" (codes "b.fr"))
    ∷ tick
    ∷ incoming (message "edge" (codes "long.fr"))
    ∷ []

abbrev new_loki : LokiClient
new_loki = record { streams = []; sent = [] }
