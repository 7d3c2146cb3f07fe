-- ===== src/Loggers/Loki/Batches.antt =====
-- The loop of loggers/lokiclient.go: no entry is lost or sent twice, and what waits is small.
use go_dns_collector.Base.{
  ℕ, ◌<◌, String, ◌≡◌, List, [], ◌∷◌, ◌++◌, Bytes, Outcome, ok, string_key, bytes_key,
}
use go_dns_collector.Message.{DnsMessage}
use go_dns_collector.Loggers.Worker.{Event, incoming, tick}
use go_dns_collector.Loggers.Loki.{Entry, LokiStream, Encoder}
use go_dns_collector.Message.Text.{Fatal}
use go_dns_collector.Loggers.Loki.Delivered.{lines_size, entry_if}

module _ (line : DnsMessage → Bytes) (batch_size : ℕ) where
  -- The entries of the messages of a stream.
  pub all_entries : String → List Event → List Entry
  all_entries id [] = []
  all_entries id (incoming dm ∷ es) = entry_if line batch_size id dm ++ all_entries id es
  all_entries id (tick ∷ es) = all_entries id es

module _ (line : DnsMessage → Bytes) (batch_size : ℕ) (some_size : 0 < batch_size) where
  abbrev IsSized : LokiStream → Type 0
  IsSized s = (s.size_entries ≡ lines_size s.entries) × (lines_size s.entries < batch_size)

  module _ (lib : Encoder) (line_of : DnsMessage → Outcome Fatal Bytes) where
    -- Each message can be written.
    abbrev pub AllWritten : List Event → Type 0
    AllWritten [] = Unit
    AllWritten (incoming dm ∷ es) = (line_of dm ≡ ok (line dm)) × AllWritten es
    AllWritten (tick ∷ es) = AllWritten es
