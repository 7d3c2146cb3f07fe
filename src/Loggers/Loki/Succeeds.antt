-- ===== src/Loggers/Loki/Succeeds.antt =====
-- The steps of loggers/lokiclient.go when each message can be written: no encoding fails.
use go_dns_collector.Base.{
  ℕ, String, ◌≡◌, refl, inl, inr, List, [], ◌∷◌, ◌++◌, ltb, if◌then◌else◌, Bool-cases, length,
  Bytes, Outcome, ok, string_key, bytes_key, value_or, find, adjust,
}
use go_dns_collector.Message.{DnsMessage}
use go_dns_collector.Message.Text.{Fatal}
use go_dns_collector.Loggers.Loki.{
  Entry, LokiStream, LokiClient, Encoder, no_entries, add_entry, is_full, after_entry, append_entry,
  flush_streams, flush_entries,
}

-- The client behind the message.
unfoldable pub appended : (DnsMessage → Bytes) → ℕ → DnsMessage → LokiClient → LokiClient
unfolding find adjust
appended line batch_size dm c =
    let id = dm.dns_tap.identity in
    let s = add_entry (line dm) dm (value_or no_entries (find id c.streams)) in
    record {
      streams = adjust id no_entries (after_entry batch_size (line dm) dm) c.streams;
      sent = if is_full batch_size s then c.sent ++ (id, s.entries) ∷ [] else c.sent;
    }

unfoldable pub batches : List (String × LokiStream) → List (String × List Entry)
batches [] = []
batches ((id, s) ∷ streams) =
    let rest = batches streams in if ltb 0 (length s.entries) then (id, s.entries) ∷ rest else rest

unfoldable pub reset_all : List (String × LokiStream) → List (String × LokiStream)
reset_all [] = []
reset_all ((id, s) ∷ streams) =
    (id, if ltb 0 (length s.entries) then no_entries else s) ∷ reset_all streams

unfoldable pub flushed : LokiClient → LokiClient
unfolding batches reset_all
flushed c = record { streams = reset_all c.streams; sent = c.sent ++ batches c.streams }

pub append_entry-appended :
    (lib : Encoder) (line_of : DnsMessage → Outcome Fatal Bytes) (line : DnsMessage → Bytes)
    (batch_size : ℕ) (dm : DnsMessage) (c : LokiClient)
    → line_of dm ≡ ok (line dm)
    → append_entry lib line_of batch_size dm c ≡ ok (appended line batch_size dm c)
unfolding append_entry appended
append_entry-appended lib line_of line batch_size dm c h =
    rw h
      (elim (Bool-cases (
        is_full batch_size
          (add_entry (line dm) dm (value_or no_entries (find dm.dns_tap.identity c.streams))))) [
            | inl e ↦ rw e refl
            | inr e ↦ rw e refl
          ])

flush_streams_lem :
    (lib : Encoder) (m : List (String × LokiStream))
    → flush_streams lib m ≡ ok (reset_all m, batches m)
unfolding flush_streams reset_all batches
flush_streams_lem lib [] = refl
flush_streams_lem lib ((id, s) ∷ m) = elim (Bool-cases (ltb 0 (length s.entries))) [
  | inl e ↦ rw e (rw (flush_streams_lem lib m) refl)
  | inr e ↦ rw e (rw (flush_streams_lem lib m) refl)
]

pub flush_entries-flushed : (lib : Encoder) (c : LokiClient) → flush_entries lib c ≡ ok (flushed c)
unfolding flush_entries flushed
flush_entries-flushed lib c = rw (flush_streams_lem lib c.streams) refl
