-- ===== src/Loggers/Loki.antt =====
-- The batches of loggers/lokiclient.go. What a message becomes in the configured mode is a parameter,
-- which may end the program, as the text mode does; protobuf and snappy are parameters, too.
-- `SendEntries` hands an encoded batch to the HTTP client: the batch is then an entry of a list.
pub mod Succeeds
pub mod Delivered
pub mod Batches
mod Examples
use go_dns_collector.Base.{
  ℕ, ◌+◌, String, Bool, List, [], ◌∷◌, ◌++◌, ltb, leb, if◌then◌else◌, length, Bytes, Outcome, ok,
  err, panic, ◌>>=◌, map_err, string_key, bytes_key, value_or, find, adjust,
}
use go_dns_collector.Message.{DnsMessage}
use go_dns_collector.Message.Text.{Fatal}
use go_dns_collector.Loggers.Worker.{Event, incoming, tick}

pub record Entry : Type 0 where
  pub time_sec : ℕ
  pub time_nsec : ℕ
  pub line : Bytes

-- `entries` is `stream.Entries`.
pub record LokiStream : Type 0 where
  pub entries : List Entry
  pub size_entries : ℕ

-- Init, ResetEntries
abbrev pub no_entries : LokiStream
no_entries = record { entries = []; size_entries = 0 }

pub record LokiClient : Type 0 where
  pub streams : List (String × LokiStream)
  pub sent : List (String × List Entry)

-- proto.Marshal, with whether it fails, and snappy.Encode.
pub record Encoder : Type 0 where
  pub marshal : List Entry → Bytes × Bool
  pub snappy : Bytes → Bytes

-- What ends the loop: the program ends while a message is written, or an encoding fails, when the client is
-- left as it is then.
pub data LokiEnd : Type 0 where
  program_ends : Fatal → LokiEnd
  not_encoded : LokiClient → LokiEnd

pub data EncodeError : Type 0 where
  encode_error : EncodeError

-- Encode2Proto prints the error of the library and returns none.
abbrev pub encode2proto : Encoder → List Entry → Outcome EncodeError Bytes
encode2proto lib entries = ok (lib.snappy (lib.marshal entries).0)

abbrev pub entry_of : Bytes → DnsMessage → Entry
entry_of line dm = record {
  time_sec = dm.dns_tap.time_sec;
  time_nsec = dm.dns_tap.time_nsec;
  line = line;
}

abbrev pub add_entry : Bytes → DnsMessage → LokiStream → LokiStream
add_entry line dm s = record {
  entries = s.entries ++ entry_of line dm ∷ [];
  size_entries = s.size_entries + length line;
}

abbrev pub is_full : ℕ → LokiStream → Bool
is_full batch_size s = leb batch_size s.size_entries

-- The stream when the message is in it: a full one is reset, whether it was sent or not.
abbrev pub after_entry : ℕ → Bytes → DnsMessage → LokiStream → LokiStream
after_entry batch_size line dm s =
    if is_full batch_size (add_entry line dm s) then no_entries else add_entry line dm s

-- Both returns of `Encode2Proto`.
abbrev pub or_end : LokiClient → LokiClient → Outcome EncodeError Bytes → Outcome LokiEnd LokiClient
or_end sent reset (ok buf) = ok sent
or_end sent reset (err e) = err (not_encoded reset)
or_end sent reset (panic c) = panic c

-- The case of a message that the transforms do not drop.
unfoldable pub append_entry :
    Encoder
    → (DnsMessage → Outcome Fatal Bytes)
    → ℕ
    → DnsMessage
    → LokiClient
    → Outcome LokiEnd LokiClient
unfolding find adjust
append_entry lib line_of batch_size dm c = map_err program_ends (line_of dm) >>= λ line.
    let id = dm.dns_tap.identity in
    let s = add_entry line dm (value_or no_entries (find id c.streams)) in
    let kept = record c {
      streams = adjust id no_entries (after_entry batch_size line dm) c.streams;
    } in
    if is_full batch_size s
    then or_end (record kept { sent = c.sent ++ (id, s.entries) ∷ [] }) kept
        (encode2proto lib s.entries)
    else ok kept

-- The streams and the batches sent, when all were encoded, or when one was not.
abbrev pub Flush : Type 0
Flush =
    Outcome (List (String × LokiStream) × List (String × List Entry))
      (List (String × LokiStream) × List (String × List Entry))

abbrev before : String × LokiStream → List (String × List Entry) → Flush → Flush
before s b (ok (streams, bs)) = ok (s ∷ streams, b ++ bs)
before s b (err (streams, bs)) = err (s ∷ streams, b ++ bs)
before s b (panic c) = panic c

-- A stream that has entries, and what is done to those after it.
abbrev flush_stream :
    String → LokiStream → List (String × LokiStream) → Flush → Outcome EncodeError Bytes → Flush
flush_stream id s streams rest (ok buf) = before (id, no_entries) ((id, s.entries) ∷ []) rest
flush_stream id s streams rest (err e) = err ((id, no_entries) ∷ streams, [])
flush_stream id s streams rest (panic c) = panic c

unfoldable pub flush_streams : Encoder → List (String × LokiStream) → Flush
flush_streams lib [] = ok ([], [])
flush_streams lib ((id, s) ∷ streams) =
    let rest = flush_streams lib streams in
    if ltb 0 (length s.entries)
    then flush_stream id s streams rest (encode2proto lib s.entries)
    else before (id, s) [] rest

abbrev flushed_client : LokiClient → Flush → Outcome LokiEnd LokiClient
flushed_client c (ok (streams, bs)) = ok (record { streams = streams; sent = c.sent ++ bs })
flushed_client c (err (streams, bs)) =
    err (not_encoded (record { streams = streams; sent = c.sent ++ bs }))
flushed_client c (panic e) = panic e

-- The case of the flush timer.
unfoldable pub flush_entries : Encoder → LokiClient → Outcome LokiEnd LokiClient
unfolding flush_streams
flush_entries lib c = flushed_client c (flush_streams lib c.streams)

-- The loop of Run, for messages that the transforms do not drop.
unfoldable pub run_loki :
    Encoder
    → (DnsMessage → Outcome Fatal Bytes)
    → ℕ
    → List Event
    → LokiClient
    → Outcome LokiEnd LokiClient
unfolding append_entry flush_entries
run_loki lib line_of batch_size [] c = ok c
run_loki lib line_of batch_size (incoming dm ∷ es) c =
    append_entry lib line_of batch_size dm c >>= λ c'. run_loki lib line_of batch_size es c'
run_loki lib line_of batch_size (tick ∷ es) c =
    flush_entries lib c >>= λ c'. run_loki lib line_of batch_size es c'
