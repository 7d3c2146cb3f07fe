-- ===== src/Lib.antt =====
-- Verification of DNS-collector: the decoders, the transformers, TCP streams and IP fragments, the
-- loops of the collectors, eight of the loggers, the configuration, and the start-up.
--
-- The program collects DNS packets (collectors/), decodes them into messages (dnsutils/), transforms
-- and filters the messages (transformers/) and passes them to outputs (loggers/).
--
-- Files.
-- - Base: numbers, lists, Go strings as bytes, and `Outcome`, what a Go function does: `ok`, `err`
--   for a returned error (with the other results that the function returns beside it), `panic`.
--   Every index and slice expression is a read that panics out of range. Go bounds a slice of a
--   slice by the capacity; the model bounds it by the length, so it panics wherever Go may.
-- - Message: the records of dnsutils/message.go. Times are nanoseconds where Go has float64 seconds.
--   Message.Text is the text format, `Bytes`, with its Strings. Writable and
--   Joined say when a message has a text, Directives what each name in the format stands for.
-- - Dns: dnsutils/dns.go and dnsutils/edns.go. Labels is `ParseLabels`, Header `DecodeDns`, Rdata the
--   record parsers, Question, Answer and Edns the section decoders, Payload `DecodePayload`. Names
--   holds the tables, Address the texts of `net.IP.String`. Child modules prove: Bounds and Total that
--   nothing panics and where offsets may stand, RoundTrip that encoders are inverted, Marks how
--   `DecodePayload` labels update messages.
-- - Transform: transformers/. Config is `ConfigTransformers`, Filtering filtering.go, Suspicious
--   suspicious.go, Quiet the short texts of normalize.go, Latency the two maps of latency.go and
--   their timers, Chain and Process subprocessors.go: the list of transforms, the fields that they
--   need, and what each does. Filtering, Latency and the others keep their state in a record or a
--   list that every operation takes and returns; Process passes it from message to message.
-- - Net: netlib/. Tcp is the stream of tcpassembly.go, which takes segments in order and sends
--   packets; Defrag is `insert` and `build` of ipdefrag.go, on the header fields of a packet. Flows is
--   `DefragIP` with its checks and its map of flows, Flows.Defragger the loops `IpDefragger` and
--   `UdpProcessor` of packetproccesor.go; Isolated, Whole, Datagrams and Checks prove what they do.
-- - Collectors: collectors/. Processor is what the loops of the processors share: time stamp, decoding,
--   transforms, dispatch. DnsProcessor, Dnstap and Pdns are `Run` of dns_processor.go,
--   dnstap_processor.go and powerdns_processor.go; what a loop sends is a list of pairs of a
--   logger's name and a message.
-- - Loggers: loggers/. RestApi is the state and `RecordDnsMessage` of restapi.go, Handlers its requests
--   and routes, Counts, Step, Tables and Search what the answers say of the messages recorded.
--   Prometheus is `Record` and `ComputeEps` of prometheus.go, Family what `Record` does alike for
--   requesters, domains and the other tables of names, Metrics `InitProm`. Worker is the loop
--   of `Run` that both have; a message and a tick of the timer are its events. Statsd is
--   `RecordDnsMessage` of statsd.go and what its timer sends. Sender has the clients of tcpclient.go,
--   dnstapclient.go and fluentd.go with their buffer, flush timer and connection; Delivery and
--   Delivered relate the first two to the list of the messages that the transforms keep. Loki has the
--   batches of lokiclient.go; its Succeeds is what the steps do while each message can be written.
--   LogFile is logfile.go: writes to the open file, rotation and `Cleanup`, on a directory that is a
--   list of files.
-- - Config: dnsutils/config.go and constants.go. Global, Collectors, Streams and Loggers have a record
--   for each section with what `SetDefault` sets, Whole the configuration and how it is read,
--   Defaults what the loggers do with the default transformers.
-- - Multiplexer: main of dnscollector.go, from the loaded configuration to the loggers of each collector,
--   with its panics; what YAML makes of a worker's sections is part of the configuration. Loads
--   says which workers are made, Routes and StartUp who sends to whom.
--
-- Libraries are parameters: `Matchers` for regular expressions and address sets, `Lookups` for the
-- public suffix list, address masks, SHA-1 and the GeoIP database, `Texts` for texts of times and
-- addresses, `Formats` for what the text format calls, `Protobuf` and `Pb` for generated code,
-- `TopMap` and `TopLists` for top lists, `Link` for encoders and connections, `Encoder` for protobuf and
-- snappy, `decode` for gopacket and for YAML. Nothing is assumed of them, but that flushes do not fail in
-- the theorems on `Link`, that messages can be written in that on Loki, and that YAML decodes each worker
-- in that on the start-up. A Go map is an association list (Base.Dict), whose keys are an instance of
-- `Key`.
--
-- Loops. The label loop of `ParseLabels` runs on fuel, one more than the offset and the packet's
-- length; the option loop of `DecodeEDNS` on one more than the record's data. Fuel that ran out would
-- be a panic, so the theorems that exclude panics prove that it does not.
--
-- Not modelled: sockets and dialling, channels between goroutines, protobuf, gopacket, YAML, HTTP
-- servers, and the outputs that only format and send; failures of the operating system on files; logging
-- calls; the text of errors; the exits of the constructors of workers; and, in the clients of Sender, the
-- end of the program on a text that cannot be written, which Message.Text has.
pub mod Base
pub mod Message
pub mod Dns
pub mod Transform
pub mod Config
pub mod Net
pub mod Collectors
pub mod Loggers
pub mod Multiplexer
