-- ===== src/Collectors/Processor.antt =====
-- What the loops of collectors/dns_processor.go and collectors/dnstap_processor.go do alike: the
-- time stamp, the decoding of the payload, the transforms and the dispatch. `Texts` holds the
-- libraries' texts of times, floats and addresses.
pub mod Total
use go_dns_collector.Base.{
  ℕ, ◌+◌, ◌*◌, String, Option, none, some, List, [], ◌∷◌, ◌++◌, map, ℤ, pos, Bytes, Outcome, ok,
  err, panic, ◌>>=◌,
}
use go_dns_collector.Dns.Error.{DecodeError}
use go_dns_collector.Dns.Header.{DnsHeader, decode_dns}
use go_dns_collector.Dns.Payload.{Failure, mark, decode_payload}
use go_dns_collector.Message.{DnsMessage}
use go_dns_collector.Transform.Filtering.{Matchers}
use go_dns_collector.Transform.Chain.{
  Lookups, Code, return_success, return_drop, return_error, Transforms,
}
use go_dns_collector.Transform.Process.{Result, process_message}

-- `rfc3339` is `time.Unix(sec, nsec).UTC().Format(time.RFC3339Nano)`, `seconds` is `%.6f` of a time in
-- seconds, `ip` is `net.IP(addr).String()`.
pub record Texts : Type 0 where
  pub rfc3339 : ℕ → ℕ → String
  pub seconds : ℤ → String
  pub ip : Bytes → String

-- The libraries that a processor calls.
pub record Libraries : Type 0 where
  pub texts : Texts
  pub lookups : Lookups
  pub matchers : Matchers

-- What a loop keeps of one message: the state, and the message for the loggers, `none` if dropped.
abbrev pub Step : Type 0
Step = Outcome ⊥ (Transforms × Option DnsMessage)

-- dnsHeader, err := DecodeDns(payload): an error leaves the header as it is and marks the message.
abbrev header_or_mark :
    DnsMessage → Outcome (DnsHeader × DecodeError) DnsHeader → Outcome ⊥ (DnsHeader × DnsMessage)
header_or_mark dm (ok h) = ok (h, dm)
header_or_mark dm (err (h, e)) = ok (h, mark dm)
header_or_mark dm (panic c) = panic c

pub decode_header : DnsMessage → Outcome ⊥ (DnsHeader × DnsMessage)
decode_header dm = header_or_mark dm (decode_dns dm.dns.payload)

-- An error of DecodePayload is logged, and the message goes on.
abbrev or_logged : Outcome Failure DnsMessage → Outcome ⊥ DnsMessage
or_logged (ok dm) = ok dm
or_logged (err (dm, e)) = ok dm
or_logged (panic c) = panic c

pub decode_body : DnsHeader → DnsMessage → Outcome ⊥ DnsMessage
decode_body header dm = or_logged (decode_payload dm header)

module _ (lib : Libraries) where
  -- The time stamp, in nanoseconds.
  unfoldable pub stamp : DnsMessage → DnsMessage
  stamp dm = record dm {
    dns_tap = record (dm.dns_tap) {
      timestamp = pos (dm.dns_tap.time_sec * 1000000000 + dm.dns_tap.time_nsec);
      timestamp_rfc3339 = lib.texts.rfc3339 dm.dns_tap.time_sec dm.dns_tap.time_nsec;
    };
  }

  abbrev with_latency_text : DnsMessage → DnsMessage
  with_latency_text dm = record dm {
    dns_tap = record (dm.dns_tap) { latency_sec = lib.texts.seconds dm.dns_tap.latency };
  }

  -- Only a dropped message is not sent.
  abbrev unless_dropped : Transforms → DnsMessage → Code → Option DnsMessage
  unless_dropped p dm return_success = some (with_latency_text dm)
  unless_dropped p dm return_drop = none
  unless_dropped p dm return_error = some (with_latency_text dm)

  abbrev as_step : Result → Step
  as_step (ok (p, dm, code)) = ok (p, unless_dropped p dm code)
  as_step (err e) = err e
  as_step (panic c) = panic c

  pub finish : Transforms → DnsMessage → Step
  finish p dm = as_step (process_message lib.lookups lib.matchers p dm)

-- for i := range sendTo { sendTo[i] <- dm }
pub dispatch : List String → Option DnsMessage → List (String × DnsMessage)
dispatch send_to none = []
dispatch send_to (some dm) = map (λ name. (name, dm)) send_to

module _ {A : Type 0} (handle : Transforms → A → Step) (send_to : List String) where
  -- The loop over what the processor receives.
  unfoldable pub run_loop :
      Transforms → List A → Outcome ⊥ (Transforms × List (String × DnsMessage))
  run_loop p [] = ok (p, [])
  run_loop p (x ∷ xs) = handle p x >>= λ (p', out).
      run_loop p' xs >>= λ (last, more). ok (last, dispatch send_to out ++ more)
