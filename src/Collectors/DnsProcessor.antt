-- ===== src/Collectors/DnsProcessor.antt =====
-- `DnsProcessor.Run` of collectors/dns_processor.go.
pub mod Directed
use go_dns_collector.Base.{String, List, ◌==◌, if◌then◌else◌, Outcome, ◌>>=◌}
use go_dns_collector.Dns.Header.{DnsHeader}
use go_dns_collector.Message.{DnsMessage, dns_query, dns_reply}
use go_dns_collector.Transform.Chain.{Transforms, init_dns_message_format}
use go_dns_collector.Collectors.Processor.{
  Libraries, Step, decode_header, decode_body, stamp, finish, run_loop,
}

-- "dns reply ?": a reply came from the server, so its ends change places.
unfoldable pub set_direction : DnsHeader → DnsMessage → DnsMessage
set_direction header dm =
    if header.qr == 1
    then record dm {
      dns_tap = record (dm.dns_tap) { operation = "CLIENT_RESPONSE" };
      dns = record (dm.dns) { type = dns_reply };
      network_info = record (dm.network_info) {
        query_ip = dm.network_info.response_ip;
        query_port = dm.network_info.response_port;
        response_ip = dm.network_info.query_ip;
        response_port = dm.network_info.query_port;
      };
    }
    else record dm {
      dns = record (dm.dns) { type = dns_query };
      dns_tap = record (dm.dns_tap) { operation = "CLIENT_QUERY" };
    }

module _ (lib : Libraries) where
  -- The message as it goes to the transforms.
  unfoldable pub received : Transforms → DnsMessage → Outcome ⊥ DnsMessage
  received p dm = do
    (header, dm') ← decode_header (stamp lib (init_dns_message_format p.config dm))
    decode_body header (set_direction header dm')

  unfoldable pub handle_dns : Transforms → DnsMessage → Step
  handle_dns p dm = received p dm >>= finish lib p

  unfoldable pub run_dns :
      List String
      → Transforms
      → List DnsMessage
      → Outcome ⊥ (Transforms × List (String × DnsMessage))
  run_dns send_to p dms = run_loop (handle_dns) send_to p dms
