-- ===== src/Dns/Payload/Marks.antt =====
-- How `DecodePayload` labels update messages.
use go_dns_collector.Base.{
  ◌≡◌, ◌∙◌, false, arith, Outcome, ok, err, panic, Ensures, string_key, bytes_key,
}
use go_dns_collector.Dns.Header.{DnsHeader}
use go_dns_collector.Message.{DnsMessage}
use go_dns_collector.Dns.Payload.{Failure, set_operation, set_header, with_header, decode_payload}
use go_dns_collector.Dns.Payload.Total.{Keeps, Marks, decode_payload-total}

-- The message that a call leaves, failing or not.
abbrev left_by : DnsMessage → Outcome Failure DnsMessage → DnsMessage
left_by dm (ok b) = b
left_by dm (err (b, e)) = b
left_by dm (panic c) = dm

module _ (header : DnsHeader) (dm : DnsMessage) where
  with_header-operation :
      header.opcode ≡ 5 → header.qr ≡ 1 → (with_header header dm).dns_tap.operation ≡ "UPDATE_QUERY"
  unfolding with_header set_header set_operation
  with_header-operation five reply = ground arith

update_of :
    (header : DnsHeader) (dm : DnsMessage) (r : Outcome Failure DnsMessage)
    → header.opcode ≡ 5
    → header.qr ≡ 1
    → Ensures (Keeps (with_header header dm)) (Marks (with_header header dm)) r
    → (left_by dm r).dns_tap.operation ≡ "UPDATE_QUERY"
update_of header dm (ok b) five reply k = k.operation ∙ with_header-operation header dm five reply
update_of header dm (err (b, e)) five reply k =
    k.operation ∙ with_header-operation header dm five reply
update_of header dm (panic c) five reply k = absurd k

-- Every DNS UPDATE message with the QR bit set, which is a response (RFC 1035, section 4.1.1), is
-- labelled UPDATE_QUERY, whether or not the rest of its packet can be decoded.
decode_payload_update_reply :
    (header : DnsHeader) (dm : DnsMessage)
    → dm.dns.malformed_packet ≡ false
    → header.opcode ≡ 5
    → header.qr ≡ 1
    → (left_by dm (decode_payload dm header)).dns_tap.operation ≡ "UPDATE_QUERY"
decode_payload_update_reply header dm fresh five reply =
    update_of header dm (decode_payload dm header) five reply (decode_payload-total dm header fresh)
