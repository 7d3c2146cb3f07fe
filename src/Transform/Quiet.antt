-- ===== src/Transform/Quiet.antt =====
-- `NormalizeProcessor.QuietText` and `Lowercase` of transformers/normalize.go.
pub mod Stable
use go_dns_collector.Base.{String, List, [], ◌∷◌, str_eq, if◌then◌else◌}
use go_dns_collector.Message.{DnsMessage}
use go_dns_collector.Transform.Filtering.{to_lower}

abbrev pub Table : Type 0
Table = List (String × String)

unfoldable pub dnstap_message : Table
dnstap_message =
    ("AUTH_QUERY", "AQ")
    ∷ ("AUTH_RESPONSE", "AR")
    ∷ ("RESOLVER_QUERY", "RQ")
    ∷ ("RESOLVER_RESPONSE", "RR")
    ∷ ("CLIENT_QUERY", "CQ")
    ∷ ("CLIENT_RESPONSE", "CR")
    ∷ ("FORWARDER_QUERY", "FQ")
    ∷ ("FORWARDER_RESPONSE", "FR")
    ∷ ("STUB_QUERY", "SQ")
    ∷ ("STUB_RESPONSE", "SR")
    ∷ ("TOOL_QUERY", "TQ")
    ∷ ("TOOL_RESPONSE", "TR")
    ∷ ("UPDATE_QUERY", "UQ")
    ∷ ("UPDATE_RESPONSE", "UR")
    ∷ ("DNSQueryType", "Q")
    ∷ ("DNSResponseType", "R")
    ∷ []

unfoldable pub dns_qr : Table
dns_qr = ("QUERY", "Q") ∷ ("REPLY", "R") ∷ []

unfoldable pub ip_version : Table
ip_version = ("INET6", "6") ∷ ("INET", "4") ∷ []

unfoldable pub rcode_numbers : Table
rcode_numbers =
    ("NOERROR", "0")
    ∷ ("FORMERR", "1")
    ∷ ("SERVFAIL", "2")
    ∷ ("NXDOMAIN", "3")
    ∷ ("NOIMP", "4")
    ∷ ("REFUSED", "5")
    ∷ ("YXDOMAIN", "6")
    ∷ ("YXRRSET", "7")
    ∷ ("NXRRSET", "8")
    ∷ ("NOTAUTH", "9")
    ∷ ("NOTZONE", "10")
    ∷ ("DSOTYPENI", "11")
    ∷ ("BADSIG", "16")
    ∷ ("BADKEY", "17")
    ∷ ("BADTIME", "18")
    ∷ ("BADMODE", "19")
    ∷ ("BADNAME", "20")
    ∷ ("BADALG", "21")
    ∷ ("BADTRUNC", "22")
    ∷ ("BADCOOKIE", "23")
    ∷ []

-- if v, found := m[s]; found { s = v }
unfoldable pub shorten : Table → String → String
shorten [] s = s
shorten ((k, v) ∷ m) s = if str_eq k s then v else shorten m s

unfoldable pub quiet_text : DnsMessage → DnsMessage
quiet_text dm = record dm {
  dns_tap = record (dm.dns_tap) { operation = shorten dnstap_message dm.dns_tap.operation };
  dns = record (dm.dns) {
    type = shorten dns_qr dm.dns.type;
    rcode = shorten rcode_numbers dm.dns.rcode;
  };
  network_info = record (dm.network_info) { family = shorten ip_version dm.network_info.family };
}

-- lowercaseQname, through Lowercase
unfoldable pub lowercase_qname : DnsMessage → DnsMessage
lowercase_qname dm = record dm { dns = record (dm.dns) { qname = to_lower dm.dns.qname } }
