-- ===== src/Dns/Names.antt =====
-- The tables of names of dnsutils/dns.go and dnsutils/edns.go, and their look-ups.
use go_dns_collector.Base.{
  ℕ, String, ◌≡◌, refl, Option, none, some, List, [], ◌∷◌, ◌==◌, if◌then◌else◌, string_key,
  bytes_key,
}

unfoldable pub rdatatypes : List (ℕ × String)
rdatatypes =
    (0, "NONE")
    ∷ (1, "A")
    ∷ (2, "NS")
    ∷ (3, "MD")
    ∷ (4, "MF")
    ∷ (5, "CNAME")
    ∷ (6, "SOA")
    ∷ (7, "MB")
    ∷ (8, "MG")
    ∷ (9, "MR")
    ∷ (10, "NULL")
    ∷ (11, "WKS")
    ∷ (12, "PTR")
    ∷ (13, "HINFO")
    ∷ (14, "MINFO")
    ∷ (15, "MX")
    ∷ (16, "TXT")
    ∷ (17, "RP")
    ∷ (18, "AFSDB")
    ∷ (19, "X25")
    ∷ (20, "ISDN")
    ∷ (21, "RT")
    ∷ (22, "NSAP")
    ∷ (23, "NSAP_PTR")
    ∷ (24, "SIG")
    ∷ (25, "KEY")
    ∷ (26, "PX")
    ∷ (27, "GPOS")
    ∷ (28, "AAAA")
    ∷ (29, "LOC")
    ∷ (30, "NXT")
    ∷ (33, "SRV")
    ∷ (35, "NAPTR")
    ∷ (36, "KX")
    ∷ (37, "CERT")
    ∷ (38, "A6")
    ∷ (39, "DNAME")
    ∷ (41, "OPT")
    ∷ (42, "APL")
    ∷ (43, "DS")
    ∷ (44, "SSHFP")
    ∷ (45, "IPSECKEY")
    ∷ (46, "RRSIG")
    ∷ (47, "NSEC")
    ∷ (48, "DNSKEY")
    ∷ (49, "DHCID")
    ∷ (50, "NSEC3")
    ∷ (51, "NSEC3PARAM")
    ∷ (52, "TSLA")
    ∷ (53, "SMIMEA")
    ∷ (55, "HIP")
    ∷ (56, "NINFO")
    ∷ (59, "CDS")
    ∷ (60, "CDNSKEY")
    ∷ (61, "OPENPGPKEY")
    ∷ (62, "CSYNC")
    ∷ (64, "SVCB")
    ∷ (65, "HTTPS")
    ∷ (99, "SPF")
    ∷ (103, "UNSPEC")
    ∷ (108, "EUI48")
    ∷ (109, "EUI64")
    ∷ (249, "TKEY")
    ∷ (250, "TSIG")
    ∷ (251, "IXFR")
    ∷ (252, "AXFR")
    ∷ (253, "MAILB")
    ∷ (254, "MAILA")
    ∷ (255, "ANY")
    ∷ (256, "URI")
    ∷ (257, "CAA")
    ∷ (258, "AVC")
    ∷ (259, "AMTRELAY")
    ∷ (32768, "TA")
    ∷ (32769, "DLV")
    ∷ []

unfoldable pub rcodes : List (ℕ × String)
rcodes =
    (0, "NOERROR")
    ∷ (1, "FORMERR")
    ∷ (2, "SERVFAIL")
    ∷ (3, "NXDOMAIN")
    ∷ (4, "NOIMP")
    ∷ (5, "REFUSED")
    ∷ (6, "YXDOMAIN")
    ∷ (7, "YXRRSET")
    ∷ (8, "NXRRSET")
    ∷ (9, "NOTAUTH")
    ∷ (10, "NOTZONE")
    ∷ (11, "DSOTYPENI")
    ∷ (16, "BADSIG")
    ∷ (17, "BADKEY")
    ∷ (18, "BADTIME")
    ∷ (19, "BADMODE")
    ∷ (20, "BADNAME")
    ∷ (21, "BADALG")
    ∷ (22, "BADTRUNC")
    ∷ (23, "BADCOOKIE")
    ∷ []

unfoldable pub opt_codes : List (ℕ × String)
opt_codes =
    (3, "NSID")
    ∷ (8, "CSUBNET")
    ∷ (9, "EXPIRE")
    ∷ (10, "COOKIE")
    ∷ (11, "KEEPALIVE")
    ∷ (12, "PADDING")
    ∷ (15, "ERRORS")
    ∷ []

unfoldable pub error_codes : List (ℕ × String)
error_codes =
    (0, "Other")
    ∷ (1, "Unsupported DNSKEY Algorithm")
    ∷ (2, "Unsupported DS Digest Type")
    ∷ (3, "Stale Answer")
    ∷ (4, "Forged Answer")
    ∷ (5, "DNSSEC Indeterminate")
    ∷ (6, "DNSSEC Bogus")
    ∷ (7, "Signature Expired")
    ∷ (8, "Signature Not Yet Valid")
    ∷ (9, "DNSKEY Missing")
    ∷ (10, "RRSIGs Missing")
    ∷ (11, "No Zone Key Bit Set")
    ∷ (12, "NSEC Missing")
    ∷ (13, "Cached Error")
    ∷ (14, "Not Ready")
    ∷ (15, "Blocked")
    ∷ (16, "Censored")
    ∷ (17, "Filtered")
    ∷ (18, "Prohibited")
    ∷ (19, "Stale NXDOMAIN Answer")
    ∷ (20, "Not Authoritative")
    ∷ (21, "Not Supported")
    ∷ (22, "No Reachable Authority")
    ∷ (23, "Network Error")
    ∷ (24, "Invalid Data")
    ∷ []

-- m[k] with its second result
unfoldable pub lookup_int : ℕ → List (ℕ × String) → Option String
lookup_int k [] = none
lookup_int k ((j, v) ∷ m) = if j == k then some v else lookup_int k m

abbrev name_or_unknown : Option String → String
name_or_unknown none = "UNKNOWN"
name_or_unknown (some v) = v

unfoldable pub rdatatype_to_string : ℕ → String
unfolding lookup_int rdatatypes
rdatatype_to_string rrtype = name_or_unknown (lookup_int rrtype rdatatypes)

unfoldable pub rcode_to_string : ℕ → String
unfolding lookup_int rcodes
rcode_to_string rcode = name_or_unknown (lookup_int rcode rcodes)

unfoldable pub opt_code_to_string : ℕ → String
unfolding lookup_int opt_codes
opt_code_to_string code = name_or_unknown (lookup_int code opt_codes)

names_of_types :
    (rdatatype_to_string 28 ≡ "AAAA")
    × (rdatatype_to_string 31 ≡ "UNKNOWN")
    × (rcode_to_string 3 ≡ "NXDOMAIN")
    × (opt_code_to_string 8 ≡ "CSUBNET")
unfolding rdatatype_to_string rcode_to_string opt_code_to_string
names_of_types = (refl, refl, refl, refl)
