-- ===== src/Config/Constants.antt =====
-- The constants of dnsutils/constants.go that the configuration uses, and what dnsutils/config.go and
-- loggers/logfile.go take for valid.
use go_dns_collector.Base.{String, Bool, false, ◌||◌, List, [], ◌∷◌, str_eq, string_key, bytes_key}

abbrev pub prog_name : String
prog_name = "dnscollector"

abbrev pub localhost_ip : String
localhost_ip = "127.0.0.1"

abbrev pub any_ip : String
any_ip = "0.0.0.0"

abbrev pub mode_text : String
mode_text = "text"

abbrev pub mode_json : String
mode_json = "json"

abbrev pub mode_flatjson : String
mode_flatjson = "flat-json"

abbrev pub mode_pcap : String
mode_pcap = "pcap"

abbrev pub mode_dnstap : String
mode_dnstap = "dnstap"

abbrev pub tls_v12 : String
tls_v12 = "1.2"

abbrev among : List String → String → Bool
among [] s = false
among (t ∷ ts) s = str_eq s t || among ts s

-- The `IsValidMode` of the log files, which has the modes of syslog and two more.
abbrev pub is_valid_mode : String → Bool
is_valid_mode mode =
    among (mode_text ∷ mode_json ∷ mode_flatjson ∷ mode_pcap ∷ mode_dnstap ∷ []) mode

-- The `IsValidMode` of config.go, which syslog uses.
abbrev pub is_valid_syslog_mode : String → Bool
is_valid_syslog_mode mode = among (mode_text ∷ mode_json ∷ mode_flatjson ∷ []) mode

abbrev pub is_valid_tls : String → Bool
is_valid_tls mode = among ("1.0" ∷ "1.1" ∷ tls_v12 ∷ "1.3" ∷ []) mode
