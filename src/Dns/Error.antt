-- ===== src/Dns/Error.antt =====
-- The error values of dnsutils/dns.go and dnsutils/edns.go.
pub data DecodeError : Type 0 where
  header_too_short label_too_long label_invalid_data label_invalid_offset : DecodeError
  label_invalid_pointer label_too_short question_qtype_too_short : DecodeError
  answer_too_short answer_rdata_too_short : DecodeError
  edns_bad_root_domain edns_data_too_short edns_option_too_short : DecodeError
  edns_csubnet_bad_family edns_too_many_opts : DecodeError
