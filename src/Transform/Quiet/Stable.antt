-- ===== src/Transform/Quiet/Stable.antt =====
-- Shortened texts stay as they are.
use go_dns_collector.Base.{
  String, ◌≡◌, refl, ◌⊎◌, inl, inr, Bool, true, ◌&&◌, [], ◌∷◌, arith, str_eq, eq_iff, string_key,
  bytes_key,
}
use go_dns_collector.Message.{DnsMessage}
use go_dns_collector.Transform.Quiet.{
  Table, dnstap_message, dns_qr, ip_version, rcode_numbers, shorten, quiet_text,
}

-- No text that the table `m` writes is shortened by the table `n`.
ends_in : Table → Table → Bool
ends_in [] n = true
ends_in ((k, v) ∷ m) n = str_eq (shorten n v) v && ends_in m n

-- A text is left alone, or written by the table.
shorten-shorten :
    (m n : Table) (s : String)
    → ends_in m n ≡ true
    → (shorten m s ≡ s) ⊎ (shorten n (shorten m s) ≡ shorten m s)
unfolding ends_in shorten
shorten-shorten [] n s h = inl refl
shorten-shorten ((k, v) ∷ m) n s h = ground (arith, shorten-shorten m n s, eq_iff (shorten n v) v)

twice : (m : Table) (s : String) → ends_in m m ≡ true → shorten m (shorten m s) ≡ shorten m s
twice m s h = elim (shorten-shorten m m s h) [ inl same ↦ rw same same | inr done ↦ done ]

tables_end :
    (ends_in dnstap_message dnstap_message ≡ true)
    × (ends_in dns_qr dns_qr ≡ true)
    × (ends_in ip_version ip_version ≡ true)
    × (ends_in rcode_numbers rcode_numbers ≡ true)
unfolding ends_in shorten dnstap_message dns_qr ip_version rcode_numbers
tables_end = (refl, refl, refl, refl)

-- QuietText changes nothing on a message that it has been applied to, whatever the texts of the
-- message: no short form is the long form of another.
pub quiet_text-quiet_text : (dm : DnsMessage) → quiet_text (quiet_text dm) ≡ quiet_text dm
unfolding quiet_text
quiet_text-quiet_text dm = cc (
  twice dnstap_message dm.dns_tap.operation tables_end.0,
  twice dns_qr dm.dns.type tables_end.1,
  twice ip_version dm.network_info.family tables_end.2,
  twice rcode_numbers dm.dns.rcode tables_end.3,
)
