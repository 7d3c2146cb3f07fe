-- ===== src/Transform/Filtering/Case.antt =====
-- The lists of names hold lower-case lines, and the name of a message is compared as it came.
use go_dns_collector.Base.{
  ℕ, ◌≡◌, refl, ap, inl, inr, Bool, true, false, not, ◌&&◌, ◌||◌, List, [], ◌∷◌, map, arith, leb,
  Bool-cases, Bytes, bytes_eq, bytes_eq_iff, string_key, bytes_key,
}
use go_dns_collector.Message.{DnsMessage}
use go_dns_collector.Transform.Config.{ListFile, unset, unreadable, lines, FilteringConfig}
use go_dns_collector.Transform.Filtering.{
  Matchers, to_lower, load_lines, load_lists, new_filtering, has_bytes, drop_fqdn, keep_fqdn,
  apply_filter,
}
use go_dns_collector.Transform.Filtering.Decides.{at_count}

-- Some byte is an upper-case letter.
abbrev pub has_upper : Bytes → Bool
has_upper [] = false
has_upper (c ∷ cs) = (leb b'A' c && leb c b'Z') || has_upper cs

has_upper-to_lower : (s : Bytes) → has_upper (to_lower s) ≡ false
unfolding to_lower
has_upper-to_lower [] = refl
has_upper-to_lower (c ∷ cs) = ground (arith, has_upper-to_lower cs)

not_lowered : (s q : Bytes) → has_upper q ≡ true → bytes_eq (to_lower s) q ≡ false
not_lowered s q h = elim (Bool-cases (bytes_eq (to_lower s) q)) [
  | inl same ↦
      let e : to_lower s ≡ q = (bytes_eq_iff (to_lower s) q).0 same in
      cc (ap has_upper e, has_upper-to_lower s)
  | inr other ↦ other
]

has_bytes-to_lower :
    (l : List Bytes) (q : Bytes) → has_upper q ≡ true → has_bytes (map to_lower l) q ≡ false
unfolding has_bytes
has_bytes-to_lower [] q h = refl
has_bytes-to_lower (s ∷ l) q h = rw (not_lowered s q h) (has_bytes-to_lower l q h)

has_bytes-load_lines :
    (f : ListFile) (q : Bytes) → has_upper q ≡ true → has_bytes (load_lines f) q ≡ false
unfolding load_lines has_bytes
has_bytes-load_lines unset q h = refl
has_bytes-load_lines unreadable q h = refl
has_bytes-load_lines (lines l) q h = has_bytes-to_lower l q h

-- A name with an upper-case letter passes the filter of dropped names and fails the filter of kept
-- names, whatever the two files list.
pub apply_filter-has_upper :
    (lib : Matchers) (c : FilteringConfig) (k : ℕ) (dm : DnsMessage)
    → has_upper dm.dns.qname ≡ true
    → ((apply_filter lib drop_fqdn (at_count c k) dm).1 ≡ false)
      × ((apply_filter lib keep_fqdn (at_count c k) dm).1 ≡ true)
unfolding apply_filter new_filtering load_lists
apply_filter-has_upper lib c k dm h = (
  has_bytes-load_lines c.drop_fqdn_file dm.dns.qname h,
  ap not (has_bytes-load_lines c.keep_fqdn_file dm.dns.qname h),
)
