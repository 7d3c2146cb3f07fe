-- ===== src/Transform/Examples.antt =====
-- Runs of the transformers on concrete messages.
use go_dns_collector.Base.{
  ℕ, ◌+◌, ◌*◌, ◌<◌, String, ◌≡◌, refl, true, false, [], ◌∷◌, arith, if◌then◌else◌, ℤ, pos, length,
  Bytes, codes, bytes_eq, Ensures, string_key, bytes_key,
}
use go_dns_collector.Message.{DnsMessage, init, dns_query, dns_reply}
use go_dns_collector.Transform.Samples.{matchers, lookups, config, all_on}
use go_dns_collector.Transform.Filtering.{
  has_string, has_bytes, load_lines, to_lower, matches_any, check_if_drop,
}
use go_dns_collector.Transform.Filtering.Decides.{
  keeps_only, at_count, unwanted, skipped, counted, check_if_drop-unwanted,
}
use go_dns_collector.Transform.Filtering.Downsample.{pass, pass-AllWanted}
use go_dns_collector.Transform.Latency.{remove, diff, query_key, is_tracked}
use go_dns_collector.Transform.Latency.Pairs.{measure_all, with_latency, measure_latency-pair}
use go_dns_collector.Transform.Chain.{new_transforms, init_dns_message_format}
use go_dns_collector.Transform.Process.{process_message}
use go_dns_collector.Transform.Process.Ready.{StaysPrepared}
use go_dns_collector.Transform.Process.Safe.{process_message-Prepared, new_transforms-Prepared}

abbrev message : String → ℤ → Bytes → DnsMessage
message type at name = record init {
  network_info = record (init.network_info) { query_ip = "10.1.2.3"; query_port = "5300" };
  dns = record (init.dns) { type = type; id = 7; qname = name };
  dns_tap = record (init.dns_tap) { timestamp = at };
}

abbrev query : DnsMessage
query = message dns_query (pos 1000) (codes "nic.fr")

abbrev answer : DnsMessage
answer = message dns_reply (pos 1800) (codes "nic.fr")

-- Another answer, later and from a server that sets other fields.
abbrev answer_again : DnsMessage
answer_again = message dns_reply (pos 2000) (codes "nic.fr")

check_if_drop-unwanted_example : check_if_drop matchers (at_count config 1) query ≡ (
    if unwanted matchers config query
    then (at_count config 1, true)
    else (at_count config (counted config 1), skipped config 1))
check_if_drop-unwanted_example = check_if_drop-unwanted matchers config 1 query

query_wanted : unwanted matchers config query ≡ false
unfolding unwanted has_string has_bytes load_lines to_lower matches_any keeps_only bytes_eq
query_wanted = refl

pass-AllWanted_example :
    (k' : ℕ) × ((pass matchers (at_count config 0) (query ∷ query ∷ query ∷ query ∷ [])).0
      ≡ at_count config k')
    × (k' < 3)
    × (length (pass matchers (at_count config 0) (query ∷ query ∷ query ∷ query ∷ [])).1 * 3 + k'
        ≡ 4)
pass-AllWanted_example =
    pass-AllWanted matchers config (omega arith) (query ∷ query ∷ query ∷ query ∷ []) 0
      (omega arith) (query_wanted, (query_wanted, (query_wanted, (query_wanted, tt))))

is_tracked_example :
    (is_tracked query ≡ true) × ((is_tracked answer ≡ true) × (is_tracked answer_again ≡ true))
unfolding is_tracked
is_tracked_example = (refl, (refl, refl))

same_key : (query_key answer ≡ query_key query) × (query_key answer_again ≡ query_key query)
unfolding query_key
same_key = (refl, refl)

measure_latency-pair_example : measure_all [] (query ∷ answer ∷ answer_again ∷ []) ≡ (
  remove (query_key query) [],
  query ∷ with_latency answer (diff (pos 1800) (pos 1000)) ∷ answer_again ∷ [],
)
measure_latency-pair_example =
    measure_latency-pair [] query answer answer_again is_tracked_example.0 is_tracked_example.1.0
      is_tracked_example.1.1 refl refl refl same_key.0 same_key.1

process_message-Prepared_example :
    Ensures StaysPrepared
      (λ e. ⊥)
      (process_message lookups matchers
        (new_transforms all_on)
        (init_dns_message_format (new_transforms all_on).config query))
process_message-Prepared_example =
    process_message-Prepared lookups matchers (new_transforms all_on) query
      (new_transforms-Prepared all_on)
