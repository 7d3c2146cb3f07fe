-- ===== src/Config/Defaults.antt =====
-- What the program does with the default transformers.
use go_dns_collector.Base.{◌≡◌, refl, List, [], ◌∷◌, ok, string_key, bytes_key}
use go_dns_collector.Message.{DnsMessage}
use go_dns_collector.Transform.Filtering.{Matchers, new_filtering, check_if_drop, run_filters}
use go_dns_collector.Transform.Chain.{Lookups, Transforms, return_success, prepare, new_transforms}
use go_dns_collector.Transform.Process.{process_message, apply_all}
use go_dns_collector.Loggers.Worker.{Event, incoming, tick, handle, run_events}
use go_dns_collector.Config.Whole.{default_transformers}

abbrev pub default_chain : Transforms
default_chain = new_transforms default_transformers

process_message-default :
    (lookups : Lookups) (matchers : Matchers) (dm : DnsMessage)
    → process_message lookups matchers default_chain dm ≡ ok (default_chain, dm, return_success)
unfolding process_message apply_all check_if_drop run_filters new_transforms prepare new_filtering
process_message-default lookups matchers dm = refl

module _ {S : Type 0} (keep : DnsMessage → S → S) (timer : S → S) where
  -- Every message kept as it came, and every tick.
  unfoldable pub all_kept : List Event → S → S
  all_kept [] s = s
  all_kept (incoming dm ∷ es) s = all_kept es (keep dm s)
  all_kept (tick ∷ es) s = all_kept es (timer s)

  -- With the default transformers the loop of a logger takes every message into its state as it came,
  -- whatever the message and the libraries, and it does not panic.
  pub run_events-default :
      (lookups : Lookups) (matchers : Matchers) (es : List Event) (s : S)
      → run_events lookups matchers keep timer es default_chain s
        ≡ ok (default_chain, all_kept es s)
  unfolding run_events handle all_kept
  run_events-default lookups matchers [] s = refl
  run_events-default lookups matchers (incoming dm ∷ es) s =
      rw (process_message-default lookups matchers dm)
        (run_events-default lookups matchers es (keep dm s))
  run_events-default lookups matchers (tick ∷ es) s =
      run_events-default lookups matchers es (timer s)
