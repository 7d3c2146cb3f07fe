-- ===== src/Loggers/Examples.antt =====
-- Runs of the loggers on concrete messages.
use go_dns_collector.Base.{
  ℕ, ◌+◌, ◌^◌, ◌<◌, String, ◌≡◌, refl, true, false, ◌&&◌, some, List, [], ◌∷◌, arith, str_eq, ltb,
  if◌then◌else◌, Bytes, codes, nil_pointer, panic, Ensures, string_key, bytes_key, find, adjust,
  hits_of,
}
use go_dns_collector.Transform.Filtering.{new_filtering, check_if_drop, run_filters}
use go_dns_collector.Loggers.Prometheus.Eps.{record_messages, compute_eps-rate}
use go_dns_collector.Loggers.Prometheus.Shown.{record_message-unseen}
use go_dns_collector.Message.{DnsMessage, init}
use go_dns_collector.Transform.Config.{unset, ConfigTransformers}
use go_dns_collector.Transform.Samples.{matchers, lookups, all_on}
use go_dns_collector.Transform.Chain.{Transforms, effective_tld, prepare, new_transforms}
use go_dns_collector.Transform.Process.Safe.{new_transforms-Prepared}
use go_dns_collector.Loggers.Top.{TopMap}
use go_dns_collector.Loggers.Worker.{incoming, tick, run_events}
use go_dns_collector.Loggers.Worker.Loops.{AllSuited, KeptBy, run_events-nil}
use go_dns_collector.Loggers.RestApi.{new_rest_api, record_all}
use go_dns_collector.Loggers.RestApi.Handlers.{Credentials, Request, basic_auth, get_search}
use go_dns_collector.Loggers.RestApi.Counts.{count, from_stream}
use go_dns_collector.Loggers.RestApi.Tables.{Tables, record_all-Tables}
use go_dns_collector.Loggers.RestApi.Search.{answer, get_search-answer}
use go_dns_collector.Loggers.Family.{names_of}
use go_dns_collector.Loggers.Prometheus.{
  EpsCounters, Prometheus, new_prometheus, record_message, compute_eps,
}
use go_dns_collector.Loggers.Prometheus.Exact.{AllExact, run_events-AllExact}

-- A top list that keeps all that it is given.
abbrev top : TopMap (List (Bytes × ℕ))
top = record { new_top_map = λ n. []; put = λ name n t. (name, n) ∷ t; get = λ t. t }

abbrev message : String → Bytes → DnsMessage
message ip name = record init {
  network_info = record (init.network_info) { query_ip = ip };
  dns = record (init.dns) { qname = name; rcode = "NXDOMAIN" };
  dns_tap = record (init.dns_tap) { identity = "edge" };
}

abbrev history : List DnsMessage
history =
    message "192.0.2.1" (codes "nic.fr")
    ∷ message "192.0.2.2" (codes "nic.fr")
    ∷ message "192.0.2.1" (codes "nic.fr")
    ∷ []

abbrev credentials : Credentials
credentials = record { basic_auth_login = "admin"; basic_auth_pwd = "changeme" }

abbrev request : Request
request = record {
  basic_auth = some ("admin", "changeme");
  method = "GET";
  path = "/search";
  stream_id = "edge" ∷ [];
  query_ip = "192.0.2.1" ∷ [];
  query_name = codes "nic.fr" ∷ [];
}

abbrev intruder : Request
intruder = record request { basic_auth = some ("admin", "admin") }

request_auth : basic_auth credentials request ≡ true
unfolding basic_auth
request_auth = refl

intruder_auth : (basic_auth credentials intruder && str_eq intruder.method "GET") ≡ false
unfolding basic_auth
intruder_auth = refl

record_all-Tables_example : Tables top history (record_all top history (new_rest_api top 10))
record_all-Tables_example = record_all-Tables top history 10

get_search-answer_example :
    get_search top credentials request (record_all top history (new_rest_api top 10))
    ≡ answer history "edge" "192.0.2.1" (codes "nic.fr") ∷ []
get_search-answer_example =
    get_search-answer top credentials request history 10 "edge" "192.0.2.1" (codes "nic.fr")
      request_auth refl refl refl refl

-- Only the suffix is added, and nothing is filtered.
abbrev suffix_only : ConfigTransformers
suffix_only = record all_on {
  user_privacy = record (all_on.user_privacy) { enable = false };
  normalize = record (all_on.normalize) {
    qname_lower_case = false;
    quiet_text = false;
    add_tld_plus_one = false;
  };
  latency = record (all_on.latency) { enable = false };
  filtering = record (all_on.filtering) {
    enable = false;
    drop_fqdn_file = unset;
    drop_rcodes = [];
    downsample = 0;
  };
  geoip_enable = false;
  suspicious = record (all_on.suspicious) { enable = false };
}

abbrev outgoing : Transforms
outgoing = new_transforms suffix_only

-- A message with the part that the transform reads, and no geographic part.
abbrev with_suffix : DnsMessage
with_suffix = record (message "192.0.2.1" (codes "nic.fr")) {
  public_suffix =
      some (record { qname_public_suffix = codes "-"; qname_effective_tld_plus_one = codes "-" });
}

with_suffix-AllSuited :
    AllSuited outgoing.active_transforms (incoming with_suffix ∷ tick ∷ incoming with_suffix ∷ [])
unfolding new_transforms prepare
with_suffix-AllSuited = ((tt, tt), ((tt, tt), tt))

run_events-AllExact_example :
    Ensures
      (KeptBy (AllExact top 10))
      (λ e. ⊥)
      (run_events lookups matchers
        (record_message top 10)
        compute_eps
        (incoming with_suffix ∷ tick ∷ incoming with_suffix ∷ [])
        outgoing
        (new_prometheus top 10))
run_events-AllExact_example =
    run_events-AllExact top 10 lookups matchers
      (incoming with_suffix ∷ tick ∷ incoming with_suffix ∷ []) outgoing
      (new_transforms-Prepared suffix_only) with_suffix-AllSuited

abbrev newcomer : DnsMessage
newcomer = message "192.0.2.1" (codes "nic.fr")

newcomer_kept : check_if_drop matchers outgoing.filtering newcomer ≡ (outgoing.filtering, false)
unfolding check_if_drop run_filters new_transforms new_filtering
newcomer_kept = refl

outgoing_suffix : outgoing.active_transforms ≡ effective_tld ∷ []
unfolding new_transforms prepare
outgoing_suffix = refl

run_events-nil_example :
    run_events lookups matchers
      (record_message top 10)
      compute_eps
      (incoming newcomer ∷ [])
      outgoing
      (new_prometheus top 10)
    ≡ panic nil_pointer
run_events-nil_example =
    run_events-nil lookups matchers outgoing newcomer outgoing.filtering (codes "fr") []
      (record_message top 10) compute_eps [] (new_prometheus top 10) newcomer_kept outgoing_suffix
      refl refl

-- A stream that had one message before its last tick.
abbrev edge : EpsCounters
edge = record { eps = 0; eps_max = 0; total_events = 1; total_events_prev = 1 }

abbrev busy : Prometheus (List (Bytes × ℕ))
busy = record (new_prometheus top 10) { streams_map = ("edge", edge) ∷ [] }

find-edge : find "edge" busy.streams_map ≡ some edge
unfolding find new_prometheus
find-edge = refl

small_edge : edge.total_events + count (from_stream "edge") history < 2 ^ 64
unfolding count
small_edge = omega arith

compute_eps-rate_example :
    find "edge" (compute_eps (record_messages top 10 history busy)).streams_map
    ≡ some (record {
      eps = count (from_stream "edge") history;
      eps_max =
          if ltb 0 (count (from_stream "edge") history)
          then count (from_stream "edge") history
          else 0;
      total_events = 1 + count (from_stream "edge") history;
      total_events_prev = 1 + count (from_stream "edge") history;
    })
compute_eps-rate_example =
    compute_eps-rate top 10 "edge" history busy edge find-edge refl (omega arith) small_edge

abbrev marked : DnsMessage
marked = record (message "192.0.2.1" (codes "nic.fr")) {
  suspicious = some (record {
    score = 1;
    malformed_packet = false;
    large_packet = false;
    long_domain = true;
    slow_domain = false;
    unallowed_chars = false;
    uncommon_qtypes = false;
    excessive_number_labels = false;
  });
}

abbrev fresh : Prometheus (List (Bytes × ℕ))
fresh = new_prometheus top 10

unseen_name : hits_of (codes "nic.fr") (names_of "edge" fresh.domains) ≡ 0
unfolding new_prometheus hits_of find
unseen_name = refl

record_message-unseen_example :
    (hits_of (codes "nic.fr") (names_of "edge" (record_message top 10 marked fresh).suspicious)
      ≡ 1 + hits_of (codes "nic.fr") (names_of "edge" fresh.suspicious))
    × ((record_message top 10 marked fresh).suspicious.top
        ≡ adjust "edge" (top.new_top_map 10) (top.put (codes "nic.fr") 0) fresh.suspicious.top)
record_message-unseen_example = record_message-unseen top 10 marked fresh refl refl unseen_name
