-- ===== src/Loggers/Prometheus/Metrics.antt =====
-- InitProm of loggers/prometheus.go: the metrics that a logger registers. The prefix is the one that
-- SanitizeMetricName, a regular expression, returns.
use go_dns_collector.Base.{
  ℕ, String, ◌≡◌, refl, ◌∙◌, Bool, true, false, not, ◌&&◌, ◌||◌, List, [], ◌∷◌, ◌++◌, map, arith,
  ◌==◌, Bytes, codes, bytes_eq, string_key, bytes_key,
}

pub data MetricKind : Type 0 where
  gauge counter histogram : MetricKind

pub record Metric : Type 0 where
  pub kind : MetricKind
  pub suffix : String
  pub labels : List String
  pub buckets : List String

abbrev pub top_metrics : List Metric
top_metrics =
    record { kind = gauge; suffix = "_build_info"; labels = "version" ∷ []; buckets = [] }
    ∷ record {
      kind = gauge;
      suffix = "_top_tlds";
      labels = "stream_id" ∷ "suffix" ∷ [];
      buckets = [];
    }
    ∷ record {
      kind = gauge;
      suffix = "_top_unanswered";
      labels = "stream_id" ∷ "domain" ∷ [];
      buckets = [];
    }
    ∷ record {
      kind = gauge;
      suffix = "_top_suspicious";
      labels = "stream_id" ∷ "domain" ∷ [];
      buckets = [];
    }
    ∷ record {
      kind = gauge;
      suffix = "_top_domains";
      labels = "stream_id" ∷ "domain" ∷ [];
      buckets = [];
    }
    ∷ record {
      kind = gauge;
      suffix = "_top_nxdomains";
      labels = "stream_id" ∷ "domain" ∷ [];
      buckets = [];
    }
    ∷ record {
      kind = gauge;
      suffix = "_top_sfdomains";
      labels = "stream_id" ∷ "domain" ∷ [];
      buckets = [];
    }
    ∷ record {
      kind = gauge;
      suffix = "_top_requesters";
      labels = "stream_id" ∷ "ip" ∷ [];
      buckets = [];
    }
    ∷ record { kind = gauge; suffix = "_throughput_ops"; labels = "stream_id" ∷ []; buckets = [] }
    ∷ record {
      kind = gauge;
      suffix = "_throughput_ops_max";
      labels = "stream_id" ∷ [];
      buckets = [];
    }
    ∷ []

abbrev pub packet_metrics : List Metric
packet_metrics =
    record {
      kind = counter;
      suffix = "_packets_total";
      labels =
          "stream_id" ∷ "net_family" ∷ "net_transport" ∷ "op_name" ∷ "op_code" ∷ "return_code"
          ∷ "query_type" ∷ "flag_qr" ∷ "flag_tc" ∷ "flag_aa" ∷ "flag_ra" ∷ "flag_ad" ∷ "pkt_err"
          ∷ "flag_df" ∷ "flag_tr" ∷ [];
      buckets = [];
    }
    ∷ record {
      kind = histogram;
      suffix = "_queries_size_bytes";
      labels = "stream_id" ∷ [];
      buckets = "50" ∷ "100" ∷ "250" ∷ "500" ∷ [];
    }
    ∷ record {
      kind = histogram;
      suffix = "_replies_size_bytes";
      labels = "stream_id" ∷ [];
      buckets = "50" ∷ "100" ∷ "250" ∷ "500" ∷ [];
    }
    ∷ record {
      kind = histogram;
      suffix = "_qnames_size_bytes";
      labels = "stream_id" ∷ [];
      buckets = "10" ∷ "20" ∷ "40" ∷ "60" ∷ "100" ∷ [];
    }
    ∷ record {
      kind = histogram;
      suffix = "_latencies";
      labels = "stream_id" ∷ [];
      buckets = "0.001" ∷ "0.010" ∷ "0.050" ∷ "0.100" ∷ "0.5" ∷ "1.0" ∷ [];
    }
    ∷ record {
      kind = counter;
      suffix = "_received_bytes_total";
      labels = "stream_id" ∷ [];
      buckets = [];
    }
    ∷ record {
      kind = counter;
      suffix = "_sent_bytes_total";
      labels = "stream_id" ∷ [];
      buckets = [];
    }
    ∷ []

abbrev pub name_metrics : List Metric
name_metrics =
    record { kind = counter; suffix = "_unanswered_total"; labels = "stream_id" ∷ []; buckets = [] }
    ∷ record { kind = counter; suffix = "_domains_total"; labels = "stream_id" ∷ []; buckets = [] }
    ∷ record { kind = counter; suffix = "_tlds_total"; labels = "stream_id" ∷ []; buckets = [] }
    ∷ record {
      kind = counter;
      suffix = "_suspicious_total";
      labels = "stream_id" ∷ [];
      buckets = [];
    }
    ∷ record {
      kind = counter;
      suffix = "_nxdomains_total";
      labels = "stream_id" ∷ [];
      buckets = [];
    }
    ∷ record {
      kind = counter;
      suffix = "_sfdomains_total";
      labels = "stream_id" ∷ [];
      buckets = [];
    }
    ∷ record {
      kind = counter;
      suffix = "_requesters_total";
      labels = "stream_id" ∷ [];
      buckets = [];
    }
    ∷ record { kind = counter; suffix = "_tlds_uniq_total"; labels = []; buckets = [] }
    ∷ record { kind = counter; suffix = "_unanswered_uniq_total"; labels = []; buckets = [] }
    ∷ record { kind = counter; suffix = "_suspicious_uniq_total"; labels = []; buckets = [] }
    ∷ record { kind = counter; suffix = "_domains_uniq_total"; labels = []; buckets = [] }
    ∷ record { kind = counter; suffix = "_domains_nx_uniq_total"; labels = []; buckets = [] }
    ∷ record { kind = counter; suffix = "_domains_sf_uniq_total"; labels = []; buckets = [] }
    ∷ record { kind = counter; suffix = "_requesters_uniq_total"; labels = []; buckets = [] }
    ∷ []

abbrev pub full_name : Bytes → Metric → Bytes
full_name prefix m = prefix ++ codes m.suffix

-- The names in the order of MustRegister, which panics at a name that is already there.
unfoldable pub init_prom : Bytes → List Bytes
init_prom prefix = map (full_name prefix) (top_metrics ++ (packet_metrics ++ name_metrics))

unfoldable pub has_name : Bytes → List Bytes → Bool
has_name name [] = false
has_name name (x ∷ xs) = bytes_eq x name || has_name name xs

unfoldable pub all_distinct : List Bytes → Bool
unfolding has_name
all_distinct [] = true
all_distinct (x ∷ xs) = not (has_name x xs) && all_distinct xs

nat_eq_refl : (n : ℕ) → (n == n) ≡ true
nat_eq_refl n = ground arith

bytes_eq-prefixed : (p a b : Bytes) → bytes_eq (p ++ a) (p ++ b) ≡ bytes_eq a b
unfolding bytes_eq
bytes_eq-prefixed [] a b = refl
bytes_eq-prefixed (x ∷ p) a b = rw (nat_eq_refl x) (bytes_eq-prefixed p a b)

has_name-prefixed :
    (p : Bytes) (m : Metric) (ms : List Metric)
    → has_name (full_name p m) (map (full_name p) ms)
      ≡ has_name (full_name [] m) (map (full_name []) ms)
unfolding has_name
has_name-prefixed p m [] = refl
has_name-prefixed p m (x ∷ xs) =
    rw (bytes_eq-prefixed p (codes x.suffix) (codes m.suffix)) (rw (has_name-prefixed p m xs) refl)

all_distinct-prefixed :
    (p : Bytes) (ms : List Metric)
    → all_distinct (map (full_name p) ms) ≡ all_distinct (map (full_name []) ms)
unfolding all_distinct
all_distinct-prefixed p [] = refl
all_distinct-prefixed p (m ∷ ms) =
    rw (has_name-prefixed p m ms) (rw (all_distinct-prefixed p ms) refl)

all_distinct-suffixes : all_distinct (init_prom []) ≡ true
unfolding init_prom all_distinct has_name bytes_eq
all_distinct-suffixes = refl

-- Under any prefix the metrics of a Prometheus logger have different names, so that registering them
-- does not panic.
pub init_prom-all_distinct : (prefix : Bytes) → all_distinct (init_prom prefix) ≡ true
unfolding init_prom
init_prom-all_distinct prefix =
    all_distinct-prefixed prefix (top_metrics ++ (packet_metrics ++ name_metrics))
    ∙ all_distinct-suffixes
