-- ===== src/Multiplexer.antt =====
-- The start-up of dnscollector.go: which loggers and collectors are made, and the routes between them.
-- What yaml.Unmarshal makes of a worker's sections is an error or a test: which kinds are enabled in it.
pub mod Routes
pub mod Loads
pub mod StartUp
mod Examples
use go_dns_collector.Base.{
  String, Bool, true, false, not, ◌&&◌, ◌||◌, Option, none, some, List, [], ◌∷◌, str_eq, ◌==◌,
  if◌then◌else◌, length, Outcome, ok, err, ◌>>=◌, string_key, bytes_key, is_some, find, adjust,
}

pub record Route : Type 0 where
  pub src : List String
  pub dst : List String

-- A value of a map of YAML: a mapping, in which main sets `enable`, or a null, a scalar or a list, which
-- the type assertion refuses.
pub data Param : Type 0 where
  mapping no_mapping : Param

-- A worker of the configuration. `unmarshalled` is what yaml.Unmarshal makes of its sections: an error or
-- which kinds are enabled.
pub record Item (Kind : Type 0) : Type 0 where
  pub name : String
  pub params : List (String × Param)
  pub transforms : List (String × Param)
  pub unmarshalled : Option (Kind → Bool)

pub data LoggerKind : Type 0 where
  rest_api prometheus std_out log_file dnstap_sender tcp_client syslog fluentd influx_db loki_client
        statsd elastic_search scalyr :
      LoggerKind

pub data CollectorKind : Type 0 where
  dnstap dnstap_proxifier afpacket_sniffer xdp_sniffer tail powerdns file_ingestor tzsp :
      CollectorKind

pub record Multiplexer : Type 0 where
  pub routes : List Route
  pub loggers : List (Item LoggerKind)
  pub collectors : List (Item CollectorKind)

-- The panics of main once LoadConfig has read the configuration. The exits of the constructors of the
-- workers are not among them.
pub data StartError : Type 0 where
  not_mapping : String → StartError
  not_unmarshalled : String → StartError
  incomplete_route : Route → StartError
  no_logger : String → StartError
  no_collector : String → StartError

unfoldable pub is_among : String → List String → Bool
is_among name [] = false
is_among name (x ∷ xs) = str_eq x name || is_among name xs

-- IsLoggerRouted
unfoldable pub is_logger_routed : List Route → String → Bool
is_logger_routed [] name = false
is_logger_routed (r ∷ rs) name = is_among name r.dst || is_logger_routed rs name

-- IsCollectorRouted
unfoldable pub is_collector_routed : List Route → String → Bool
is_collector_routed [] name = false
is_collector_routed (r ∷ rs) name = is_among name r.src || is_collector_routed rs name

abbrev pub is_incomplete : Route → Bool
is_incomplete r = (length r.src == 0) || (length r.dst == 0)

abbrev later : {A : Type 0} → Option A → Option A → Option A
later o none = o
later o (some a) = some a

-- AreRoutesValid returns the error of the last route that is incomplete.
unfoldable pub are_routes_valid : List Route → Option Route
are_routes_valid [] = none
are_routes_valid (r ∷ rs) = later (if is_incomplete r then some r else none) (are_routes_valid rs)

-- The order in which main tries the kinds.
abbrev pub logger_kinds : List LoggerKind
logger_kinds =
    rest_api ∷ prometheus ∷ std_out ∷ log_file ∷ dnstap_sender ∷ tcp_client ∷ syslog ∷ fluentd
    ∷ influx_db ∷ loki_client ∷ statsd ∷ elastic_search ∷ scalyr ∷ []

abbrev pub collector_kinds : List CollectorKind
collector_kinds =
    dnstap ∷ dnstap_proxifier ∷ afpacket_sniffer ∷ xdp_sniffer ∷ tail ∷ powerdns ∷ file_ingestor
    ∷ tzsp ∷ []

-- A tzsp collector is made whether or not a route names it.
abbrev pub needs_route : CollectorKind → Bool
needs_route tzsp = false
needs_route dnstap = true
needs_route dnstap_proxifier = true
needs_route afpacket_sniffer = true
needs_route xdp_sniffer = true
needs_route tail = true
needs_route powerdns = true
needs_route file_ingestor = true

-- m[name] = value
unfoldable pub assign {ℓ} : {V : Type ℓ} → String → V → List (String × V) → List (String × V)
assign name v m = adjust name v (λ old. v) m

module _ {Kind : Type 0} (made : Kind → Bool) (name : String) where
  -- The kinds tried for a worker, where `made` is the guard; a later one replaces an earlier one.
  unfoldable pub load_kinds : List Kind → List (String × Kind) → List (String × Kind)
  load_kinds [] m = m
  load_kinds (k ∷ ks) m =
      let rest = load_kinds ks in if made k then rest (assign name k m) else rest m

unfoldable pub all_mappings : List (String × Param) → Bool
all_mappings [] = true
all_mappings ((k, mapping) ∷ m) = all_mappings m
all_mappings ((k, no_mapping) ∷ m) = false

abbrev unmarshal : {A : Type 0} → String → Option A → Outcome StartError A
unmarshal name none = err (not_unmarshalled name)
unmarshal name (some enabled) = ok enabled

-- The head of both loops: `enable` is set in each parameter and each transform, which panics where one
-- is no mapping, and the sections are decoded.
unfoldable pub read_item : {Kind : Type 0} → Item Kind → Outcome StartError (Kind → Bool)
unfolding all_mappings
read_item item =
    if all_mappings item.params
    then (if all_mappings item.transforms
        then unmarshal item.name item.unmarshalled
        else err (not_mapping item.name))
    else err (not_mapping item.name)

unfoldable pub load_loggers :
    List Route
    → List (Item LoggerKind)
    → List (String × LoggerKind)
    → Outcome StartError (List (String × LoggerKind))
load_loggers routes [] m = ok m
load_loggers routes (item ∷ items) m = read_item item >>= λ enabled.
    load_loggers routes items
      (load_kinds (λ k. enabled k && is_logger_routed routes item.name) item.name logger_kinds m)

abbrev when_valid : {A : Type 0} → Option Route → Outcome StartError A → Outcome StartError A
when_valid none next = next
when_valid (some r) next = err (incomplete_route r)

-- The routes are checked for each collector.
unfoldable pub load_collectors :
    List Route
    → List (Item CollectorKind)
    → List (String × CollectorKind)
    → Outcome StartError (List (String × CollectorKind))
load_collectors routes [] m = ok m
load_collectors routes (item ∷ items) m = read_item item >>= λ enabled.
    when_valid (are_routes_valid routes) (
      load_collectors routes items (
        load_kinds (λ k. enabled k && (not (needs_route k) || is_collector_routed routes item.name))
          item.name collector_kinds m))

-- The worker list of a route.
unfoldable pub workers : List (String × LoggerKind) → List String → Outcome StartError (List String)
workers loggers [] = ok []
workers loggers (dst ∷ dsts) =
    if is_some (find dst loggers)
    then (workers loggers dsts >>= λ rest. ok (dst ∷ rest))
    else err (no_logger dst)

-- SetLoggers on each source of a route: the list replaces the one there was.
unfoldable pub set_loggers :
    List (String × CollectorKind)
    → List String
    → List String
    → List (String × List String)
    → Outcome StartError (List (String × List String))
set_loggers collectors logwrks [] wired = ok wired
set_loggers collectors logwrks (src ∷ srcs) wired =
    if is_some (find src collectors)
    then set_loggers collectors logwrks srcs (assign src logwrks wired)
    else err (no_collector src)

-- The multiplexer logic of main.
unfoldable pub connect :
    List (String × LoggerKind)
    → List (String × CollectorKind)
    → List Route
    → List (String × List String)
    → Outcome StartError (List (String × List String))
connect loggers collectors [] wired = ok wired
connect loggers collectors (r ∷ rs) wired = workers loggers r.dst >>= λ logwrks.
    set_loggers collectors logwrks r.src wired >>= λ wired'. connect loggers collectors rs wired'

-- The loggers that each collector sends to, once main has connected them.
unfoldable pub start_up : Multiplexer → Outcome StartError (List (String × List String))
start_up config = load_loggers config.routes config.loggers [] >>= λ loggers.
    load_collectors config.routes config.collectors [] >>= λ collectors.
    connect loggers collectors config.routes []
