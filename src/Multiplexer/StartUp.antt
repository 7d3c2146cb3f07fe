-- ===== src/Multiplexer/StartUp.antt =====
-- main of dnscollector.go, from the configuration to the wiring.
use go_dns_collector.Base.{
  String, ◌≡◌, ◌∙◌, Bool, true, false, ◌||◌, none, List, [], ◌∷◌, arith, ok, string_key, bytes_key,
  is_some, find,
}
use go_dns_collector.Multiplexer.{
  Route, LoggerKind, CollectorKind, Multiplexer, are_routes_valid, logger_kinds, collector_kinds,
  start_up,
}
use go_dns_collector.Multiplexer.Routes.{
  last_route, Known, AllKnown, wiring, find-wiring, connect-wiring,
}
use go_dns_collector.Multiplexer.Loads.{
  offers, AllReadable, logger_guard, collector_guard, load_loggers-offers, load_collectors-offers,
}

abbrev pub AllOf : (String → Bool) → List String → Type 0
AllOf p [] = Unit
AllOf p (name ∷ names) = (p name ≡ true) × AllOf p names

abbrev pub AllOffered : (String → Bool) → (String → Bool) → List Route → Type 0
AllOffered loggers collectors [] = Unit
AllOffered loggers collectors (r ∷ rs) =
    AllOf loggers r.dst × AllOf collectors r.src × AllOffered loggers collectors rs

-- Every declared worker can be read, every route has a source and a destination, and each of them is
-- declared with an enabled kind.
pub record WellRouted (config : Multiplexer) : Type 0 where
  pub valid : are_routes_valid config.routes ≡ none
  pub loggers : AllReadable config.loggers
  pub collectors : AllReadable config.collectors
  pub offered :
      AllOffered
        (offers logger_kinds (logger_guard config.routes) config.loggers)
        (offers collector_kinds (collector_guard config.routes) config.collectors)
        config.routes

or_left : (a b : Bool) → a ≡ true → (a || b) ≡ true
or_left a b h = ground arith

known :
    {Kind : Type 0} (p : String → Bool) (m : List (String × Kind)) (names : List String)
    → ((name : String) → p name ≡ true → is_some (find name m) ≡ true)
    → AllOf p names
    → Known m names
known p m [] f all = all
known p m (name ∷ names) f (one, all) = (f name one, known p m names f all)

all_known :
    (p q : String → Bool) (loggers : List (String × LoggerKind))
    (collectors : List (String × CollectorKind)) (rs : List Route)
    → ((name : String) → p name ≡ true → is_some (find name loggers) ≡ true)
    → ((name : String) → q name ≡ true → is_some (find name collectors) ≡ true)
    → AllOffered p q rs
    → AllKnown loggers collectors rs
all_known p q loggers collectors [] f g all = all
all_known p q loggers collectors (r ∷ rs) f g (dsts, srcs, all) = (
  known p loggers r.dst f dsts,
  known q collectors r.src g srcs,
  all_known p q loggers collectors rs f g all,
)

-- When each parameter and each transform of every declared worker is a mapping and YAML decodes them, and
-- when every route has sources and destinations and each of them is a worker declared with an enabled
-- kind, main connects the workers without a panic of its own, and each collector then sends to exactly
-- the destinations of the last route that names it, and to none if no route does.
pub start_up-last_route :
    (config : Multiplexer)
    → WellRouted config
    → (wired : List (String × List String)) × (start_up config ≡ ok wired)
      × ((name : String) → find name wired ≡ last_route name config.routes none)
unfolding start_up find
start_up-last_route config well =
    let (loggers, loads_loggers, made_loggers) =
      load_loggers-offers config.routes config.loggers [] well.loggers in
    let (collectors, loads, made) =
      load_collectors-offers config.routes config.collectors [] well.valid well.collectors in
    let all =
      all_known (offers logger_kinds (logger_guard config.routes) config.loggers)
        (offers collector_kinds (collector_guard config.routes) config.collectors) loggers
        collectors config.routes
        (λ name there.
          made_loggers name
          ∙ or_left (offers logger_kinds (logger_guard config.routes) config.loggers name) false
              there)
        (λ name there.
          made name
          ∙ or_left (offers collector_kinds (collector_guard config.routes) config.collectors name)
              false there)
        well.offered in
    (
      wiring config.routes [],
      rw loads_loggers (rw loads (connect-wiring loggers collectors config.routes [] all)),
      λ name. find-wiring name config.routes [],
    )
