-- ===== src/Multiplexer/Examples.antt =====
-- Configurations to start up with.
use go_dns_collector.Base.{
  String, ◌≡◌, refl, Bool, true, false, none, some, List, [], ◌∷◌, ok, string_key, bytes_key, find,
}
use go_dns_collector.Multiplexer.{
  Route, LoggerKind, std_out, CollectorKind, dnstap, Multiplexer, is_among, is_logger_routed,
  is_collector_routed, are_routes_valid, all_mappings, mapping, start_up,
}
use go_dns_collector.Multiplexer.Routes.{last_route}
use go_dns_collector.Multiplexer.StartUp.{WellRouted, start_up-last_route}

abbrev is_std_out : LoggerKind → Bool
is_std_out std_out = true
is_std_out _ = false

abbrev is_dnstap : CollectorKind → Bool
is_dnstap dnstap = true
is_dnstap _ = false

abbrev to_console : Route
to_console = record { src = "tap" ∷ []; dst = "console" ∷ [] }

abbrev to_file : Route
to_file = record { src = "tap" ∷ []; dst = "file" ∷ [] }

abbrev two_routes : Multiplexer
two_routes = record {
  routes = to_console ∷ to_file ∷ [];
  loggers =
      record {
        name = "console";
        params = ("stdout", mapping) ∷ [];
        transforms = ("normalize", mapping) ∷ [];
        unmarshalled = some is_std_out;
      }
      ∷ record {
        name = "file";
        params = ("stdout", mapping) ∷ [];
        transforms = [];
        unmarshalled = some is_std_out;
      }
      ∷ [];
  collectors =
      record {
        name = "tap";
        params = ("dnstap", mapping) ∷ [];
        transforms = [];
        unmarshalled = some is_dnstap;
      }
      ∷ [];
}

two_routes-WellRouted : WellRouted two_routes
unfolding are_routes_valid all_mappings is_among is_logger_routed is_collector_routed
two_routes-WellRouted = record {
  valid = refl;
  loggers = ((refl, refl, refl), ((refl, refl, refl), tt));
  collectors = ((refl, refl, refl), tt);
  offered = ((refl, tt), (refl, tt), ((refl, tt), (refl, tt), tt));
}

start_up-last_route_example :
    (wired : List (String × List String)) × (start_up two_routes ≡ ok wired)
    × ((name : String) → find name wired ≡ last_route name two_routes.routes none)
start_up-last_route_example = start_up-last_route two_routes two_routes-WellRouted
