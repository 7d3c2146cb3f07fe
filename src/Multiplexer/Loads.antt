-- ===== src/Multiplexer/Loads.antt =====
-- Which workers the start-up of dnscollector.go makes.
use go_dns_collector.Base.{
  String, ◌≡◌, refl, ap, ◌∙◌, inl, inr, Bool, true, false, not, ◌&&◌, ◌||◌, Option, none, some,
  List, [], ◌∷◌, arith, str_eq, Bool-cases, ok, string_key, bytes_key, is_some, find,
}
use go_dns_collector.Multiplexer.{
  Route, Item, LoggerKind, CollectorKind, needs_route, logger_kinds, collector_kinds,
  is_logger_routed, is_collector_routed, are_routes_valid, load_kinds, all_mappings, unmarshal,
  read_item, load_loggers, load_collectors, assign,
}
use go_dns_collector.Multiplexer.Routes.{find-assign}

abbrev pub any_kind : {Kind : Type 0} → (Kind → Bool) → List Kind → Bool
any_kind made [] = false
any_kind made (k ∷ ks) = made k || any_kind made ks

is_some-assign :
    {V : Type 0} (j k : String) (v : V) (m : List (String × V))
    → is_some (find j (assign k v m)) ≡ (str_eq k j || is_some (find j m))
is_some-assign j k v m =
    rw (find-assign j k v m)
      (elim (Bool-cases (str_eq k j)) [ inl e ↦ rw e refl | inr e ↦ rw e refl ])

is_some-load_kinds :
    {Kind : Type 0} (made : Kind → Bool) (name : String) (ks : List Kind) (m : List (String × Kind))
    (j : String)
    → is_some (find j (load_kinds made name ks m))
      ≡ ((str_eq name j && any_kind made ks) || is_some (find j m))
unfolding load_kinds
is_some-load_kinds made name [] m j = ground arith
is_some-load_kinds made name (k ∷ ks) m j = elim (Bool-cases (made k)) [
  | inl e ↦ rw e (
      is_some-load_kinds made name ks (assign name k m) j
      ∙ ground (arith, is_some-assign j name k m))
  | inr e ↦ rw e (is_some-load_kinds made name ks m j)
]

abbrev enabled_by : {Kind : Type 0} → Option (Kind → Bool) → Kind → Bool
enabled_by none k = false
enabled_by (some enabled) k = enabled k

-- A worker of the name is declared, of a kind that is enabled and, where the kind asks for it, routed.
abbrev pub offers :
    {Kind : Type 0} → List Kind → (Kind → String → Bool) → List (Item Kind) → String → Bool
offers kinds guard [] name = false
offers kinds guard (item ∷ items) name =
    (str_eq item.name name
      && any_kind (λ k. enabled_by item.unmarshalled k && guard k item.name) kinds)
    || offers kinds guard items name

-- Each parameter and each transform of the worker is a mapping, and YAML decodes them.
abbrev pub Readable : {Kind : Type 0} → Item Kind → Type 0
Readable item =
    (all_mappings item.params ≡ true)
    × (all_mappings item.transforms ≡ true)
    × (is_some item.unmarshalled ≡ true)

abbrev pub AllReadable : {Kind : Type 0} → List (Item Kind) → Type 0
AllReadable [] = Unit
AllReadable (item ∷ items) = Readable item × AllReadable items

unmarshal-some :
    {Kind : Type 0} (name : String) (o : Option (Kind → Bool))
    → is_some o ≡ true
    → unmarshal name o ≡ ok (enabled_by o)
unmarshal-some name (some enabled) h = refl
unmarshal-some name none h = grind arith

read_item-Readable :
    {Kind : Type 0} (item : Item Kind)
    → Readable item
    → read_item item ≡ ok (enabled_by item.unmarshalled)
unfolding read_item
read_item-Readable item (params, transforms, decoded) =
    rw params (rw transforms (unmarshal-some item.name item.unmarshalled decoded))

abbrev pub logger_guard : List Route → LoggerKind → String → Bool
logger_guard routes k name = is_logger_routed routes name

abbrev pub collector_guard : List Route → CollectorKind → String → Bool
collector_guard routes k name = not (needs_route k) || is_collector_routed routes name

or_assoc3 : (a b c : Bool) → (a || (b || c)) ≡ ((b || a) || c)
or_assoc3 a b c = ground arith

-- Where every declared logger can be read the loggers load, one for exactly the names that a route has
-- as a destination and that are declared with an enabled kind.
pub load_loggers-offers :
    (routes : List Route) (items : List (Item LoggerKind)) (m : List (String × LoggerKind))
    → AllReadable items
    → (m' : List (String × LoggerKind)) × (load_loggers routes items m ≡ ok m')
      × ((name : String)
          → is_some (find name m')
            ≡ (offers logger_kinds (logger_guard routes) items name || is_some (find name m)))
unfolding load_loggers
load_loggers-offers routes [] m readable = (m, refl, λ name. refl)
load_loggers-offers routes (item ∷ items) m (one, readable) =
    let made : LoggerKind → Bool =
      λ k. enabled_by item.unmarshalled k && is_logger_routed routes item.name in
    let (m', loads, known) =
      load_loggers-offers routes items (load_kinds made item.name logger_kinds m) readable in
    (
      m',
      rw (read_item-Readable item one) loads,
      λ name.
          known name
          ∙ ap (λ b. offers logger_kinds (logger_guard routes) items name || b)
              (is_some-load_kinds made item.name logger_kinds m name)
          ∙ or_assoc3 (offers logger_kinds (logger_guard routes) items name)
              (str_eq item.name name && any_kind made logger_kinds) (is_some (find name m)),
    )

-- With valid routes and collectors that can all be read the collectors load, one for exactly the names
-- that are declared with an enabled kind and, but for tzsp, that a route has as a source.
pub load_collectors-offers :
    (routes : List Route) (items : List (Item CollectorKind)) (m : List (String × CollectorKind))
    → are_routes_valid routes ≡ none
    → AllReadable items
    → (m' : List (String × CollectorKind)) × (load_collectors routes items m ≡ ok m')
      × ((name : String)
          → is_some (find name m')
            ≡ (offers collector_kinds (collector_guard routes) items name || is_some (find name m)))
unfolding load_collectors
load_collectors-offers routes [] m valid readable = (m, refl, λ name. refl)
load_collectors-offers routes (item ∷ items) m valid (one, readable) =
    let made : CollectorKind → Bool = λ k.
      enabled_by item.unmarshalled k
      && (not (needs_route k) || is_collector_routed routes item.name) in
    let (m', loads, known) =
      load_collectors-offers routes items (load_kinds made item.name collector_kinds m) valid
        readable in
    (
      m',
      rw (read_item-Readable item one) (rw valid loads),
      λ name.
          known name
          ∙ ap (λ b. offers collector_kinds (collector_guard routes) items name || b)
              (is_some-load_kinds made item.name collector_kinds m name)
          ∙ or_assoc3 (offers collector_kinds (collector_guard routes) items name)
              (str_eq item.name name && any_kind made collector_kinds) (is_some (find name m)),
    )
