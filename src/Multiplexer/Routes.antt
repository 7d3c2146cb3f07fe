-- ===== src/Multiplexer/Routes.antt =====
-- Who sends to whom after the start-up of dnscollector.go.
use go_dns_collector.Base.{
  String, ◌≡◌, refl, ap, ◌∙◌, true, Option, some, List, [], ◌∷◌, arith, str_eq, if◌then◌else◌, ok,
  string_key, bytes_key, is_some, find, find-adjust,
}
use go_dns_collector.Multiplexer.{
  Route, LoggerKind, CollectorKind, is_among, assign, workers, set_loggers, connect,
}

-- The destinations of the last of the routes that name the source.
abbrev pub last_route : String → List Route → Option (List String) → Option (List String)
last_route name [] o = o
last_route name (r ∷ rs) o = last_route name rs (if is_among name r.src then some r.dst else o)

abbrev pub Known : {Kind : Type 0} → List (String × Kind) → List String → Type 0
Known m [] = Unit
Known m (name ∷ names) = (is_some (find name m) ≡ true) × Known m names

-- Every name of every route is that of a worker there is.
abbrev pub AllKnown :
    List (String × LoggerKind) → List (String × CollectorKind) → List Route → Type 0
AllKnown loggers collectors [] = Unit
AllKnown loggers collectors (r ∷ rs) =
    Known loggers r.dst × Known collectors r.src × AllKnown loggers collectors rs

workers-Known :
    (loggers : List (String × LoggerKind)) (dsts : List String)
    → Known loggers dsts
    → workers loggers dsts ≡ ok dsts
unfolding workers
workers-Known loggers [] known = refl
workers-Known loggers (dst ∷ dsts) (there, known) =
    rw there (rw (workers-Known loggers dsts known) refl)

pub find-assign :
    {V : Type 0} (j k : String) (v : V) (m : List (String × V))
    → find j (assign k v m) ≡ (if str_eq k j then some v else find j m)
unfolding assign
find-assign j k v m = find-adjust j k v (λ old. v) m

-- The wiring that each of the sources gets.
set_all : List String → List String → List (String × List String) → List (String × List String)
set_all logwrks [] wired = wired
set_all logwrks (src ∷ srcs) wired = set_all logwrks srcs (assign src logwrks wired)

find-set_all :
    (name : String) (logwrks srcs : List String) (wired : List (String × List String))
    → find name (set_all logwrks srcs wired)
      ≡ (if is_among name srcs then some logwrks else find name wired)
unfolding set_all is_among
find-set_all name logwrks [] wired = refl
find-set_all name logwrks (src ∷ srcs) wired =
    find-set_all name logwrks srcs (assign src logwrks wired)
    ∙ ground (arith, find-assign name src logwrks wired)

set_loggers-Known :
    (collectors : List (String × CollectorKind)) (logwrks srcs : List String)
    (wired : List (String × List String))
    → Known collectors srcs
    → set_loggers collectors logwrks srcs wired ≡ ok (set_all logwrks srcs wired)
unfolding set_loggers set_all
set_loggers-Known collectors logwrks [] wired known = refl
set_loggers-Known collectors logwrks (src ∷ srcs) wired (there, known) =
    rw there (set_loggers-Known collectors logwrks srcs (assign src logwrks wired) known)

pub wiring : List Route → List (String × List String) → List (String × List String)
wiring [] wired = wired
wiring (r ∷ rs) wired = wiring rs (set_all r.dst r.src wired)

pub find-wiring :
    (name : String) (rs : List Route) (wired : List (String × List String))
    → find name (wiring rs wired) ≡ last_route name rs (find name wired)
unfolding wiring
find-wiring name [] wired = refl
find-wiring name (r ∷ rs) wired =
    find-wiring name rs (set_all r.dst r.src wired)
    ∙ ap (last_route name rs) (find-set_all name r.dst r.src wired)

pub connect-wiring :
    (loggers : List (String × LoggerKind)) (collectors : List (String × CollectorKind))
    (rs : List Route) (wired : List (String × List String))
    → AllKnown loggers collectors rs
    → connect loggers collectors rs wired ≡ ok (wiring rs wired)
unfolding connect wiring
connect-wiring loggers collectors [] wired known = refl
connect-wiring loggers collectors (r ∷ rs) wired (dsts, srcs, known) =
    rw (workers-Known loggers r.dst dsts) (
      rw (set_loggers-Known collectors r.dst r.src wired srcs)
        (connect-wiring loggers collectors rs (set_all r.dst r.src wired) known))
