-- ===== src/Loggers/Sender/Delivery.antt =====
-- What the loops of the clients send of what the transforms keep.
use go_dns_collector.Base.{
  ◌≡◌, refl, subst, List, [], ◌∷◌, ◌++◌, Outcome, ok, err, panic, ◌>>=◌, string_key, bytes_key,
}
use go_dns_collector.Message.{DnsMessage}
use go_dns_collector.Transform.Filtering.{Matchers}
use go_dns_collector.Transform.Chain.{
  Lookups, Transforms, return_success, return_drop, return_error,
}
use go_dns_collector.Transform.Process.{Result}
use go_dns_collector.Loggers.Worker.{
  Event as Select, incoming as read, tick, unless_drop, handle, run_events,
}
use go_dns_collector.Loggers.Sender.{Link, Client, Event, connected, incoming, elapsed}
use go_dns_collector.Loggers.Sender.Loop.{run_client}
use go_dns_collector.Loggers.Sender.Flush.{encoded, Delivers}

-- Both give a value with the same transforms and related states, or both panic alike.
abbrev pub Matches :
    (List DnsMessage → Client → Type 0)
    → Outcome ⊥ (Transforms × Client)
    → Outcome ⊥ (Transforms × List DnsMessage)
    → Type 0
Matches R (ok (p, s)) (ok (q, dms)) = (p ≡ q) × R dms s
Matches R (ok x) (err e) = ⊥
Matches R (ok x) (panic d) = ⊥
Matches R (err e) o = ⊥
Matches R (panic c) (ok y) = ⊥
Matches R (panic c) (err e) = ⊥
Matches R (panic c) (panic d) = c ≡ d

Matches-bind :
    (R Q : List DnsMessage → Client → Type 0) (o : Outcome ⊥ (Transforms × Client))
    (o' : Outcome ⊥ (Transforms × List DnsMessage))
    (f : Transforms × Client → Outcome ⊥ (Transforms × Client))
    (g : Transforms × List DnsMessage → Outcome ⊥ (Transforms × List DnsMessage))
    → Matches R o o'
    → ((p : Transforms) (s : Client) (dms : List DnsMessage)
        → R dms s
        → Matches Q (f (p, s)) (g (p, dms)))
    → Matches Q (o >>= f) (o' >>= g)
Matches-bind R Q (ok (p, s)) (ok (q, dms)) f g (same, r) next =
    subst (λ q. Matches Q (f (p, s)) (g (q, dms))) same (next p s dms r)
Matches-bind R Q (panic c) (panic d) f g same next = same
Matches-bind R Q (ok x) (err e) f g absurd next = elim absurd [ ]
Matches-bind R Q (ok x) (panic d) f g absurd next = elim absurd [ ]
Matches-bind R Q (err e) o f g absurd next = elim absurd [ ]
Matches-bind R Q (panic c) (ok y) f g absurd next = elim absurd [ ]
Matches-bind R Q (panic c) (err e) f g absurd next = elim absurd [ ]

abbrev pub as_select : Event → Select
as_select (connected started) = tick
as_select (incoming dm) = read dm
as_select elapsed = tick

-- All events are such ones.
abbrev pub AllFine : (Event → Type 0) → List Event → Type 0
AllFine IsFine [] = Unit
AllFine IsFine (e ∷ es) = IsFine e × AllFine IsFine es

-- The client has sent what the messages encode to, each once and in their order.
abbrev pub Sent : Link → List DnsMessage → Client → Type 0
Sent link dms s = s.sent ≡ encoded link.encode dms

abbrev pub as_selects : List Event → List Select
as_selects [] = []
as_selects (e ∷ es) = as_select e ∷ as_selects es

abbrev pub add : DnsMessage → List DnsMessage → List DnsMessage
add dm dms = dms ++ dm ∷ []

module _ (lookups : Lookups) (matchers : Matchers) where
  -- The messages of the events that the transforms do not drop, as they leave them.
  pub kept : List Event → Transforms → List DnsMessage → Outcome ⊥ (Transforms × List DnsMessage)
  kept es p dms = run_events lookups matchers add (λ dms. dms) (as_selects es) p dms

  pub unless_drop-Matches :
      (keep : DnsMessage → Client → Client) (R : List DnsMessage → Client → Type 0) (s : Client)
      (dms : List DnsMessage) (r : Result)
      → ((dm : DnsMessage) → R (dms ++ dm ∷ []) (keep dm s))
      → R dms s
      → Matches R (unless_drop keep s r) (unless_drop add dms r)
  unless_drop-Matches keep R s dms (ok (p, dm, return_success)) k h = (refl, k dm)
  unless_drop-Matches keep R s dms (ok (p, dm, return_drop)) k h = (refl, h)
  unless_drop-Matches keep R s dms (ok (p, dm, return_error)) k h = (refl, k dm)
  unless_drop-Matches keep R s dms (err e) k h = e
  unless_drop-Matches keep R s dms (panic c) k h = refl

  -- A client whose steps deliver, delivers all it has when the timer fires after some events.
  module _ (link : Link) (run : Event → Transforms → Client → Outcome ⊥ (Transforms × Client))
      (IsFine : Event → Type 0)
      (steps : (e : Event) (p : Transforms) (s : Client) (dms : List DnsMessage)
        → IsFine e
        → Delivers link dms s
        → Matches
            (Delivers link)
            (run e p s)
            (handle lookups matchers add (λ dms. dms) (as_select e) p dms))
      (flushes : (p : Transforms) (s : Client) (dms : List DnsMessage)
        → Delivers link dms s
        → Matches (Sent link) (run elapsed p s) (ok (p, dms))) where
    pub run_client-Delivers :
        (es : List Event) (p : Transforms) (s : Client) (dms : List DnsMessage)
        → AllFine IsFine es
        → Delivers link dms s
        → Matches (Sent link) (run_client run (es ++ elapsed ∷ []) p s) (kept es p dms)
    unfolding run_client kept run_events
    run_client-Delivers [] p s dms fine d =
        Matches-bind (Sent link) (Sent link) (run elapsed p s) (ok (p, dms)) (λ x. ok x) (λ x. ok x)
          (flushes p s dms d) (λ q t ms sum. (refl, sum))
    run_client-Delivers (e ∷ es) p s dms (fine, fines) d =
        Matches-bind (Delivers link) (Sent link) (run e p s)
          (handle lookups matchers add (λ dms. dms) (as_select e) p dms) _ _
          (steps e p s dms fine d) (λ q t ms d'. run_client-Delivers es q t ms fines d')
