-- ===== src/Loggers/Sender/Examples.antt =====
-- Runs of the clients on concrete events.
use go_dns_collector.Base.{
  ◌≡◌, refl, true, false, some, List, [], ◌∷◌, ◌++◌, arith, ◌==◌, Bytes, codes, Ensures, string_key,
  bytes_key,
}
use go_dns_collector.Message.{DnsMessage, init}
use go_dns_collector.Transform.Config.{ConfigTransformers}
use go_dns_collector.Transform.Samples.{matchers, lookups, all_on}
use go_dns_collector.Transform.Chain.{Transforms, new_transforms}
use go_dns_collector.Loggers.Sender.{Client, Link, new_client, Event, connected, incoming, elapsed}
use go_dns_collector.Loggers.Sender.TcpClient.{step}
use go_dns_collector.Loggers.Sender.DnstapClient.{overwriting, step_frames}
use go_dns_collector.Loggers.Sender.Loop.{run_client, Unless}
use go_dns_collector.Loggers.Sender.Delivery.{Matches, Sent, kept}
use go_dns_collector.Loggers.Sender.Delivered.{tcp_client-delivers, dnstap_client-delivers}
use go_dns_collector.Loggers.Sender.Timer.{tcp_client-mute}
use go_dns_collector.Loggers.Sender.FluentdClient.{step_events}
use go_dns_collector.Loggers.Sender.Again.{Holds, intervals, repeated, fluentd_client-again}
use go_dns_collector.Loggers.Sender.Flush.{encoded}
use go_dns_collector.Loggers.Sender.Bounded.{Bounded, tcp_client-Bounded}

abbrev message : Bytes → DnsMessage
message name = record init { dns = record (init.dns) { qname = name } }

-- The name of a message is what is sent; three messages fill the buffer.
abbrev link : Link
link = record { encode = λ dm. some dm.dns.qname; works = λ n. true; buffer_size = 3 }

-- Every second flush fails.
abbrev broken : Link
broken = record link { works = λ n. n == 0 }

abbrev events : List Event
events = incoming (message (codes "a.fr")) ∷ elapsed ∷ incoming (message (codes "b.fr")) ∷ []

-- Only lower case.
abbrev lower_only : ConfigTransformers
lower_only = record all_on {
  user_privacy = record (all_on.user_privacy) { enable = false };
  normalize = record (all_on.normalize) {
    quiet_text = false;
    add_tld = false;
    add_tld_plus_one = false;
  };
  latency = record (all_on.latency) { enable = false };
  filtering = record (all_on.filtering) { drop_rcodes = []; downsample = 0 };
  geoip_enable = false;
  suspicious = record (all_on.suspicious) { enable = false };
}

abbrev transforms : Transforms
transforms = new_transforms lower_only

tcp_client-delivers_example :
    Matches
      (Sent link)
      (run_client
        (step link lookups matchers)
        (connected true ∷ (events ++ elapsed ∷ []))
        transforms
        new_client)
      (kept lookups matchers events transforms [])
tcp_client-delivers_example =
    tcp_client-delivers link (λ n. refl) (omega arith) lookups matchers true events transforms

dnstap_client-delivers_example :
    Matches
      (Sent (overwriting (some "edge") link))
      (run_client
        (step_frames (some "edge") link lookups matchers)
        (connected true ∷ (events ++ elapsed ∷ []))
        transforms
        new_client)
      (kept lookups matchers events transforms [])
dnstap_client-delivers_example =
    dnstap_client-delivers (some "edge") link (λ n. refl) (omega arith) lookups matchers events
      transforms (tt, (tt, (tt, tt)))

tcp_client-mute_example :
    Unless
      (λ s. s.sent ≡ [])
      (run_client
        (step link lookups matchers)
        (elapsed ∷ connected true ∷ events)
        transforms
        new_client)
tcp_client-mute_example =
    tcp_client-mute link lookups matchers (connected true ∷ events) transforms (omega arith)

tcp_client-Bounded_example :
    Unless
      (Bounded broken)
      (run_client (step broken lookups matchers) (connected true ∷ events) transforms new_client)
tcp_client-Bounded_example =
    tcp_client-Bounded broken (omega arith) lookups matchers (connected true ∷ events) transforms
      new_client (omega arith, λ down. refl)

abbrev one_message : List DnsMessage
one_message = message (codes "a.fr") ∷ []

abbrev waiting : Client
waiting = record new_client { ready = true; buffer = one_message }

fluentd_client-again_example :
    Ensures
      (λ (q, s'). Holds one_message (repeated 2 (encoded link.encode one_message)) s')
      (λ e. ⊥)
      (run_client (step_events link lookups matchers) (intervals 2) transforms waiting)
fluentd_client-again_example =
    fluentd_client-again link (λ n. refl) lookups matchers 2 one_message [] transforms waiting
      (refl, refl, refl, refl)
