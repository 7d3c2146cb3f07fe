-- ===== src/Loggers/Sender/Delivered.antt =====
-- The clients of loggers/tcpclient.go and loggers/dnstapclient.go deliver what the transforms keep.
use go_dns_collector.Base.{
  ◌<◌, String, ◌≡◌, refl, Bool, true, Option, List, [], ◌∷◌, ◌++◌, ok, string_key, bytes_key,
}
use go_dns_collector.Message.{DnsMessage}
use go_dns_collector.Transform.Filtering.{Matchers}
use go_dns_collector.Transform.Chain.{Lookups, Transforms}
use go_dns_collector.Transform.Process.{process_message}
use go_dns_collector.Loggers.Worker.{unless_drop, handle}
use go_dns_collector.Loggers.Sender.{Link, Client, new_client, Event, connected, incoming, elapsed}
use go_dns_collector.Loggers.Sender.TcpClient.{
  append_dm, flush_buffer, flush_due, timer_fired, step,
}
use go_dns_collector.Loggers.Sender.Loop.{run_client}
use go_dns_collector.Loggers.Sender.DnstapClient.{
  overwriting, append_frame, flush_frames, flush_frames_due, step_frames,
}
use go_dns_collector.Loggers.Sender.Flush.{
  Works, Delivers, append_dm-Delivers, flush_due-Delivers, timer_fired-Delivers,
}
use go_dns_collector.Loggers.Sender.Delivery.{
  Matches, as_select, add, kept, unless_drop-Matches, run_client-Delivers, AllFine, Sent,
}

all_fine : (es : List Event) → AllFine (λ e. Unit) es
all_fine [] = tt
all_fine (e ∷ es) = (tt, all_fine es)

module _ (link : Link) (works : Works link) (some_room : 0 < link.buffer_size) (lookups : Lookups)
    (matchers : Matchers) where
  step-ready :
      (dm : DnsMessage) (p : Transforms) (s : Client)
      → s.ready ≡ true
      → step link lookups matchers (incoming dm) p s
        ≡ unless_drop (append_dm link) s (process_message lookups matchers p dm)
  unfolding step
  step-ready dm p s ready = rw ready refl

  step-elapsed :
      (p : Transforms) (s : Client)
      → s.timer_on ≡ true
      → step link lookups matchers elapsed p s ≡ ok (p, timer_fired link s)
  unfolding step
  step-elapsed p s on = rw on refl

  step-connected :
      (started : Bool) (p : Transforms) (s : Client)
      → step link lookups matchers (connected started) p s ≡ ok (p, record s { ready = true })
  unfolding step
  step-connected started p s = refl

  step-Delivers :
      (e : Event) (p : Transforms) (s : Client) (dms : List DnsMessage)
      → Delivers link dms s
      → Matches
          (Delivers link)
          (step link lookups matchers e p s)
          (handle lookups matchers add (λ dms. dms) (as_select e) p dms)
  unfolding handle
  step-Delivers (connected started) p s dms (ready, on, room, sum) =
      rw (step-connected started p s) (refl, (refl, on, room, sum))
  step-Delivers (incoming dm) p s dms d = rw (step-ready dm p s d.0) (
      unless_drop-Matches lookups matchers (append_dm link) (Delivers link) s dms
        (process_message lookups matchers p dm)
        (λ dm'. append_dm-Delivers link works some_room dm' dms s d) d)
  step-Delivers elapsed p s dms d =
      rw (step-elapsed p s d.1) (refl, (timer_fired-Delivers link works some_room dms s d).0)

  -- When the connection comes first and no flush fails, the TCP client, stopped after a flush interval
  -- has ended, has sent what the messages that its transforms keep encode to, each once and in their
  -- order; or it panics where the transforms do. The buffer's size is not zero.
  pub tcp_client-delivers :
      (started : Bool) (es : List Event) (p : Transforms)
      → Matches
          (Sent link)
          (run_client
            (step link lookups matchers)
            (connected started ∷ (es ++ elapsed ∷ []))
            p
            new_client)
          (kept lookups matchers es p [])
  unfolding run_client
  tcp_client-delivers started es p = rw (step-connected started p new_client) (
      run_client-Delivers lookups matchers link (step link lookups matchers) (λ e. Unit)
        (λ e p s dms fine d. step-Delivers e p s dms d)
        (λ p s dms d.
          rw (step-elapsed p s d.1) (refl, (timer_fired-Delivers link works some_room dms s d).1))
        es p (record new_client { ready = true }) [] (all_fine es) (refl, refl, some_room, refl))

-- The protocol starts on each connection.
abbrev pub Starts : Event → Type 0
Starts (connected started) = started ≡ true
Starts (incoming dm) = Unit
Starts elapsed = Unit

module _ (identity : Option String) (link : Link) (works : Works link)
    (some_room : 0 < link.buffer_size) (lookups : Lookups) (matchers : Matchers) where
  abbrev named : Link
  named = overwriting identity link

  frames-ready :
      (dm : DnsMessage) (p : Transforms) (s : Client)
      → s.ready ≡ true
      → step_frames identity link lookups matchers (incoming dm) p s
        ≡ unless_drop (append_dm named) s (process_message lookups matchers p dm)
  unfolding step_frames append_frame append_dm flush_frames flush_buffer
  frames-ready dm p s ready = rw ready refl

  frames-elapsed :
      (p : Transforms) (s : Client)
      → s.timer_on ≡ true
      → step_frames identity link lookups matchers elapsed p s ≡ ok (p, flush_due named s)
  unfolding step_frames flush_frames_due flush_frames flush_due flush_buffer
  frames-elapsed p s on = rw on refl

  frames-connected :
      (started : Bool) (p : Transforms) (s : Client)
      → step_frames identity link lookups matchers (connected started) p s
        ≡ ok (p, record s { ready = started })
  unfolding step_frames
  frames-connected started p s = refl

  frames-Delivers :
      (e : Event) (p : Transforms) (s : Client) (dms : List DnsMessage)
      → Starts e
      → Delivers named dms s
      → Matches
          (Delivers named)
          (step_frames identity link lookups matchers e p s)
          (handle lookups matchers add (λ dms. dms) (as_select e) p dms)
  unfolding handle
  frames-Delivers (connected started) p s dms start (ready, on, room, sum) =
      rw (frames-connected started p s) (refl, (start, on, room, sum))
  frames-Delivers (incoming dm) p s dms start d = rw (frames-ready dm p s d.0) (
      unless_drop-Matches lookups matchers (append_dm named) (Delivers named) s dms
        (process_message lookups matchers p dm)
        (λ dm'. append_dm-Delivers named works some_room dm' dms s d) d)
  frames-Delivers elapsed p s dms start d =
      rw (frames-elapsed p s d.1) (refl, (flush_due-Delivers named works some_room dms s d).0)

  -- When a connection on which the protocol starts comes first, as it does on all that follow, and no
  -- flush fails, the DNStap client, stopped after a flush interval has ended, has sent the frames of
  -- the messages that its transforms keep, with the configured identity, each once and in their
  -- order; or it panics where the transforms do. The buffer's size is not zero.
  pub dnstap_client-delivers :
      (es : List Event) (p : Transforms)
      → AllFine Starts es
      → Matches
          (Sent (overwriting identity link))
          (run_client
            (step_frames identity link lookups matchers)
            (connected true ∷ (es ++ elapsed ∷ []))
            p
            new_client)
          (kept lookups matchers es p [])
  unfolding run_client
  dnstap_client-delivers es p start = rw (frames-connected true p new_client) (
      run_client-Delivers lookups matchers named (step_frames identity link lookups matchers) Starts
        frames-Delivers
        (λ p s dms d.
          rw (frames-elapsed p s d.1) (refl, (flush_due-Delivers named works some_room dms s d).1))
        es p (record new_client { ready = true }) [] start (refl, refl, some_room, refl))
