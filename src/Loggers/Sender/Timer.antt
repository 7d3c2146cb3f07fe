-- ===== src/Loggers/Sender/Timer.antt =====
-- The flush timer of loggers/tcpclient.go, which fires once before the connection is ready.
use go_dns_collector.Base.{
  ℕ, ◌+◌, ◌<◌, ◌≡◌, refl, Bool, true, false, not, List, [], ◌∷◌, ◌++◌, arith, leb, length,
  length-append, ok, err, panic, string_key, bytes_key,
}
use go_dns_collector.Message.{DnsMessage}
use go_dns_collector.Transform.Filtering.{Matchers}
use go_dns_collector.Transform.Chain.{
  Lookups, Transforms, return_success, return_drop, return_error,
}
use go_dns_collector.Transform.Process.{Result, process_message}
use go_dns_collector.Loggers.Worker.{unless_drop}
use go_dns_collector.Loggers.Sender.{Link, Client, new_client, Event, connected, incoming, elapsed}
use go_dns_collector.Loggers.Sender.TcpClient.{append_dm, timer_fired, step}
use go_dns_collector.Loggers.Sender.Loop.{run_client, Unless, Unless-bind, Unless-if, Unless-weaken}

-- The number of messages.
abbrev pub messages : List Event → ℕ
messages [] = 0
messages (connected started ∷ es) = messages es
messages (incoming dm ∷ es) = messages es + 1
messages (elapsed ∷ es) = messages es

-- The timer is off, nothing was sent, and the buffer takes `n` messages without being full.
abbrev pub Mute : Link → ℕ → Client → Type 0
Mute link n s = (s.timer_on ≡ false) × (s.sent ≡ []) × (length s.buffer + n < link.buffer_size)

module _ (link : Link) (lookups : Lookups) (matchers : Matchers) where
  append_dm-Mute :
      (dm : DnsMessage) (n : ℕ) (s : Client)
      → Mute link (n + 1) s
      → Mute link n (append_dm link dm s)
  unfolding append_dm
  append_dm-Mute dm n s (off, none_sent, room) =
      let size : length (s.buffer ++ dm ∷ []) ≡ length s.buffer + 1 =
        omega (arith, length-append s.buffer (dm ∷ [])) in
      let short : leb link.buffer_size (length (s.buffer ++ dm ∷ [])) ≡ false =
        rw size (ground (arith, room)) in
      rw short (off, none_sent, rw size (omega (arith, room)))

  unless_drop-Mute :
      (n : ℕ) (s : Client) (r : Result)
      → Mute link (n + 1) s
      → Unless (Mute link n) (unless_drop (append_dm link) s r)
  unless_drop-Mute n s (ok (p, dm, return_success)) mute = append_dm-Mute dm n s mute
  unless_drop-Mute n s (ok (p, dm, return_drop)) (off, none_sent, room) =
      (off, none_sent, omega (arith, room))
  unless_drop-Mute n s (ok (p, dm, return_error)) mute = append_dm-Mute dm n s mute
  unless_drop-Mute n s (err e) mute = e
  unless_drop-Mute n s (panic c) mute = tt

  step-elapsed_off :
      (p : Transforms) (s : Client)
      → s.timer_on ≡ false
      → step link lookups matchers elapsed p s ≡ ok (p, s)
  unfolding step
  step-elapsed_off p s off = rw off refl

  step-incoming :
      (dm : DnsMessage) (n : ℕ) (p : Transforms) (s : Client)
      → Mute link (n + 1) s
      → Unless (Mute link n) (step link lookups matchers (incoming dm) p s)
  unfolding step
  step-incoming dm n p s mute =
      Unless-if (Mute link n) (not s.ready) (ok (p, s))
        (unless_drop (append_dm link) s (process_message lookups matchers p dm))
        (mute.0, mute.1, omega (arith, mute.2))
        (λ up. unless_drop-Mute n s (process_message lookups matchers p dm) mute)

  step-connected :
      (started : Bool) (p : Transforms) (s : Client)
      → step link lookups matchers (connected started) p s ≡ ok (p, record s { ready = true })
  unfolding step
  step-connected started p s = refl

  step-elapsed_first :
      (p : Transforms)
      → step link lookups matchers elapsed p new_client
        ≡ ok (p, record new_client { timer_on = false })
  unfolding step timer_fired
  step-elapsed_first p = refl

  run_client-Mute :
      (es : List Event) (p : Transforms) (s : Client)
      → Mute link (messages es) s
      → Unless (Mute link 0) (run_client (step link lookups matchers) es p s)
  unfolding run_client
  run_client-Mute [] p s mute = mute
  run_client-Mute (connected started ∷ es) p s mute =
      rw (step-connected started p s) (run_client-Mute es p (record s { ready = true }) mute)
  run_client-Mute (incoming dm ∷ es) p s mute =
      Unless-bind (Mute link (messages es)) (Mute link 0)
        (step link lookups matchers (incoming dm) p s) _ (step-incoming dm (messages es) p s mute)
        (λ q t mute'. run_client-Mute es q t mute')
  run_client-Mute (elapsed ∷ es) p s mute =
      rw (step-elapsed_off p s mute.0) (run_client-Mute es p s mute)

  -- When the TCP client's flush interval ends before its first connection is ready, the timer is never
  -- set again: whatever comes after, connections, further intervals and fewer messages than the
  -- buffer's size, the client sends nothing, unless a transform panics.
  pub tcp_client-mute :
      (es : List Event) (p : Transforms)
      → messages es < link.buffer_size
      → Unless
          (λ s. s.sent ≡ [])
          (run_client (step link lookups matchers) (elapsed ∷ es) p new_client)
  unfolding run_client
  tcp_client-mute es p room = rw (step-elapsed_first p) (
      Unless-weaken (Mute link 0) (λ s. s.sent ≡ []) _ (λ s mute. mute.1)
        (run_client-Mute es p (record new_client { timer_on = false })
          (refl, refl, omega (arith, room))))
