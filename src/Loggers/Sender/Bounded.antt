-- ===== src/Loggers/Sender/Bounded.antt =====
-- The buffer of the TCP client, whatever its connection does.
use go_dns_collector.Base.{
  ◌<◌, ◌≡◌, refl, inl, inr, Bool, true, false, not, List, [], ◌∷◌, ◌++◌, arith, ltb, leb,
  if◌then◌else◌, Bool-cases, length, ok, err, panic, string_key, bytes_key,
}
use go_dns_collector.Message.{DnsMessage}
use go_dns_collector.Transform.Filtering.{Matchers}
use go_dns_collector.Transform.Chain.{
  Lookups, Transforms, return_success, return_drop, return_error,
}
use go_dns_collector.Transform.Process.{Result, process_message}
use go_dns_collector.Loggers.Worker.{unless_drop}
use go_dns_collector.Loggers.Sender.{Link, Client, Event, connected, incoming, elapsed}
use go_dns_collector.Loggers.Sender.TcpClient.{
  append_dm, flush_buffer, flush_due, timer_fired, step,
}
use go_dns_collector.Loggers.Sender.Loop.{run_client, Unless, Unless-bind, Unless-if}

-- The buffer is not full, and it is empty unless the connection is ready.
abbrev pub Bounded : Link → Client → Type 0
Bounded link s = (length s.buffer < link.buffer_size) × (s.ready ≡ false → s.buffer ≡ [])

module _ (link : Link) (some_room : 0 < link.buffer_size) (lookups : Lookups)
    (matchers : Matchers) where
  flush_buffer-Bounded : (s : Client) → Bounded link (flush_buffer link s)
  unfolding flush_buffer
  flush_buffer-Bounded s = (some_room, λ down. refl)

  append_dm-Bounded :
      (dm : DnsMessage) (s : Client) → s.ready ≡ true → Bounded link (append_dm link dm s)
  unfolding append_dm
  append_dm-Bounded dm s ready =
      elim (Bool-cases (leb link.buffer_size (length (s.buffer ++ dm ∷ [])))) [
        | inl e ↦ rw e (flush_buffer-Bounded (record s { buffer = s.buffer ++ dm ∷ [] }))
        | inr e ↦ rw e (grind arith, λ down. grind arith)
      ]

  unless_drop-Bounded :
      (s : Client) (r : Result)
      → s.ready ≡ true
      → Bounded link s
      → Unless (Bounded link) (unless_drop (append_dm link) s r)
  unless_drop-Bounded s (ok (p, dm, return_success)) ready h = append_dm-Bounded dm s ready
  unless_drop-Bounded s (ok (p, dm, return_drop)) ready h = h
  unless_drop-Bounded s (ok (p, dm, return_error)) ready h = append_dm-Bounded dm s ready
  unless_drop-Bounded s (err e) ready h = e
  unless_drop-Bounded s (panic c) ready h = tt

  flush_due-Bounded : (s : Client) → Bounded link s → Bounded link (flush_due link s)
  unfolding flush_due
  flush_due-Bounded s h = elim (Bool-cases (ltb 0 (length s.buffer))) [
    | inl e ↦ rw e (flush_buffer-Bounded s)
    | inr e ↦ rw e h
  ]

  if-Bounded :
      (b : Bool) (s t : Client)
      → Bounded link s
      → Bounded link t
      → Bounded link (if b then s else t)
  if-Bounded true s t h k = h
  if-Bounded false s t h k = k

  timer_fired-Bounded : (s : Client) → Bounded link s → Bounded link (timer_fired link s)
  unfolding timer_fired
  timer_fired-Bounded s h =
      if-Bounded (not s.ready) (record s { buffer = []; timer_on = false }) (flush_due link s)
        (some_room, λ down. refl) (flush_due-Bounded s h)

  step-Bounded :
      (e : Event) (p : Transforms) (s : Client)
      → Bounded link s
      → Unless (Bounded link) (step link lookups matchers e p s)
  unfolding step
  step-Bounded (connected started) p s (room, down) = (room, λ up. grind arith)
  step-Bounded (incoming dm) p s h =
      Unless-if (Bounded link) (not s.ready) (ok (p, s))
        (unless_drop (append_dm link) s (process_message lookups matchers p dm)) h
        (λ up. unless_drop-Bounded s (process_message lookups matchers p dm) (grind arith) h)
  step-Bounded elapsed p s h =
      if-Bounded s.timer_on (timer_fired link s) s (timer_fired-Bounded s h) h

  -- Whatever connections, failing flushes, messages and intervals come, unless a transform panics the
  -- TCP client's buffer stays below its size, and it is empty while no connection is ready. The
  -- buffer's size is not zero.
  pub tcp_client-Bounded :
      (es : List Event) (p : Transforms) (s : Client)
      → Bounded link s
      → Unless (Bounded link) (run_client (step link lookups matchers) es p s)
  unfolding run_client
  tcp_client-Bounded [] p s h = h
  tcp_client-Bounded (e ∷ es) p s h =
      Unless-bind (Bounded link) (Bounded link) (step link lookups matchers e p s) _
        (step-Bounded e p s h) (tcp_client-Bounded es)
