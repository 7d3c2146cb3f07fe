-- ===== src/Loggers/Sender/Flush.antt =====
-- What a flush of the buffer sends.
use go_dns_collector.Base.{
  ℕ, ◌+◌, ◌<◌, ◌≡◌, refl, sym, ap, ◌∙◌, ◌⊎◌, inl, inr, true, false, Option, none, some, List, [],
  ◌∷◌, ◌++◌, append-nil, append_assoc, arith, ltb, leb, Bool-cases, length, Bytes, string_key,
  bytes_key,
}
use go_dns_collector.Message.{DnsMessage}
use go_dns_collector.Loggers.Sender.{Link, Client, send_all}
use go_dns_collector.Loggers.Sender.TcpClient.{flush_buffer, append_dm, flush_due, timer_fired}

-- The messages that encode, encoded.
unfoldable pub encoded : (DnsMessage → Option Bytes) → List DnsMessage → List Bytes
encoded encode [] = []
encoded encode (dm ∷ dms) =
    let rest = encoded encode dms in elim (encode dm) [ none ↦ rest | some bytes ↦ bytes ∷ rest ]

pub encoded-append :
    (encode : DnsMessage → Option Bytes) (a b : List DnsMessage)
    → encoded encode (a ++ b) ≡ encoded encode a ++ encoded encode b
unfolding encoded
encoded-append encode [] b = refl
encoded-append encode (dm ∷ a) b = ground (arith, encoded-append encode a b)

pub Option-cases : {A : Type 0} (o : Option A) → (o ≡ none) ⊎ ((a : A) × (o ≡ some a))
Option-cases none = inl refl
Option-cases (some a) = inr (a, refl)

-- Flushes do not fail.
abbrev pub Works : Link → Type 0
Works link = (n : ℕ) → link.works n ≡ true

-- All that the flushes of the loop send, and nothing else that they change.
abbrev pub SendsAll : Link → List DnsMessage → Client → Client → Type 0
SendsAll link dms s s' =
    (s'.sent ≡ s.sent ++ encoded link.encode dms)
    × (s'.ready ≡ s.ready)
    × (s'.timer_on ≡ s.timer_on)

module _ (link : Link) (works : Works link) where
  pub send_all-Works :
      (dms : List DnsMessage) (s : Client) → SendsAll link dms s (send_all link dms s)
  unfolding send_all encoded
  send_all-Works [] s = (sym (append-nil s.sent), refl, refl)
  send_all-Works (dm ∷ dms) s = elim (Option-cases (link.encode dm)) [
    | inl e ↦ rw (e, send_all, encoded) (send_all-Works dms s)
    | inr (bytes, e) ↦
        rw (e, send_all, encoded)
          (rw (works s.flushes) (
            let s' : Client = record s { flushes = s.flushes + 1; sent = s.sent ++ bytes ∷ [] } in
            let (all, ready, on) = send_all-Works dms s' in
            (all ∙ append_assoc s.sent (bytes ∷ []) (encoded link.encode dms), ready, on)))
  ]

  -- A flush of the buffer sends all of it.
  pub flush_buffer-Works :
      (s : Client)
      → SendsAll link s.buffer s (flush_buffer link s) × ((flush_buffer link s).buffer ≡ [])
  unfolding flush_buffer
  flush_buffer-Works s = (send_all-Works s.buffer s, refl)

-- The client is connected, its timer is set, its buffer is not full, and what it has sent and still has
-- to send is what the messages `dms` encode to, in their order.
abbrev pub Delivers : Link → List DnsMessage → Client → Type 0
Delivers link dms s =
    (s.ready ≡ true)
    × (s.timer_on ≡ true)
    × (length s.buffer < link.buffer_size)
    × (s.sent ++ encoded link.encode s.buffer ≡ encoded link.encode dms)

module _ (link : Link) (works : Works link) (some_room : 0 < link.buffer_size) where
  flush_buffer-Delivers :
      (dms : List DnsMessage) (s : Client)
      → s.ready ≡ true
      → s.timer_on ≡ true
      → s.sent ++ encoded link.encode s.buffer ≡ encoded link.encode dms
      → Delivers link dms (flush_buffer link s)
        × ((flush_buffer link s).sent ≡ encoded link.encode dms)
  unfolding encoded
  flush_buffer-Delivers dms s ready on sum =
      let ((all, same, timer), gone) = flush_buffer-Works link works s in
      (
        (
          same ∙ ready,
          timer ∙ on,
          rw gone some_room,
          rw gone (append-nil (flush_buffer link s).sent ∙ all ∙ sum),
        ),
        all ∙ sum,
      )

  pub append_dm-Delivers :
      (dm : DnsMessage) (dms : List DnsMessage) (s : Client)
      → Delivers link dms s
      → Delivers link (dms ++ dm ∷ []) (append_dm link dm s)
  unfolding append_dm
  append_dm-Delivers dm dms s (ready, on, room, sum) =
      let s' : Client = record s { buffer = s.buffer ++ dm ∷ [] } in
      let sum' : s'.sent ++ encoded link.encode s'.buffer ≡ encoded link.encode (dms ++ dm ∷ []) =
        rw (encoded-append link.encode s.buffer (dm ∷ [])) (
          rw (encoded-append link.encode dms (dm ∷ [])) (
            sym (append_assoc s.sent (encoded link.encode s.buffer) (encoded link.encode (dm ∷ [])))
            ∙ ap (λ l. l ++ encoded link.encode (dm ∷ [])) sum)) in
      elim (Bool-cases (leb link.buffer_size (length s'.buffer))) [
        | inl e ↦ rw e (flush_buffer-Delivers (dms ++ dm ∷ []) s' ready on sum').0
        | inr e ↦ rw e (ready, on, grind arith, sum')
      ]

  sent-empty :
      {all : List Bytes} (bs : List Bytes) (dms : List DnsMessage)
      → bs ++ encoded link.encode dms ≡ all
      → ltb 0 (length dms) ≡ false
      → bs ≡ all
  unfolding encoded
  sent-empty bs [] sum e = sym (append-nil bs) ∙ sum
  sent-empty bs (dm ∷ dms) sum e = grind arith

  pub flush_due-Delivers :
      (dms : List DnsMessage) (s : Client)
      → Delivers link dms s
      → Delivers link dms (flush_due link s) × ((flush_due link s).sent ≡ encoded link.encode dms)
  unfolding flush_due encoded
  flush_due-Delivers dms s (ready, on, room, sum) = elim (Bool-cases (ltb 0 (length s.buffer))) [
    | inl e ↦ rw e (
        let ((same, timer, short, all), now) = flush_buffer-Delivers dms s ready on sum in
        ((same, refl, short, all), now))
    | inr e ↦ rw e ((ready, refl, room, sum), sent-empty s.sent s.buffer sum e)
  ]

  timer_fired-ready : (s : Client) → s.ready ≡ true → timer_fired link s ≡ flush_due link s
  unfolding timer_fired
  timer_fired-ready s ready = rw ready refl

  -- When the timer fires nothing is left to send.
  pub timer_fired-Delivers :
      (dms : List DnsMessage) (s : Client)
      → Delivers link dms s
      → Delivers link dms (timer_fired link s)
        × ((timer_fired link s).sent ≡ encoded link.encode dms)
  timer_fired-Delivers dms s d = rw (timer_fired-ready s d.0) (flush_due-Delivers dms s d)
