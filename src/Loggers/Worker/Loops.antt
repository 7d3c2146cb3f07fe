-- ===== src/Loggers/Worker/Loops.antt =====
-- What the loop of a logger promises, and the message that stops it.
use go_dns_collector.Base.{
  ◌≡◌, refl, sym, subst, true, false, none, List, [], ◌∷◌, Bytes, nil_pointer, ok, err, panic,
  Ensures, string_key, bytes_key, Ensures-bind,
}
use go_dns_collector.Message.{DnsMessage}
use go_dns_collector.Transform.Filtering.{Matchers, Filtering, check_if_drop, to_lower}
use go_dns_collector.Transform.Chain.{
  Lookups, Transform, effective_tld, return_success, return_drop, return_error, Transforms,
}
use go_dns_collector.Transform.Process.{
  Result, trim_dot, get_effective_tld, apply, apply_all, process_message,
}
use go_dns_collector.Transform.Process.Ready.{Prepared, Stays, Suited}
use go_dns_collector.Transform.Process.Safe.{process_message-Stays}
use go_dns_collector.Loggers.Worker.{Event, incoming, tick, unless_drop, handle, run_events}

-- Each message has the parts that the transforms read.
abbrev pub AllSuited : List Transform → List Event → Type 0
AllSuited ts [] = Unit
AllSuited ts (incoming dm ∷ es) = Suited ts dm × AllSuited ts es
AllSuited ts (tick ∷ es) = AllSuited ts es

-- The transforms stay those of `Prepare`, and the state keeps what it must.
abbrev pub KeptBy : {S : Type 0} → (S → Type 0) → Transforms × S → Type 0
KeptBy P (p, s) = Prepared p × P s

-- The transforms stay the same, too.
abbrev KeptAs : {S : Type 0} → List Transform → (S → Type 0) → Transforms × S → Type 0
KeptAs ts P (p, s) = (Prepared p × (p.active_transforms ≡ ts)) × P s

head_suited :
    (ts : List Transform) (e : Event) (es : List Event)
    → AllSuited ts (e ∷ es)
    → AllSuited ts (e ∷ [])
head_suited ts (incoming dm) es (suited, _) = (suited, tt)
head_suited ts tick es suited = tt

tail_suited :
    (ts : List Transform) (e : Event) (es : List Event) → AllSuited ts (e ∷ es) → AllSuited ts es
tail_suited ts (incoming dm) es (_, suited) = suited
tail_suited ts tick es suited = suited

module _ {S : Type 0} (lookups : Lookups) (matchers : Matchers) (keep : DnsMessage → S → S)
    (timer : S → S) (P : S → Type 0) where
  unless_drop-Kept :
      (ts : List Transform) (s : S) (r : Result)
      → ((dm : DnsMessage) → P s → P (keep dm s))
      → P s
      → Ensures (Stays ts) (λ e. ⊥) r
      → Ensures (KeptAs ts P) (λ e. ⊥) (unless_drop keep s r)
  unless_drop-Kept ts s (ok (p, dm, return_success)) k h safe = (safe, k dm h)
  unless_drop-Kept ts s (ok (p, dm, return_drop)) k h safe = (safe, h)
  unless_drop-Kept ts s (ok (p, dm, return_error)) k h safe = (safe, k dm h)
  unless_drop-Kept ts s (err e) k h safe = safe
  unless_drop-Kept ts s (panic c) k h safe = safe

  handle-Kept :
      (e : Event) (p : Transforms) (s : S)
      → ((dm : DnsMessage) (s : S) → P s → P (keep dm s))
      → ((s : S) → P s → P (timer s))
      → Prepared p
      → AllSuited p.active_transforms (e ∷ [])
      → P s
      → Ensures (KeptAs p.active_transforms P) (λ x. ⊥) (handle lookups matchers keep timer e p s)
  unfolding handle
  handle-Kept (incoming dm) p s k l prepared (suited, _) h =
      unless_drop-Kept p.active_transforms s _ (λ dm h. k dm s h) h
        (process_message-Stays lookups matchers p dm prepared suited)
  handle-Kept tick p s k l prepared suited h = ((prepared, refl), l s h)

  -- What each message and each tick keeps holds once the loop has read any events, and the loop does not
  -- panic, if the transforms are those that `Prepare` lists and each message has the parts that they
  -- read.
  pub run_events-Kept :
      (es : List Event) (p : Transforms) (s : S)
      → ((dm : DnsMessage) (s : S) → P s → P (keep dm s))
      → ((s : S) → P s → P (timer s))
      → Prepared p
      → AllSuited p.active_transforms es
      → P s
      → Ensures (KeptBy P) (λ e. ⊥) (run_events lookups matchers keep timer es p s)
  unfolding run_events
  run_events-Kept [] p s k l prepared suited h = (prepared, h)
  run_events-Kept (e ∷ es) p s k l prepared suited h =
      Ensures-bind (KeptAs p.active_transforms P) (KeptBy P) (λ e. ⊥)
        (handle lookups matchers keep timer e p s) _
        (handle-Kept e p s k l prepared (head_suited p.active_transforms e es suited) h)
        (λ (p', s') ((prepared', same), h').
          run_events-Kept es p' s' k l prepared'
            (subst (λ ts. AllSuited ts es) (sym same) (tail_suited p.active_transforms e es suited))
            h')

-- The first transform reads the public suffix, which a message that no collector initialised for it
-- lacks.
module _ (lookups : Lookups) (matchers : Matchers) (p : Transforms) (dm : DnsMessage)
    (f : Filtering) (etld : Bytes) (ts : List Transform) where
  apply-nil :
      lookups.public_suffix (trim_dot (to_lower dm.dns.qname)) ≡ (etld, true)
      → dm.public_suffix ≡ none
      → (q : Transforms) → apply lookups effective_tld q dm ≡ panic nil_pointer
  unfolding apply get_effective_tld
  apply-nil icann missing q = rw icann (rw missing refl)

  process_message-nil :
      check_if_drop matchers p.filtering dm ≡ (f, false)
      → p.active_transforms ≡ effective_tld ∷ ts
      → lookups.public_suffix (trim_dot (to_lower dm.dns.qname)) ≡ (etld, true)
      → dm.public_suffix ≡ none
      → process_message lookups matchers p dm ≡ panic nil_pointer
  unfolding process_message apply_all
  process_message-nil kept first icann missing = rw kept (
      rw first (
        rw
          (apply-nil icann missing
            (record p { filtering = f; active_transforms = effective_tld ∷ ts }))
          refl))

  -- A logger whose first outgoing transform adds the public suffix panics at the first message that its
  -- filters keep and that has an ICANN suffix, when the message carries no public suffix part yet:
  -- the loop of the logger does not add the part, as the collectors do for their own transforms.
  pub run_events-nil :
      {S : Type 0} (keep : DnsMessage → S → S) (timer : S → S) (es : List Event) (s : S)
      → check_if_drop matchers p.filtering dm ≡ (f, false)
      → p.active_transforms ≡ effective_tld ∷ ts
      → lookups.public_suffix (trim_dot (to_lower dm.dns.qname)) ≡ (etld, true)
      → dm.public_suffix ≡ none
      → run_events lookups matchers keep timer (incoming dm ∷ es) p s ≡ panic nil_pointer
  unfolding run_events handle
  run_events-nil keep timer es s kept first icann missing =
      rw (process_message-nil kept first icann missing) refl
