-- ===== src/Loggers/Sender/Loop.antt =====
-- The loop of `Run` of a client, over the events until it is stopped.
use go_dns_collector.Base.{
  ◌≡◌, refl, Bool, true, false, List, [], ◌∷◌, if◌then◌else◌, Outcome, ok, err, panic, ◌>>=◌,
  string_key, bytes_key,
}
use go_dns_collector.Transform.Chain.{Transforms}
use go_dns_collector.Loggers.Sender.{Client, Event}

-- `step` is that of the client.
unfoldable pub run_client :
    (Event → Transforms → Client → Outcome ⊥ (Transforms × Client))
    → List Event
    → Transforms
    → Client
    → Outcome ⊥ (Transforms × Client)
run_client step [] p s = ok (p, s)
run_client step (e ∷ es) p s = step e p s >>= λ (p', s'). run_client step es p' s'

-- What holds of the client unless a transform panics.
abbrev pub Unless : (Client → Type 0) → Outcome ⊥ (Transforms × Client) → Type 0
Unless P (ok (p, s)) = P s
Unless P (err e) = ⊥
Unless P (panic c) = Unit

pub Unless-bind :
    (P Q : Client → Type 0) (o : Outcome ⊥ (Transforms × Client))
    (f : Transforms × Client → Outcome ⊥ (Transforms × Client))
    → Unless P o
    → ((p : Transforms) (s : Client) → P s → Unless Q (f (p, s)))
    → Unless Q (o >>= f)
Unless-bind P Q (ok (p, s)) f h next = next p s h
Unless-bind P Q (err e) f h next = e
Unless-bind P Q (panic c) f h next = tt

pub Unless-if :
    (P : Client → Type 0) (b : Bool) (x y : Outcome ⊥ (Transforms × Client))
    → Unless P x
    → (b ≡ false → Unless P y)
    → Unless P (if b then x else y)
Unless-if P true x y h k = h
Unless-if P false x y h k = k refl

pub Unless-weaken :
    (P Q : Client → Type 0) (o : Outcome ⊥ (Transforms × Client))
    → ((s : Client) → P s → Q s)
    → Unless P o
    → Unless Q o
Unless-weaken P Q (ok (p, s)) weaken h = weaken s h
Unless-weaken P Q (err e) weaken h = h
Unless-weaken P Q (panic c) weaken h = h
