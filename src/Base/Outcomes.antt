-- ===== src/Base/Outcomes.antt =====
-- What a Go function does: return a value, return an error, or panic.
use Prim.Native.Nat.{ℕ, ◌+◌, ◌-◌, ◌*◌, ◌≤◌}
use mathlib.Core.Path.{◌≡◌, refl}
use mathlib.Core.Bool.{Bool, true, false, ◌&&◌}
use go_dns_collector.Base.Num.{ltb, leb, le→leb, if◌then◌else◌}
use go_dns_collector.Base.Lists.{length, get_or, take, drop}
use go_dns_collector.Base.Text.{Bytes}

-- `out_of_range`, `nil_pointer` and `nil_assertion` (a type assertion on a nil interface) are Go run-time
-- panics; `out_of_fuel` is the model's own.
pub data Fault : Type 0 where
  out_of_range nil_pointer nil_assertion out_of_fuel : Fault

pub data Outcome {ℓ κ} (E : Type ℓ) (A : Type κ) : Type (ℓ ⊔ κ) where
  ok : A → Outcome E A
  err : E → Outcome E A
  panic : Fault → Outcome E A

infixl 5 ◌>>=◌
abbrev pub ◌>>=◌ {ℓ κ ι} :
    {E : Type ℓ} {A : Type κ} {B : Type ι} → Outcome E A → (A → Outcome E B) → Outcome E B
ok a >>= f = f a
err e >>= f = err e
panic c >>= f = panic c

-- `if err != nil { return ..., err }` with other results beside the error
abbrev pub map_err {ℓ ι κ} :
    {E : Type ℓ} {F : Type ι} {A : Type κ} → (E → F) → Outcome E A → Outcome F A
map_err f (ok a) = ok a
map_err f (err e) = err (f e)
map_err f (panic c) = panic c

-- No panic; `P` of the value, `Q` of the error.
abbrev pub Ensures {ℓ κ} :
    {E : Type ℓ} {A : Type κ} → (A → Type 0) → (E → Type 0) → Outcome E A → Type 0
Ensures P Q (ok a) = P a
Ensures P Q (err e) = Q e
Ensures P Q (panic c) = ⊥

-- `p[i]`
unfoldable pub byte_at {ℓ} : {E : Type ℓ} → ℕ → Bytes → Outcome E ℕ
byte_at i p = if ltb i (length p) then ok (get_or p i 0) else panic out_of_range

-- The big-endian words at `i`, for an `i` in range.
abbrev pub be16 : ℕ → Bytes → ℕ
be16 i p = get_or p i 0 * 256 + get_or p (i + 1) 0

abbrev pub be32 : ℕ → Bytes → ℕ
be32 i p = be16 i p * 65536 + be16 (i + 2) p

-- `binary.BigEndian.Uint16(p[i : i+2])` and `Uint32(p[i : i+4])`
unfoldable pub uint16_at {ℓ} : {E : Type ℓ} → ℕ → Bytes → Outcome E ℕ
uint16_at i p = if leb (i + 2) (length p) then ok (be16 i p) else panic out_of_range

unfoldable pub uint32_at {ℓ} : {E : Type ℓ} → ℕ → Bytes → Outcome E ℕ
uint32_at i p = if leb (i + 4) (length p) then ok (be32 i p) else panic out_of_range

-- `p[a:b]`; Go lets `b` reach the capacity, the model only the length
unfoldable pub slice {ℓ} : {E : Type ℓ} → ℕ → ℕ → Bytes → Outcome E Bytes
slice a b p =
    if leb a b && leb b (length p) then ok (take (b - a) (drop a p)) else panic out_of_range

module _ {ℓ κ ι} {E : Type ℓ} {A : Type κ} {B : Type ι} where
  pub Ensures-bind :
      (P : A → Type 0) (R : B → Type 0) (Q : E → Type 0) (m : Outcome E A) (f : A → Outcome E B)
      → Ensures P Q m
      → ((a : A) → P a → Ensures R Q (f a))
      → Ensures R Q (m >>= f)
  Ensures-bind P R Q (ok a) f h k = k a h
  Ensures-bind P R Q (err e) f h k = h
  Ensures-bind P R Q (panic c) f h k = absurd h

module _ {ℓ κ ι} {E : Type ℓ} {F : Type ι} {A : Type κ} where
  pub Ensures-map_err :
      (P : A → Type 0) (Q : E → Type 0) (R : F → Type 0) (m : Outcome E A) (g : E → F)
      → Ensures P Q m
      → ((e : E) → Q e → R (g e))
      → Ensures P R (map_err g m)
  Ensures-map_err P Q R (ok a) g h k = h
  Ensures-map_err P Q R (err e) g h k = k e h
  Ensures-map_err P Q R (panic c) g h k = absurd h

module _ {ℓ κ} {E : Type ℓ} {A : Type κ} where
  pub Ensures-weaken :
      (P R : A → Type 0) (Q S : E → Type 0) (m : Outcome E A)
      → Ensures P Q m
      → ((a : A) → P a → R a)
      → ((e : E) → Q e → S e)
      → Ensures R S m
  Ensures-weaken P R Q S (ok a) h f g = f a h
  Ensures-weaken P R Q S (err e) h f g = g e h
  Ensures-weaken P R Q S (panic c) h f g = absurd h

-- `len(p[i:])`
unfoldable pub tail_length {ℓ} : {E : Type ℓ} → ℕ → Bytes → Outcome E ℕ
tail_length i p = if leb i (length p) then ok (length p - i) else panic out_of_range

-- The rules for a guard and for the reads, at an index in range.
module _ {ℓ κ} {E : Type ℓ} {A : Type κ} (P : A → Type 0) (Q : E → Type 0) where
  pub Ensures-guard :
      (b : Bool) (e : E) (m : Outcome E A)
      → Q e
      → (b ≡ false → Ensures P Q m)
      → Ensures P Q (if b then err e else m)
  Ensures-guard true e m q h = q
  Ensures-guard false e m q h = h refl

  pub Ensures-else :
      (b : Bool) (m n : Outcome E A) → b ≡ false → Ensures P Q n → Ensures P Q (if b then m else n)
  Ensures-else true m n e h = cc
  Ensures-else false m n e h = h

  pub Ensures-uint16 :
      (i : ℕ) (p : Bytes) (f : ℕ → Outcome E A)
      → i + 2 ≤ length p
      → Ensures P Q (f (be16 i p))
      → Ensures P Q (uint16_at i p >>= f)
  unfolding uint16_at
  Ensures-uint16 i p f h k = rw (le→leb _ _ h) k

  pub Ensures-uint32 :
      (i : ℕ) (p : Bytes) (f : ℕ → Outcome E A)
      → i + 4 ≤ length p
      → Ensures P Q (f (be32 i p))
      → Ensures P Q (uint32_at i p >>= f)
  unfolding uint32_at
  Ensures-uint32 i p f h k = rw (le→leb _ _ h) k

  pub Ensures-slice :
      (a b : ℕ) (p : Bytes) (f : Bytes → Outcome E A)
      → a ≤ b
      → b ≤ length p
      → Ensures P Q (f (take (b - a) (drop a p)))
      → Ensures P Q (slice a b p >>= f)
  unfolding slice
  Ensures-slice a b p f h h' k = rw (le→leb _ _ h) (rw (le→leb _ _ h') k)

  pub Ensures-tail_length :
      (i : ℕ) (p : Bytes) (f : ℕ → Outcome E A)
      → i ≤ length p
      → Ensures P Q (f (length p - i))
      → Ensures P Q (tail_length i p >>= f)
  unfolding tail_length
  Ensures-tail_length i p f h k = rw (le→leb _ _ h) k
