-- ===== src/Base/Dict.antt =====
-- Go maps as association lists. A key type is an instance of `Key`.
use Prim.Native.Nat.{ℕ, ◌+◌}
use Prim.Native.String.{String}
use mathlib.Core.Path.{◌≡◌, refl, ap}
use mathlib.Core.Logic.{◌↔◌, inl, inr}
use mathlib.Core.Bool.{Bool, true, false}
use mathlib.Core.Option.{Option, none, some}
use mathlib.Core.List.{List, [], ◌∷◌}
use native.Mathlib.Omega.{arith}
use text.Mathlib.Text.{◌==◌ as str_eq}
use text.Mathlib.TextEquality.{eq_iff}
use go_dns_collector.Base.Num.{Bool-cases, if◌then◌else◌}
use go_dns_collector.Base.Text.{Bytes, bytes_eq, bytes_eq_iff}

pub record Key (K : Type 0) : Type 0 where
  pub same : K → K → Bool
  pub same_iff : (a b : K) → (same a b ≡ true) ↔ (a ≡ b)

instance abbrev pub string_key : Key String
string_key = record { same = str_eq; same_iff = eq_iff }

instance abbrev pub bytes_key : Key Bytes
bytes_key = record { same = bytes_eq; same_iff = bytes_eq_iff }

abbrev pub value_or {ℓ} : {V : Type ℓ} → V → Option V → V
value_or d none = d
value_or d (some v) = v

abbrev pub is_some {ℓ} : {V : Type ℓ} → Option V → Bool
is_some none = false
is_some (some v) = true

module _ {ℓ} {K : Type 0} ⦃key : Key K⦄ {V : Type ℓ} where
  unfoldable pub find : K → List (K × V) → Option V
  find k [] = none
  find k ((j, v) ∷ m) = if key.same j k then some v else find k m

  -- `if _, exists := m[k]; !exists { m[k] = d }`, then `m[k] = f(m[k])`
  unfoldable pub adjust : K → V → (V → V) → List (K × V) → List (K × V)
  adjust k d f [] = (k, f d) ∷ []
  adjust k d f ((j, v) ∷ m) = if key.same j k then (j, f v) ∷ m else (j, v) ∷ adjust k d f m

  pub find-adjust :
      (j k : K) (d : V) (f : V → V) (m : List (K × V))
      → find j (adjust k d f m)
        ≡ (if key.same k j then some (f (value_or d (find k m))) else find j m)
  unfolding find adjust
  find-adjust j k d f [] = refl
  find-adjust j k d f ((i, v) ∷ m) =
      ground (arith, key.same_iff k j, key.same_iff i k, key.same_iff i j, find-adjust j k d f m)

-- `if _, exists := m[k]; !exists { m[k] = 1 } else { m[k] += 1 }`
module _ {K : Type 0} ⦃key : Key K⦄ where
  unfoldable pub hit : K → List (K × ℕ) → List (K × ℕ)
  unfolding adjust
  hit k m = adjust k 0 (λ n. n + 1) m

  -- Reading a missing key gives zero.
  unfoldable pub hits_of : K → List (K × ℕ) → ℕ
  unfolding find
  hits_of k m = value_or 0 (find k m)

  pub hits_of-hit :
      (j k : K) (m : List (K × ℕ))
      → hits_of j (hit k m) ≡ (if key.same k j then 1 else 0) + hits_of j m
  unfolding hits_of hit
  hits_of-hit j k m = rw (find-adjust j k 0 (λ n. n + 1) m) (elim (Bool-cases (key.same k j)) [
    | inl e ↦ rw e (
        let same : k ≡ j = (key.same_iff k j).0 e in
        let there : value_or 0 (find k m) ≡ value_or 0 (find j m) =
          ap (λ i. value_or 0 (find i m)) same in
        omega (arith, there))
    | inr e ↦ rw e (omega arith)
  ])
