-- ===== src/Dns/Labels/Bits.antt =====
-- The bit masks of `ParseLabels` on length bytes and pointer words, by evaluation at every value.
use go_dns_collector.Base.{
  ℕ, zero, suc, ◌+◌, ◌*◌, ◌/◌, ◌%◌, ◌<◌, bit_and, ◌≡◌, refl, Bool, true, false, arith, ◌==◌,
  if◌then◌else◌, ==_iff, string_key, bytes_key,
}

module _ (test : ℕ → Bool) where
  holds_up_to : ℕ → Bool
  holds_up_to zero = true
  holds_up_to (suc bound) = if test bound then holds_up_to bound else false

  test_within : (bound value : ℕ) → value < bound → holds_up_to bound ≡ true → test value ≡ true
  unfolding holds_up_to
  test_within zero value lt holds = absurd (omega arith)
  test_within (suc bound) value lt holds = ground (arith, test_within bound value)

labels_hold : holds_up_to (λ size. bit_and size 0xc0 == 0) 64 ≡ true
unfolding holds_up_to
labels_hold = refl

-- The two top bits of a label's length are clear.
pub label_bits : (size : ℕ) → size < 64 → bit_and size 0xc0 ≡ 0
label_bits size small =
    (==_iff _ 0).0 (test_within (λ n. bit_and n 0xc0 == 0) 64 size small labels_hold)

words_hold : holds_up_to (λ t. bit_and ((192 + t / 256) * 256 + t % 256) 16383 == t) 16384 ≡ true
unfolding holds_up_to
words_hold = refl

-- The mask takes the target out of a pointer.
pub pointer_word :
    (target : ℕ)
    → target < 16384
    → bit_and ((192 + target / 256) * 256 + target % 256) 16383 ≡ target
pointer_word target small = (==_iff _ target).0 (
    test_within (λ t. bit_and ((192 + t / 256) * 256 + t % 256) 16383 == t) 16384 target small
      words_hold)

pointers_hold : holds_up_to (λ high. bit_and (192 + high) 0xc0 == 0xc0) 64 ≡ true
unfolding holds_up_to
pointers_hold = refl

-- The two top bits of a pointer's first byte are set.
pub pointer_bits : (high : ℕ) → high < 64 → bit_and (192 + high) 0xc0 ≡ 0xc0
pointer_bits high small =
    (==_iff _ 0xc0).0
      (test_within (λ h. bit_and (192 + h) 0xc0 == 0xc0) 64 high small pointers_hold)
