-- ===== src/Transform/Filtering/Downsample.antt =====
-- The sampling over a stream of messages.
use go_dns_collector.Base.{
  ℕ, ◌+◌, ◌*◌, ◌<◌, ◌≡◌, refl, ◌∙◌, ◌⊎◌, inl, inr, true, false, List, [], ◌∷◌, arith, ltb,
  if◌then◌else◌, Bool-cases, length, drop, string_key, bytes_key,
}
use go_dns_collector.Message.{DnsMessage}
use go_dns_collector.Transform.Config.{FilteringConfig}
use go_dns_collector.Transform.Filtering.{Matchers, Filtering, check_if_drop}
use go_dns_collector.Transform.Filtering.Decides.{
  at_count, unwanted, skipped, counted, check_if_drop-unwanted,
}

module _ (lib : Matchers) where
  -- The messages of a stream that CheckIfDrop lets pass, and the processor behind it.
  unfoldable pub pass : Filtering → List DnsMessage → Filtering × List DnsMessage
  pass p [] = (p, [])
  pass p (dm ∷ dms) =
      let (p', drop) = check_if_drop lib p dm in
      let (p'', kept) = pass p' dms in (p'', if drop then kept else dm ∷ kept)

  -- No message of the stream is unwanted for another reason.
  abbrev pub AllWanted : FilteringConfig → List DnsMessage → Type 0
  AllWanted c [] = Unit
  AllWanted c (dm ∷ dms) = (unwanted lib c dm ≡ false) × AllWanted c dms

  module _ (c : FilteringConfig) (sampled : 0 < c.downsample) where
    -- The count goes up by one, or falls back to zero where a message is kept.
    one_step :
        (k : ℕ)
        → k < c.downsample
        → ((skipped c k ≡ true) × (counted c k ≡ k + 1) × (k + 1 < c.downsample))
          ⊎ ((skipped c k ≡ false) × (counted c k ≡ 0) × (k + 1 ≡ c.downsample))
    unfolding counted skipped
    one_step k h = elim (Bool-cases (ltb (k + 1) c.downsample)) [
      | inl below ↦ inl (grind arith, grind arith, ground arith)
      | inr last ↦ inr (grind arith, grind arith, ground arith)
    ]

    -- From a count below the rate, the sampling of wanted messages keeps exactly every
    -- `downsample`-th: the kept ones times the rate, and the count that is left, make up the count
    -- before and the number of messages, with the new count below the rate again.
    pub pass-AllWanted :
        (dms : List DnsMessage) (k : ℕ)
        → k < c.downsample
        → AllWanted c dms
        → (k' : ℕ) × ((pass (at_count c k) dms).0 ≡ at_count c k')
          × (k' < c.downsample)
          × (length (pass (at_count c k) dms).1 * c.downsample + k' ≡ k + length dms)
    unfolding pass
    pass-AllWanted [] k h w = (k, refl, h, omega arith)
    pass-AllWanted (dm ∷ dms) k h (first, rest) =
        let decided : check_if_drop lib (at_count c k) dm
            ≡ (at_count c (counted c k), skipped c k) =
          check_if_drop-unwanted lib c k dm ∙ rw first in
        elim (one_step k h) [
          | inl (skip, count, below) ↦
              let (k', s, b, e) = pass-AllWanted dms (k + 1) below rest in
              (k', rw (decided, count) s, b, rw (decided, count, skip) (omega arith))
          | inr (keep, count, last) ↦
              let (k', s, b, e) = pass-AllWanted dms 0 sampled rest in
              (k', rw (decided, count) s, b, rw (decided, count, keep) (omega arith))
        ]
