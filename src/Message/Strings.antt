-- ===== src/Message/Strings.antt =====
-- What dnsutils/message.go uses of the package strings, on bytes.
use go_dns_collector.Base.{
  ℕ, zero, suc, ◌-◌, Bool, true, false, ◌&&◌, ◌||◌, Option, none, some, [], ◌∷◌, ◌++◌, ◌==◌,
  if◌then◌else◌, length, Bytes, string_key, bytes_key,
}

-- strings.SplitN(word, ":", 2)
unfoldable pub before_colon : Bytes → Bytes
before_colon [] = []
before_colon (c ∷ cs) = let rest = before_colon cs in if c == b':' then [] else c ∷ rest

unfoldable pub after_colon : Bytes → Option Bytes
after_colon [] = none
after_colon (c ∷ cs) = let rest = after_colon cs in if c == b':' then some cs else rest

-- strings.HasPrefix, strings.Contains and strings.ReplaceAll
unfoldable pub has_prefix : Bytes → Bytes → Bool
has_prefix [] s = true
has_prefix (x ∷ p) [] = false
has_prefix (x ∷ p) (y ∷ s) = x == y && has_prefix p s

unfoldable pub contains : Bytes → Bytes → Bool
unfolding has_prefix
contains p [] = has_prefix p []
contains p (c ∷ s) = has_prefix p (c ∷ s) || contains p s

-- `skip` bytes of an occurrence are still to be passed over.
unfoldable pub replace_from : Bytes → Bytes → Bytes → ℕ → Bytes
unfolding has_prefix
replace_from [] p new skip = []
replace_from (c ∷ s) p new zero =
    let over = replace_from s p new (length p - 1) in
    let kept = replace_from s p new 0 in if has_prefix p (c ∷ s) then new ++ over else c ∷ kept
replace_from (c ∷ s) p new (suc n) = replace_from s p new n

abbrev pub spread : Bytes → Bytes → Bytes
spread new [] = new
spread new (c ∷ s) = new ++ (c ∷ spread new s)

-- An empty pattern is found before each byte and at the end; the names are ASCII.
unfoldable pub replace_all : Bytes → Bytes → Bytes → Bytes
unfolding replace_from
replace_all s [] new = spread new s
replace_all s (x ∷ p) new = replace_from s (x ∷ p) new 0
