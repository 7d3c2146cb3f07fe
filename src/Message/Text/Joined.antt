-- ===== src/Message/Text/Joined.antt =====
-- When a message has a text, and what it is.
use go_dns_collector.Base.{
  ◌≡◌, refl, sym, ap, ◌∙◌, inl, inr, Bool, true, ◌||◌, Option, none, some, List, [], ◌∷◌, arith,
  Bool-cases, Bytes, bytes_eq, join, Outcome, ok, err, panic, string_key, bytes_key, is_some, find,
}
use go_dns_collector.Message.{DnsMessage}
use go_dns_collector.Message.Strings.{before_colon, after_colon}
use go_dns_collector.Message.Text.{
  Formats, Fatal, plain_fields, family_text, or_family, field, text,
}
use go_dns_collector.Message.Text.Directives.{Directive, name_of, value_of, find-name_of}
use go_dns_collector.Message.Text.Writable.{
  IsOk, TagIndex, Scored, tags_directive, pdns_text-IsOk, geoip_text-IsOk, suspicious_text-IsOk,
  public_suffix_text-IsOk,
}

abbrev value_ok : Bytes → Outcome Fatal Bytes → Bytes
value_ok d (ok a) = a
value_ok d (err e) = d
value_ok d (panic c) = d

ok_same : (r : Outcome Fatal Bytes) (a b : Bytes) → r ≡ ok a → r ≡ ok b → a ≡ b
ok_same r a b e e' = sym (ap (value_ok a) e) ∙ ap (value_ok a) e'

module _ (lib : Formats) where
  module _ (delimiter boundary : Bytes) (dm : DnsMessage) where
    -- A word whose directive is one of the plain names or matches one of the expressions.
    abbrev pub is_supported : Bytes → Bool
    is_supported word =
        let d = before_colon word in
        is_some (find d (plain_fields lib delimiter boundary dm))
        || (lib.pdns_directives d
            || (lib.geoip_directives d
                || (lib.suspicious_directives d || lib.public_suffix_directives d)))

    abbrev pub Supported : Bytes → Type 0
    Supported word =
        (is_supported word ≡ true)
        × TagIndex lib (bytes_eq (before_colon word) tags_directive) (after_colon word)

    abbrev pub AllSupported : List Bytes → Type 0
    AllSupported [] = Unit
    AllSupported (w ∷ ws) = Supported w × AllSupported ws

    family_text-IsOk :
        (word d : Bytes) (arg : Option Bytes)
        → (lib.pdns_directives d
            || (lib.geoip_directives d
                || (lib.suspicious_directives d || lib.public_suffix_directives d)))
          ≡ true
        → TagIndex lib (bytes_eq d tags_directive) arg
        → Scored dm.power_dns dm.suspicious
        → IsOk (family_text lib delimiter boundary dm word d arg)
    family_text-IsOk word d arg some_family index scored =
        elim (Bool-cases (lib.pdns_directives d)) [
          | inl e ↦ rw e (pdns_text-IsOk lib d arg dm.power_dns index)
          | inr e ↦ rw e (elim (Bool-cases (lib.geoip_directives d)) [
            | inl e' ↦ rw e' (geoip_text-IsOk lib d dm.geo)
            | inr e' ↦ rw e' (elim (Bool-cases (lib.suspicious_directives d)) [
              | inl k ↦ rw k (suspicious_text-IsOk lib d dm.power_dns dm.suspicious scored)
              | inr k ↦ rw k (
                  let last : lib.public_suffix_directives d ≡ true =
                    ground (arith, some_family, e, e', k) in
                  rw last (public_suffix_text-IsOk lib d dm.public_suffix))
            ])
          ])
        ]

    or_family-IsOk :
        (word : Bytes) (o : Option Bytes)
        → (is_some o
            || (lib.pdns_directives (before_colon word)
                || (lib.geoip_directives (before_colon word)
                    || (lib.suspicious_directives (before_colon word)
                        || lib.public_suffix_directives (before_colon word)))))
          ≡ true
        → TagIndex lib (bytes_eq (before_colon word) tags_directive) (after_colon word)
        → Scored dm.power_dns dm.suspicious
        → IsOk (or_family lib delimiter boundary dm word o)
    or_family-IsOk word none h index scored =
        family_text-IsOk word (before_colon word) (after_colon word) h index scored
    or_family-IsOk word (some b) h index scored = tt

    ok_value : {A : Type 0} (r : Outcome Fatal A) → IsOk r → (a : A) × (r ≡ ok a)
    ok_value (ok a) h = (a, refl)
    ok_value (err e) h = absurd h
    ok_value (panic c) h = absurd h

    -- Each value is the field of its word.
    abbrev pub Fields : List Bytes → List Bytes → Type 0
    Fields [] [] = Unit
    Fields [] (a ∷ l) = ⊥
    Fields (w ∷ ws) [] = ⊥
    Fields (w ∷ ws) (a ∷ l) = (field lib delimiter boundary dm w ≡ ok a) × Fields ws l

    joined :
        (w : Bytes) (ws : List Bytes) (a : Bytes) (l : List Bytes)
        → Fields (w ∷ ws) (a ∷ l)
        → text lib delimiter boundary dm (w ∷ ws) ≡ ok (join delimiter (a ∷ l))
    unfolding text join
    joined w [] a [] (h, _) = h
    joined w [] a (b ∷ l) (h, k) = absurd k
    joined w (v ∷ ws) a [] (h, k) = absurd k
    joined w (v ∷ ws) a (b ∷ l) (h, k) = rw h (rw (joined v ws b l k) refl)

    all-Fields :
        (ws : List Bytes)
        → AllSupported ws
        → Scored dm.power_dns dm.suspicious
        → (l : List Bytes) × Fields ws l
    unfolding field
    all-Fields [] h scored = ([], tt)
    all-Fields (w ∷ ws) ((known, index), h) scored =
        let (a, e) = ok_value (field lib delimiter boundary dm w) (
          or_family-IsOk w (find (before_colon w) (plain_fields lib delimiter boundary dm)) known
            index scored) in
        let (l, k) = all-Fields ws h scored in (a ∷ l, (e, k))

    joined_all :
        (w : Bytes) (ws : List Bytes)
        → (l : List Bytes) × Fields (w ∷ ws) l
        → (l : List Bytes) × Fields (w ∷ ws) l
          × (text lib delimiter boundary dm (w ∷ ws) ≡ ok (join delimiter l))
    joined_all w ws ([], k) = absurd k
    joined_all w ws (a ∷ l, k) = (a ∷ l, k, joined w ws a l k)

    -- A word that names a plain directive has its value.
    abbrev pub Described : List Bytes → List Bytes → Type 0
    Described [] l = Unit
    Described (w ∷ ws) [] = ⊥
    Described (w ∷ ws) (a ∷ l) =
        ((d : Directive) → before_colon w ≡ name_of d → a ≡ value_of lib delimiter boundary dm d)
        × Described ws l

    field-value_of :
        (w : Bytes) (d : Directive)
        → before_colon w ≡ name_of d
        → field lib delimiter boundary dm w ≡ ok (value_of lib delimiter boundary dm d)
    unfolding field
    field-value_of w d h = ap (or_family lib delimiter boundary dm w) (
        ap (λ k. find k (plain_fields lib delimiter boundary dm)) h
        ∙ find-name_of lib delimiter boundary dm d)

    Fields-Described : (ws l : List Bytes) → Fields ws l → Described ws l
    Fields-Described [] l k = tt
    Fields-Described (w ∷ ws) [] k = k
    Fields-Described (w ∷ ws) (a ∷ l) (h, k) = (
      λ d e. ok_same (field lib delimiter boundary dm w) a _ h (field-value_of w d e),
      Fields-Described ws l k,
    )

    -- With a format of known directives, whose tag directives have no argument or a number from 0, a
    -- message has a text, if it has a suspicious part wherever it has a PowerDNS part: each word of the
    -- format has a field, which is the directive's value where it is no expression's, and the text is
    -- the fields joined by the delimiter.
    pub text-Fields :
        (ws : List Bytes)
        → AllSupported ws
        → Scored dm.power_dns dm.suspicious
        → (l : List Bytes) × Fields ws l
          × Described ws l
          × (text lib delimiter boundary dm ws ≡ ok (join delimiter l))
    unfolding text join
    text-Fields [] h scored = ([], tt, tt, refl)
    text-Fields (w ∷ ws) h scored =
        let (l, k, e) = joined_all w ws (all-Fields (w ∷ ws) h scored) in
        (l, k, Fields-Described (w ∷ ws) l k, e)
