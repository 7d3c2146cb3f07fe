-- ===== src/Loggers/Loki/Delivered.antt =====
-- Every entry of loggers/lokiclient.go is in a batch or waits for one.
use go_dns_collector.Base.{
  ℕ, ◌+◌, ◌<◌, String, ◌≡◌, refl, sym, ap, ◌∙◌, subst, inl, inr, true, false, none, List, [], ◌∷◌,
  ◌++◌, append-nil, append_assoc, arith, str_eq, eq_iff, ltb, if◌then◌else◌, Bool-cases, length,
  Bytes, string_key, bytes_key, value_or, find, adjust, find-adjust,
}
use go_dns_collector.Message.{DnsMessage}
use go_dns_collector.Loggers.Loki.{
  Entry, LokiStream, LokiClient, no_entries, entry_of, add_entry, is_full, after_entry,
}
use go_dns_collector.Loggers.Loki.Succeeds.{appended, batches, reset_all, flushed}

-- The entries of a stream in some batches.
pub sent_of : String → List (String × List Entry) → List Entry
sent_of id [] = []
sent_of id ((k, es) ∷ bs) = let rest = sent_of id bs in if str_eq k id then es ++ rest else rest

sent_of-append :
    (id : String) (a b : List (String × List Entry))
    → sent_of id (a ++ b) ≡ sent_of id a ++ sent_of id b
unfolding sent_of
sent_of-append id [] b = refl
sent_of-append id ((k, es) ∷ a) b = elim (Bool-cases (str_eq k id)) [
  | inl e ↦ rw e (
      ap (λ l. es ++ l) (sent_of-append id a b)
      ∙ sym (append_assoc es (sent_of id a) (sent_of id b)))
  | inr e ↦ rw e (sent_of-append id a b)
]

sent-same :
    (id k : String) (bs : List (String × List Entry)) (es : List Entry)
    → str_eq k id ≡ true
    → sent_of id (bs ++ (k, es) ∷ []) ≡ sent_of id bs ++ es
unfolding sent_of
sent-same id k bs es e =
    sent_of-append id bs ((k, es) ∷ []) ∙ rw e (ap (λ l. sent_of id bs ++ l) (append-nil es))

sent-other :
    (id k : String) (bs : List (String × List Entry)) (es : List Entry)
    → str_eq k id ≡ false
    → sent_of id (bs ++ (k, es) ∷ []) ≡ sent_of id bs
unfolding sent_of
sent-other id k bs es e = sent_of-append id bs ((k, es) ∷ []) ∙ rw e (append-nil (sent_of id bs))

abbrev pub pending : String → List (String × LokiStream) → List Entry
pending id streams = (value_or no_entries (find id streams)).entries

-- What of a stream was sent, and what waits.
abbrev pub entries_of : String → LokiClient → List Entry
entries_of id c = sent_of id c.sent ++ pending id c.streams

-- The length of the lines of some entries.
unfoldable pub lines_size : List Entry → ℕ
lines_size [] = 0
lines_size (e ∷ es) = length e.line + lines_size es

pub lines_size-append : (a b : List Entry) → lines_size (a ++ b) ≡ lines_size a + lines_size b
unfolding lines_size
lines_size-append [] b = omega arith
lines_size-append (e ∷ a) b = omega (arith, lines_size-append a b)

-- No stream is there twice, the size of each is that of the lines that wait, and smaller than a batch.
abbrev pub IsTable : ℕ → List (String × LokiStream) → Type 0
IsTable batch_size [] = Unit
IsTable batch_size ((k, s) ∷ m) =
    (find k m ≡ none)
    × (s.size_entries ≡ lines_size s.entries)
    × (lines_size s.entries < batch_size)
    × IsTable batch_size m

batches-missing :
    (id : String) (m : List (String × LokiStream)) → find id m ≡ none → sent_of id (batches m) ≡ []
unfolding batches find sent_of
batches-missing id [] e = refl
batches-missing id ((k, s) ∷ m) e = ground (arith, batches-missing id m)

empty_length : (es : List Entry) → ltb 0 (length es) ≡ false → es ≡ []
empty_length [] e = refl
empty_length (x ∷ es) e = grind arith

reset_all-pending : (id : String) (m : List (String × LokiStream)) → pending id (reset_all m) ≡ []
unfolding reset_all find
reset_all-pending id [] = refl
reset_all-pending id ((k, s) ∷ m) = elim (Bool-cases (str_eq k id)) [
  | inl e ↦
      rw (e, pending)
        (elim (Bool-cases (ltb 0 (length s.entries))) [
          | inl some_entries ↦ rw some_entries refl
          | inr empty ↦ rw empty (empty_length s.entries empty)
        ])
  | inr e ↦ rw (e, pending) (reset_all-pending id m)
]

batches-pending :
    (n : ℕ) (id : String) (m : List (String × LokiStream))
    → IsTable n m
    → sent_of id (batches m) ≡ pending id m
unfolding batches find sent_of
batches-pending n id [] t = refl
batches-pending n id ((k, s) ∷ m) (new, sized, small, t) = elim (Bool-cases (str_eq k id)) [
  | inl e ↦
      let same : k ≡ id = (eq_iff k id).0 e in
      let missing = batches-missing id m (subst (λ j. find j m ≡ none) same new) in
      elim (Bool-cases (ltb 0 (length s.entries))) [
        | inl some_entries ↦ rw some_entries (rw (e, pending) (rw missing (append-nil s.entries)))
        | inr empty ↦ rw empty (rw (e, pending) (missing ∙ sym (empty_length s.entries empty)))
      ]
  | inr e ↦ elim (Bool-cases (ltb 0 (length s.entries))) [
    | inl some_entries ↦ rw some_entries (rw (e, pending) (batches-pending n id m t))
    | inr empty ↦ rw empty (rw (e, pending) (batches-pending n id m t))
  ]
]

pub flushed-entries_of :
    (n : ℕ) (id : String) (c : LokiClient)
    → IsTable n c.streams
    → entries_of id (flushed c) ≡ entries_of id c
unfolding flushed
flushed-entries_of n id c t = rw (reset_all-pending id c.streams) (
    append-nil (sent_of id (c.sent ++ batches c.streams))
    ∙ sent_of-append id c.sent (batches c.streams)
    ∙ ap (λ l. sent_of id c.sent ++ l) (batches-pending n id c.streams t))

module _ (line : DnsMessage → Bytes) (batch_size : ℕ) where
  adjust-pending :
      (id : String) (dm : DnsMessage) (m : List (String × LokiStream))
      → pending id (adjust dm.dns_tap.identity no_entries (after_entry batch_size (line dm) dm) m)
        ≡ (if str_eq dm.dns_tap.identity id
            then (after_entry batch_size
                (line dm)
                dm
                (value_or no_entries (find dm.dns_tap.identity m))).entries
            else pending id m)
  adjust-pending id dm m =
      ap (λ o. (value_or no_entries o).entries)
        (find-adjust id dm.dns_tap.identity no_entries (after_entry batch_size (line dm) dm) m)
      ∙ elim (Bool-cases (str_eq dm.dns_tap.identity id)) [ inl e ↦ rw e refl | inr e ↦ rw e refl ]

  -- The entry of a message, when it is of the stream.
  abbrev pub entry_if : String → DnsMessage → List Entry
  entry_if id dm = if str_eq dm.dns_tap.identity id then entry_of (line dm) dm ∷ [] else []

  pub appended-entries_of :
      (id : String) (dm : DnsMessage) (c : LokiClient)
      → entries_of id (appended line batch_size dm c) ≡ entries_of id c ++ entry_if id dm
  unfolding appended
  appended-entries_of id dm c =
      let old = value_or no_entries (find dm.dns_tap.identity c.streams) in
      let one = entry_of (line dm) dm in
      rw (adjust-pending id dm c.streams) (elim (Bool-cases (str_eq dm.dns_tap.identity id)) [
        | inl e ↦
            let same : dm.dns_tap.identity ≡ id = (eq_iff dm.dns_tap.identity id).0 e in
            let now : old.entries ≡ pending id c.streams = ap (λ k. pending k c.streams) same in
            elim (Bool-cases (is_full batch_size (add_entry (line dm) dm old))) [
              | inl full ↦ rw e (
                  rw full (
                    append-nil _
                    ∙ sent-same id dm.dns_tap.identity c.sent (old.entries ++ one ∷ []) e
                    ∙ sym (append_assoc (sent_of id c.sent) old.entries (one ∷ []))
                    ∙ ap (λ l. (sent_of id c.sent ++ l) ++ one ∷ []) now))
              | inr short ↦ rw e (
                  rw short (
                    sym (append_assoc (sent_of id c.sent) old.entries (one ∷ []))
                    ∙ ap (λ l. (sent_of id c.sent ++ l) ++ one ∷ []) now))
            ]
        | inr e ↦ elim (Bool-cases (is_full batch_size (add_entry (line dm) dm old))) [
          | inl full ↦ rw e (
              rw full (
                ap (λ l. l ++ pending id c.streams)
                  (sent-other id dm.dns_tap.identity c.sent (old.entries ++ one ∷ []) e)
                ∙ sym (append-nil (entries_of id c))))
          | inr short ↦ rw e (rw short (sym (append-nil (entries_of id c))))
        ]
      ])
