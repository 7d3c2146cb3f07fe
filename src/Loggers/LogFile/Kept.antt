-- ===== src/Loggers/LogFile/Kept.antt =====
-- What is written to the files of loggers/logfile.go is in them, in its order.
use go_dns_collector.Base.{
  ℕ, ◌+◌, ◌≤◌, ◌<◌, ◌≡◌, refl, sym, ap, ◌∙◌, inl, inr, Bool, true, false, List, [], ◌∷◌, ◌++◌,
  append-nil, append_assoc, arith, ltb, ◌==◌, if◌then◌else◌, Bool-cases, length, Bytes, string_key,
  bytes_key,
}
use go_dns_collector.Loggers.LogFile.{
  Rotated, LogFile, ConfigLogFile, exists, cleanup, flush_writers, rotate_file, append_data,
  write_to_plain, get_max_size,
}

abbrev pub contents : List Rotated → Bytes
contents [] = []
contents (f ∷ fs) = f.content ++ contents fs

-- All that the files hold, the oldest first, and the writer behind them.
abbrev pub all_data : LogFile → Bytes
all_data l = contents l.directory ++ (l.current ++ l.buffered)

-- No file of the directory has the name that a rotation at the time gives.
abbrev pub IsNew : ℕ → LogFile → Type 0
IsNew now l = exists now [] l.directory ≡ false

contents-append : (fs gs : List Rotated) → contents (fs ++ gs) ≡ contents fs ++ contents gs
contents-append [] gs = refl
contents-append (f ∷ fs) gs =
    ap (λ b. f.content ++ b) (contents-append fs gs)
    ∙ sym (append_assoc f.content (contents fs) (contents gs))

module _ (c : ConfigLogFile) (unlimited : c.max_files ≡ 0)
    (stays : (now : ℕ) → c.removes now ≡ false) where
  rotate_file-all_data :
      (now : ℕ) (l : LogFile) → IsNew now l → all_data (rotate_file c now l) ≡ all_data l
  unfolding rotate_file cleanup flush_writers
  rotate_file-all_data now l new =
      let last : Rotated = record {
        timestamp = now;
        suffix = [];
        content = l.current ++ l.buffered;
      } in
      rw new (
        rw (stays now) (
          rw unlimited (
            append-nil (contents (l.directory ++ last ∷ []))
            ∙ contents-append l.directory (last ∷ [])
            ∙ ap (λ b. contents l.directory ++ b) (append-nil (l.current ++ l.buffered)))))

  append_data-all_data :
      (bytes : Bytes) (l : LogFile) → all_data (append_data bytes l) ≡ all_data l ++ bytes
  append_data-all_data bytes l =
      ap (λ b. contents l.directory ++ b) (sym (append_assoc l.current l.buffered bytes))
      ∙ sym (append_assoc (contents l.directory) (l.current ++ l.buffered) bytes)

  when_full :
      (full : Bool) (now : ℕ) (l : LogFile)
      → IsNew now l
      → all_data (if full then rotate_file c now l else l) ≡ all_data l
  when_full true now l new = rotate_file-all_data now l new
  when_full false now l new = refl

  write_to_plain-all_data :
      (now : ℕ) (bytes : Bytes) (l : LogFile)
      → IsNew now l
      → all_data (write_to_plain c now bytes l) ≡ all_data l ++ bytes
  unfolding write_to_plain
  write_to_plain-all_data now bytes l new =
      let full = ltb (get_max_size c) (l.file_size + length bytes) in
      append_data-all_data bytes (if full then rotate_file c now l else l)
      ∙ ap (λ b. b ++ bytes) (when_full full now l new)

-- The files of the directory are older than a time.
abbrev pub OlderThan : ℕ → List Rotated → Type 0
OlderThan t [] = Unit
OlderThan t (f ∷ fs) = (f.timestamp < t) × OlderThan t fs

exists-OlderThan :
    (t now : ℕ) (fs : List Rotated) → t ≤ now → OlderThan t fs → exists now [] fs ≡ false
unfolding exists
exists-OlderThan t now [] h older = refl
exists-OlderThan t now (f ∷ fs) h (first, older) =
    let other : (f.timestamp == now) ≡ false = ground (arith, h, first) in
    rw other (exists-OlderThan t now fs h older)

OlderThan-later : (t u : ℕ) (fs : List Rotated) → t ≤ u → OlderThan t fs → OlderThan u fs
OlderThan-later t u [] h older = tt
OlderThan-later t u (f ∷ fs) h (first, older) =
    (omega (arith, h, first), OlderThan-later t u fs h older)

OlderThan-append :
    (t : ℕ) (fs gs : List Rotated) → OlderThan t fs → OlderThan t gs → OlderThan t (fs ++ gs)
OlderThan-append t [] gs older h = h
OlderThan-append t (f ∷ fs) gs (first, older) h = (first, OlderThan-append t fs gs older h)

-- Writes with their times, which do not stand before `t` and increase.
abbrev pub Clock : ℕ → List (ℕ × Bytes) → Type 0
Clock t [] = Unit
Clock t ((now, bytes) ∷ ws) = (t ≤ now) × Clock (now + 1) ws

unfoldable pub write_all : ConfigLogFile → List (ℕ × Bytes) → LogFile → LogFile
write_all c [] l = l
write_all c ((now, bytes) ∷ ws) l = write_all c ws (write_to_plain c now bytes l)

abbrev pub written : List (ℕ × Bytes) → Bytes
written [] = []
written ((now, bytes) ∷ ws) = bytes ++ written ws

module _ (c : ConfigLogFile) (unlimited : c.max_files ≡ 0)
    (stays : (now : ℕ) → c.removes now ≡ false) where
  write_to_plain-OlderThan :
      (t now : ℕ) (bytes : Bytes) (l : LogFile)
      → t ≤ now
      → OlderThan t l.directory
      → OlderThan (now + 1) (write_to_plain c now bytes l).directory
  unfolding write_to_plain rotate_file cleanup flush_writers
  write_to_plain-OlderThan t now bytes l h older =
      let older' = OlderThan-later t (now + 1) l.directory (omega (arith, h)) older in
      elim (Bool-cases (ltb (get_max_size c) (l.file_size + length bytes))) [
        | inl e ↦ rw e (
            rw (exists-OlderThan t now l.directory h older) (
              rw (stays now)
                (rw unlimited (OlderThan-append (now + 1) l.directory _ older' (omega arith, tt)))))
        | inr e ↦ rw e older'
      ]

  -- With no limit on the number of files and no command that removes them, and times that increase and
  -- are later than those of the files in the directory, the files and the writer hold what they held
  -- before and behind it all that is written, in its order, wherever the files are rotated.
  pub write_all-all_data :
      (ws : List (ℕ × Bytes)) (t : ℕ) (l : LogFile)
      → Clock t ws
      → OlderThan t l.directory
      → all_data (write_all c ws l) ≡ all_data l ++ written ws
  unfolding write_all
  write_all-all_data [] t l clock older = sym (append-nil (all_data l))
  write_all-all_data ((now, bytes) ∷ ws) t l (h, clock) older =
      write_all-all_data ws (now + 1) (write_to_plain c now bytes l) clock
        (write_to_plain-OlderThan t now bytes l h older)
      ∙ ap (λ b. b ++ written ws)
          (write_to_plain-all_data c unlimited stays now bytes l
            (exists-OlderThan t now l.directory h older))
      ∙ append_assoc (all_data l) bytes (written ws)
