-- ===== src/Loggers/LogFile/Sizes.antt =====
-- The sizes of the files of loggers/logfile.go, and lines cut by a rotation.
use go_dns_collector.Base.{
  ℕ, ◌+◌, ◌-◌, ◌≤◌, ◌≡◌, refl, ap, ◌∙◌, subst, ◌⊎◌, inl, inr, Bool, true, false, List, [], ◌∷◌,
  ◌++◌, arith, ltb, ◌==◌, if◌then◌else◌, Bool-cases, length, length-append, take, Bytes, codes,
  string_key, bytes_key,
}
use go_dns_collector.Loggers.LogFile.{
  Rotated, LogFile, ConfigLogFile, exists, remove, remove_file, remove_files, cleanup,
  flush_writers, rotate_file, is_file, sort_ints, timestamps, compress_suffix, append_data,
  write_to_plain, get_max_size, write_text, new_log_file,
}
use go_dns_collector.Loggers.LogFile.Kept.{write_all}

-- A size within the limit, or at most that of the largest single write.
abbrev pub Fits : ConfigLogFile → ℕ → ℕ → Type 0
Fits c largest size = (size ≤ get_max_size c) ⊎ (size ≤ largest)

abbrev pub AllFit : ConfigLogFile → ℕ → List Rotated → Type 0
AllFit c largest [] = Unit
AllFit c largest (f ∷ fs) = Fits c largest (length f.content) × AllFit c largest fs

-- `file_size` is the size of the open file with what its writer holds; this and the files of the
-- directory fit.
abbrev pub Sized : ConfigLogFile → ℕ → LogFile → Type 0
Sized c largest l =
    (l.file_size ≡ length (l.current ++ l.buffered))
    × Fits c largest l.file_size
    × AllFit c largest l.directory

module _ (c : ConfigLogFile) (largest : ℕ) where
  remove-AllFit :
      (t : ℕ) (suffix : Bytes) (fs : List Rotated)
      → AllFit c largest fs
      → AllFit c largest (remove t suffix fs)
  unfolding remove
  remove-AllFit t suffix [] fit = tt
  remove-AllFit t suffix (f ∷ fs) (first, fit) = elim (Bool-cases (is_file t suffix f)) [
    | inl e ↦ rw e fit
    | inr e ↦ rw e (first, remove-AllFit t suffix fs fit)
  ]

  remove_files-AllFit :
      (ts : List ℕ) (fs : List Rotated)
      → AllFit c largest fs
      → AllFit c largest (remove_files ts fs)
  unfolding remove_files remove_file
  remove_files-AllFit [] fs fit = fit
  remove_files-AllFit (t ∷ ts) fs fit =
      remove_files-AllFit ts (remove_file fs t) (elim (Bool-cases (exists t [] fs)) [
        | inl e ↦ rw e (remove-AllFit t [] fs fit)
        | inr e ↦ rw e (remove-AllFit t compress_suffix fs fit)
      ])

  if-AllFit :
      (b : Bool) (fs gs : List Rotated)
      → AllFit c largest fs
      → AllFit c largest gs
      → AllFit c largest (if b then fs else gs)
  if-AllFit true fs gs h k = h
  if-AllFit false fs gs h k = k

  cleanup-AllFit : (fs : List Rotated) → AllFit c largest fs → AllFit c largest (cleanup c fs)
  unfolding cleanup
  cleanup-AllFit fs fit =
      let log_files = sort_ints (timestamps fs) in
      let oldest = take (length log_files - c.max_files) log_files in
      if-AllFit (c.max_files == 0) fs (remove_files oldest fs) fit
        (remove_files-AllFit oldest fs fit)

  AllFit-append :
      (fs : List Rotated) (f : Rotated)
      → AllFit c largest fs
      → Fits c largest (length f.content)
      → AllFit c largest (fs ++ f ∷ [])
  AllFit-append [] f fit last = (last, tt)
  AllFit-append (g ∷ fs) f (first, fit) last = (first, AllFit-append fs f fit last)

  rotate_file-AllFit :
      (now : ℕ) (l : LogFile) → Sized c largest l → AllFit c largest (rotate_file c now l).directory
  unfolding rotate_file flush_writers
  rotate_file-AllFit now l (same, fits, fit) =
      let f : Rotated = record {
        timestamp = now;
        suffix = [];
        content = l.current ++ l.buffered;
      } in
      let before =
        if-AllFit (exists now [] l.directory) _ l.directory (remove-AllFit now [] l.directory fit)
          fit in
      let renamed = AllFit-append _ f before (subst (Fits c largest) same fits) in
      cleanup-AllFit _ (if-AllFit (c.removes now) _ _ (remove-AllFit now [] _ renamed) renamed)

  write_to_plain-within :
      (now : ℕ) (bytes : Bytes) (l : LogFile)
      → ltb (get_max_size c) (l.file_size + length bytes) ≡ false
      → write_to_plain c now bytes l ≡ append_data bytes l
  unfolding write_to_plain
  write_to_plain-within now bytes l e = rw e refl

  write_to_plain-beyond :
      (now : ℕ) (bytes : Bytes) (l : LogFile)
      → ltb (get_max_size c) (l.file_size + length bytes) ≡ true
      → write_to_plain c now bytes l ≡ append_data bytes (rotate_file c now l)
  unfolding write_to_plain
  write_to_plain-beyond now bytes l e = rw e refl

  rotated-Sized :
      (now : ℕ) (bytes : Bytes) (l : LogFile)
      → length bytes ≤ largest
      → AllFit c largest (rotate_file c now l).directory
      → Sized c largest (append_data bytes (rotate_file c now l))
  unfolding rotate_file
  rotated-Sized now bytes l small fit = (omega arith, inr (omega (arith, small)), fit)

  write_to_plain-Sized :
      (now : ℕ) (bytes : Bytes) (l : LogFile)
      → length bytes ≤ largest
      → Sized c largest l
      → Sized c largest (write_to_plain c now bytes l)
  write_to_plain-Sized now bytes l small (same, fits, fit) =
      elim (Bool-cases (ltb (get_max_size c) (l.file_size + length bytes))) [
        | inl e ↦
            rw (write_to_plain-beyond now bytes l e)
              (rotated-Sized now bytes l small (rotate_file-AllFit now l (same, fits, fit)))
        | inr e ↦ rw (write_to_plain-within now bytes l e) (
          omega (
            arith,
            same,
            length-append l.current (l.buffered ++ bytes),
            length-append l.current l.buffered,
            length-append l.buffered bytes,
          ),
          inl (grind arith),
          fit,
        )
      ]

-- All writes are at most so large.
abbrev pub AllSmall : ℕ → List (ℕ × Bytes) → Type 0
AllSmall largest [] = Unit
AllSmall largest ((now, bytes) ∷ ws) = (length bytes ≤ largest) × AllSmall largest ws

-- Whatever is written and however the files are limited and removed, `fileSize` stays the size of the
-- open file with what its writer holds, and this size and that of every file of the directory is
-- within the configured maximum, or at most that of the largest write.
pub write_all-Sized :
    (c : ConfigLogFile) (largest : ℕ) (ws : List (ℕ × Bytes)) (l : LogFile)
    → AllSmall largest ws
    → Sized c largest l
    → Sized c largest (write_all c ws l)
unfolding write_all
write_all-Sized c largest [] l small h = h
write_all-Sized c largest ((now, bytes) ∷ ws) l (first, small) h =
    write_all-Sized c largest ws (write_to_plain c now bytes l) small
      (write_to_plain-Sized c largest now bytes l first h)

rotate_file-plain :
    (c : ConfigLogFile) (now : ℕ) (l : LogFile)
    → c.max_files ≡ 0
    → c.removes now ≡ false
    → exists now [] l.directory ≡ false
    → rotate_file c now l
      ≡ new_log_file (
          l.directory
          ++ record { timestamp = now; suffix = []; content = l.current ++ l.buffered } ∷ [])
unfolding rotate_file cleanup flush_writers
rotate_file-plain c now l unlimited stays new = rw new (rw stays (rw unlimited refl))

-- When a line just fits and what ends it does not, the line ends the rotated file and its end starts
-- the next one. The number of files is not limited and none is removed.
pub write_text-cut :
    (c : ConfigLogFile) (now later : ℕ) (line : Bytes) (l : LogFile)
    → c.max_files ≡ 0
    → c.removes later ≡ false
    → exists later [] l.directory ≡ false
    → l.file_size + length line ≡ get_max_size c
    → write_text c now later line l
      ≡ append_data (codes "\n") (
          new_log_file (
            l.directory
            ++ record {
              timestamp = later;
              suffix = [];
              content = l.current ++ (l.buffered ++ line);
            }
              ∷ []))
unfolding write_text
write_text-cut c now later line l unlimited stays new full =
    let within : ltb (get_max_size c) (l.file_size + length line) ≡ false = grind (arith, full) in
    let beyond : ltb (get_max_size c) (l.file_size + length line + length (codes "\n")) ≡ true =
      grind (arith, full) in
    ap (write_to_plain c later (codes "\n")) (write_to_plain-within c 0 now line l within)
    ∙ write_to_plain-beyond c 0 later (codes "\n") (append_data line l) beyond
    ∙ ap (append_data (codes "\n"))
        (rotate_file-plain c later (append_data line l) unlimited stays new)
