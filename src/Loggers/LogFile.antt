-- ===== src/Loggers/LogFile.antt =====
-- The files of loggers/logfile.go in its text and JSON modes: writes, rotation and cleanup. The calls of
-- the operating system succeed. The directory is the list of its entries whose name starts with the
-- prefix, a timestamp and the extension; the regular expression of `Cleanup` ends there, so a suffix
-- may follow. Every call has the time that `time.Now` gives it.
pub mod Kept
pub mod Cleanup
pub mod Sizes
mod Examples
use go_dns_collector.Base.{
  ℕ, ◌+◌, ◌-◌, ◌*◌, Bool, false, ◌&&◌, ◌||◌, List, [], ◌∷◌, ◌++◌, map, ltb, leb, ◌==◌,
  if◌then◌else◌, length, take, Bytes, codes, bytes_eq,
}

pub record Rotated : Type 0 where
  pub timestamp : ℕ
  pub suffix : Bytes
  pub content : Bytes

-- `current` is the content of the file that is open, `buffered` what its writer holds.
pub record LogFile : Type 0 where
  pub directory : List Rotated
  pub current : Bytes
  pub buffered : Bytes
  pub file_size : ℕ

-- `removes` says whether PostRotateCommand is set, succeeds on the file of a time and that file is to be deleted.
pub record ConfigLogFile : Type 0 where
  pub max_size : ℕ
  pub max_files : ℕ
  pub removes : ℕ → Bool

-- compressSuffix
abbrev pub compress_suffix : Bytes
compress_suffix = codes ".gz"

-- OpenFile on a path where the directory has nothing.
abbrev pub new_log_file : List Rotated → LogFile
new_log_file directory = record {
  directory = directory;
  current = [];
  buffered = [];
  file_size = 0;
}

abbrev pub get_max_size : ConfigLogFile → ℕ
get_max_size c = 1024 * 1024 * c.max_size

-- sort.Ints
pub insert_sorted : ℕ → List ℕ → List ℕ
insert_sorted n [] = n ∷ []
insert_sorted n (m ∷ ms) = let rest = insert_sorted n ms in if leb n m then n ∷ m ∷ ms else m ∷ rest

pub sort_ints : List ℕ → List ℕ
unfolding insert_sorted
sort_ints [] = []
sort_ints (n ∷ ns) = insert_sorted n (sort_ints ns)

-- The file with the timestamp and the suffix.
abbrev pub is_file : ℕ → Bytes → Rotated → Bool
is_file t suffix f = f.timestamp == t && bytes_eq f.suffix suffix

unfoldable pub exists : ℕ → Bytes → List Rotated → Bool
exists t suffix [] = false
exists t suffix (f ∷ fs) = is_file t suffix f || exists t suffix fs

-- os.Remove
pub remove : ℕ → Bytes → List Rotated → List Rotated
remove t suffix [] = []
remove t suffix (f ∷ fs) =
    let rest = remove t suffix fs in if is_file t suffix f then fs else f ∷ rest

-- The body of the loop of `Cleanup`: the file as it was rotated or, if there is none, the compressed one.
pub remove_file : List Rotated → ℕ → List Rotated
unfolding exists remove
remove_file fs t = if exists t [] fs then remove t [] fs else remove t compress_suffix fs

pub remove_files : List ℕ → List Rotated → List Rotated
unfolding remove_file
remove_files [] fs = fs
remove_files (t ∷ ts) fs = remove_files ts (remove_file fs t)

abbrev pub timestamps : List Rotated → List ℕ
timestamps fs = map (λ f. f.timestamp) fs

unfoldable pub cleanup : ConfigLogFile → List Rotated → List Rotated
unfolding sort_ints remove_files
cleanup c fs =
    if c.max_files == 0
    then fs
    else (let log_files = sort_ints (timestamps fs) in
        remove_files (take (length log_files - c.max_files) log_files) fs)

unfoldable pub flush_writers : LogFile → LogFile
flush_writers l = record l { current = l.current ++ l.buffered; buffered = [] }

-- os.Rename replaces a file that has the name.
abbrev pub rename_to : ℕ → Bytes → List Rotated → List Rotated
rename_to now content fs =
    (if exists now [] fs then remove now [] fs else fs)
    ++ record { timestamp = now; suffix = []; content = content } ∷ []

unfoldable pub rotate_file : ConfigLogFile → ℕ → LogFile → LogFile
unfolding cleanup flush_writers exists remove
rotate_file c now l =
    let l' = flush_writers l in
    let renamed = rename_to now l'.current l'.directory in
    let left = if c.removes now then remove now [] renamed else renamed in
    new_log_file (cleanup c left)

-- The end of WriteToPlain.
abbrev pub append_data : Bytes → LogFile → LogFile
append_data bytes l = record l {
  buffered = l.buffered ++ bytes;
  file_size = l.file_size + length bytes;
}

unfoldable pub write_to_plain : ConfigLogFile → ℕ → Bytes → LogFile → LogFile
unfolding rotate_file
write_to_plain c now bytes l =
    append_data bytes
      (if ltb (get_max_size c) (l.file_size + length bytes) then rotate_file c now l else l)

-- The text mode writes a line and, by another call, what ends it.
unfoldable pub write_text : ConfigLogFile → ℕ → ℕ → Bytes → LogFile → LogFile
unfolding write_to_plain
write_text c now later line l = write_to_plain c later (codes "\n") (write_to_plain c now line l)
