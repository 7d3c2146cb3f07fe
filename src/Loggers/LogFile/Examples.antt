-- ===== src/Loggers/LogFile/Examples.antt =====
-- Runs of the log files on concrete writes.
use go_dns_collector.Base.{
  ℕ, ◌-◌, ◌≡◌, refl, inl, inr, false, List, [], ◌∷◌, ◌++◌, arith, length, drop, Bytes, codes,
  string_key, bytes_key,
}
use mathlib.Core.List.{Perm}
use go_dns_collector.Loggers.LogFile.{
  exists, Rotated, LogFile, ConfigLogFile, sort_ints, timestamps, cleanup, new_log_file,
  append_data, write_text, compress_suffix,
}
use go_dns_collector.Loggers.LogFile.Kept.{all_data, write_all, written, write_all-all_data}
use go_dns_collector.Loggers.LogFile.Cleanup.{Ascending, cleanup-perm}
use go_dns_collector.Loggers.LogFile.Sizes.{Sized, write_all-Sized, write_text-cut}

abbrev keep_all : ConfigLogFile
keep_all = record { max_size = 0; max_files = 0; removes = λ now. false }

abbrev keep_one : ConfigLogFile
keep_one = record keep_all { max_files = 1 }

abbrev file : ℕ → Bytes → Rotated
file t suffix = record { timestamp = t; suffix = suffix; content = codes "old" }

abbrev files : List Rotated
files = file 5 [] ∷ file 3 compress_suffix ∷ []

abbrev writes : List (ℕ × Bytes)
writes = (10, codes "a.fr ") ∷ (20, codes "b.fr ") ∷ []

cleanup-perm_example :
    Perm
      (timestamps (cleanup keep_one files))
      (drop (length (sort_ints (timestamps files)) - 1) (sort_ints (timestamps files)))
    × Perm (sort_ints (timestamps files)) (timestamps files)
    × Ascending (sort_ints (timestamps files))
cleanup-perm_example = cleanup-perm keep_one files (inl refl, (inr refl, tt)) (omega arith)

write_all-all_data_example :
    all_data (write_all keep_all writes (new_log_file files))
    ≡ all_data (new_log_file files) ++ written writes
write_all-all_data_example =
    write_all-all_data keep_all refl (λ now. refl) writes 6 (new_log_file files)
      (omega arith, (omega arith, tt)) (omega arith, (omega arith, tt))

write_all-Sized_example : Sized keep_one 5 (write_all keep_one writes (new_log_file files))
write_all-Sized_example =
    write_all-Sized keep_one 5 writes (new_log_file files) (omega arith, (omega arith, tt))
      (refl, inl (omega arith), (inr (omega arith), (inr (omega arith), tt)))

abbrev one_megabyte : ConfigLogFile
one_megabyte = record keep_all { max_size = 1 }

-- Two bytes are left in the file.
abbrev almost_full : LogFile
almost_full = record (new_log_file files) { file_size = 1048574 }

write_text-cut_example :
    write_text one_megabyte 10 20 (codes "ok") almost_full
    ≡ append_data
        (codes "\n")
        (new_log_file (files ++ record { timestamp = 20; suffix = []; content = codes "ok" } ∷ []))
unfolding exists
write_text-cut_example =
    write_text-cut one_megabyte 10 20 (codes "ok") almost_full refl refl refl refl
