-- ===== src/Loggers/LogFile/Cleanup.antt =====
-- `Cleanup` of loggers/logfile.go keeps the newest files.
use go_dns_collector.Base.{
  ℕ, zero, suc, ◌-◌, ◌≤◌, ◌<◌, ◌≡◌, refl, ap, ◌⊎◌, inl, inr, true, false, ◌||◌, List, [], ◌∷◌, ◌++◌,
  arith, leb, ◌==◌, Bool-cases, length, take, drop, Bytes, bytes_eq_iff, string_key, bytes_key,
}
use mathlib.Core.Logic.Or
use mathlib.Core.List.{Mem, Perm, mem-cons, not-mem-nil, mem-cons_self}
use mathlib.Core.Bool.{Bool-set}
use mathlib.Core.List.Perm
use go_dns_collector.Loggers.LogFile.{
  Rotated, ConfigLogFile, compress_suffix, insert_sorted, sort_ints, is_file, exists, remove,
  remove_file, remove_files, timestamps, cleanup,
}

insert_sorted-perm : (n : ℕ) (ms : List ℕ) → Perm (insert_sorted n ms) (n ∷ ms)
unfolding insert_sorted
insert_sorted-perm n [] = Perm.rfl
insert_sorted-perm n (m ∷ ms) = elim (Bool-cases (leb n m)) [
  | inl e ↦ rw e Perm.rfl
  | inr e ↦ rw e (Perm.trans (Perm.cons m (insert_sorted-perm n ms)) (Perm.swap n m ms))
]

pub sort_ints-perm : (ns : List ℕ) → Perm (sort_ints ns) ns
unfolding sort_ints
sort_ints-perm [] = Perm.rfl
sort_ints-perm (n ∷ ns) =
    Perm.trans (insert_sorted-perm n (sort_ints ns)) (Perm.cons n (sort_ints-perm ns))

abbrev AllFrom : ℕ → List ℕ → Type 0
AllFrom n [] = Unit
AllFrom n (m ∷ ms) = (n ≤ m) × AllFrom n ms

abbrev pub Ascending : List ℕ → Type 0
Ascending [] = Unit
Ascending (n ∷ ns) = AllFrom n ns × Ascending ns

AllFrom-below : (k n : ℕ) (ms : List ℕ) → k ≤ n → AllFrom n ms → AllFrom k ms
AllFrom-below k n [] h above = tt
AllFrom-below k n (m ∷ ms) h (first, above) =
    (omega (arith, h, first), AllFrom-below k n ms h above)

insert_sorted-AllFrom :
    (k n : ℕ) (ms : List ℕ) → k ≤ n → AllFrom k ms → AllFrom k (insert_sorted n ms)
unfolding insert_sorted
insert_sorted-AllFrom k n [] h above = (h, tt)
insert_sorted-AllFrom k n (m ∷ ms) h (first, above) = elim (Bool-cases (leb n m)) [
  | inl e ↦ rw e (h, (first, above))
  | inr e ↦ rw e (first, insert_sorted-AllFrom k n ms h above)
]

insert_sorted-Ascending : (n : ℕ) (ms : List ℕ) → Ascending ms → Ascending (insert_sorted n ms)
unfolding insert_sorted
insert_sorted-Ascending n [] s = (tt, tt)
insert_sorted-Ascending n (m ∷ ms) (above, s) = elim (Bool-cases (leb n m)) [
  | inl e ↦ let le : n ≤ m = grind arith in rw e ((le, AllFrom-below n m ms le above), (above, s))
  | inr e ↦ rw e (insert_sorted-AllFrom m n ms (grind arith) above, insert_sorted-Ascending n ms s)
]

sort_ints-Ascending : (ns : List ℕ) → Ascending (sort_ints ns)
unfolding sort_ints
sort_ints-Ascending [] = tt
sort_ints-Ascending (n ∷ ns) = insert_sorted-Ascending n (sort_ints ns) (sort_ints-Ascending ns)

-- Removing a file that is there takes its timestamp away.
remove-perm :
    (t : ℕ) (suffix : Bytes) (fs : List Rotated)
    → exists t suffix fs ≡ true
    → Perm (timestamps fs) (t ∷ timestamps (remove t suffix fs))
unfolding exists remove
remove-perm t suffix [] there = grind arith
remove-perm t suffix (f ∷ fs) there = elim (Bool-cases (is_file t suffix f)) [
  | inl e ↦ rw e (Perm.cons' (grind arith) Perm.rfl)
  | inr e ↦ rw e (
      Perm.trans (Perm.cons f.timestamp (remove-perm t suffix fs (grind arith)))
        (Perm.swap t f.timestamp (timestamps (remove t suffix fs))))
]

-- Every entry is a rotated file or a compressed one.
abbrev pub AllNamed : List Rotated → Type 0
AllNamed [] = Unit
AllNamed (f ∷ fs) = ((f.suffix ≡ []) ⊎ (f.suffix ≡ compress_suffix)) × AllNamed fs

exists-Mem :
    (t : ℕ) (fs : List Rotated)
    → AllNamed fs
    → Mem t (timestamps fs)
    → (exists t [] fs || exists t compress_suffix fs) ≡ true
unfolding exists
exists-Mem t [] named there = elim (not-mem-nil there) [ ]
exists-Mem t (f ∷ fs) (name, named) there =
    Or.elim (Bool-set _ _) (mem-cons.0 there)
      (λ same. elim name [
        | inl plain ↦ ground (arith, same, plain, bytes_eq_iff f.suffix [])
        | inr zipped ↦ ground (arith, same, zipped, bytes_eq_iff f.suffix compress_suffix)
      ])
      (λ later. ground (arith, exists-Mem t fs named later))

remove_file-perm :
    (fs : List Rotated) (t : ℕ)
    → (exists t [] fs || exists t compress_suffix fs) ≡ true
    → Perm (timestamps fs) (t ∷ timestamps (remove_file fs t))
unfolding remove_file
remove_file-perm fs t there = elim (Bool-cases (exists t [] fs)) [
  | inl e ↦ rw e (remove-perm t [] fs e)
  | inr e ↦ rw e (remove-perm t compress_suffix fs (grind arith))
]

remove-AllNamed :
    (t : ℕ) (suffix : Bytes) (fs : List Rotated) → AllNamed fs → AllNamed (remove t suffix fs)
unfolding remove
remove-AllNamed t suffix [] named = tt
remove-AllNamed t suffix (f ∷ fs) (name, named) = elim (Bool-cases (is_file t suffix f)) [
  | inl e ↦ rw e named
  | inr e ↦ rw e (name, remove-AllNamed t suffix fs named)
]

remove_file-AllNamed : (fs : List Rotated) (t : ℕ) → AllNamed fs → AllNamed (remove_file fs t)
unfolding remove_file
remove_file-AllNamed fs t named = elim (Bool-cases (exists t [] fs)) [
  | inl e ↦ rw e (remove-AllNamed t [] fs named)
  | inr e ↦ rw e (remove-AllNamed t compress_suffix fs named)
]

remove_files-perm :
    (ts rest : List ℕ) (fs : List Rotated)
    → AllNamed fs
    → Perm (timestamps fs) (ts ++ rest)
    → Perm (timestamps (remove_files ts fs)) rest
unfolding remove_files
remove_files-perm [] rest fs named same = same
remove_files-perm (t ∷ ts) rest fs named same =
    let there : Mem t (timestamps fs) = (Perm.mem_iff same).1 mem-cons_self in
    let gone = remove_file-perm fs t (exists-Mem t fs named there) in
    remove_files-perm ts rest (remove_file fs t) (remove_file-AllNamed fs t named)
      (Perm.cons_inv (Perm.trans (Perm.symm gone) same))

take-drop : (n : ℕ) (l : List ℕ) → take n l ++ drop n l ≡ l
take-drop zero l = refl
take-drop (suc n) [] = refl
take-drop (suc n) (m ∷ l) = ap (◌∷◌ m) (take-drop n l)

-- When every entry of the directory is a rotated file or a compressed one and the number of files is
-- limited, the timestamps of what `Cleanup` leaves are, but for their order, the last ones of all
-- timestamps in ascending order, as many as the limit or all that there are.
pub cleanup-perm :
    (c : ConfigLogFile) (fs : List Rotated)
    → AllNamed fs
    → 0 < c.max_files
    → (let log_files = sort_ints (timestamps fs) in
        Perm (timestamps (cleanup c fs)) (drop (length log_files - c.max_files) log_files)
        × Perm log_files (timestamps fs)
        × Ascending log_files)
unfolding cleanup
cleanup-perm c fs named limited =
    let log_files = sort_ints (timestamps fs) in
    let n = length log_files - c.max_files in
    let some_limit : (c.max_files == 0) ≡ false = ground arith in
    let same = sort_ints-perm (timestamps fs) in
    rw some_limit (
      remove_files-perm (take n log_files) (drop n log_files) fs named
          (rw (take-drop n log_files) (Perm.symm same)),
      same,
      sort_ints-Ascending (timestamps fs),
    )
