-- ===== src/Hostfsd/Daemon/Tables.antt =====
-- The searches for a free slot and for a handle's slot, and the reset.
use shinogi.Base.{
  ℕ, suc, ◌+◌, ◌-◌, ◌≤◌, ◌<◌, true, false, List, [], ◌∷◌, none, some, ◌≡◌, ◌≢◌, inl, inr, refl, ap,
  arith, length, get_elem?, set, get_elem?-set_self, get_elem?-set_ne, All-get_elem?, All,
  Bool-cases, Option-cases,
}
use shinogi.Hostfsd.Host.{Host}
use shinogi.Hostfsd.Daemon.{
  max_files, max_dirs, FileHandle, DirHandle, Daemon, free_file, free_dir, used_file, used_dir,
  file_of, dir_of, reset_files, reset_dirs, handles_reset,
}

-- The index that the search ends at is a slot that is not in use, or the table's length.
pub free_file-is_free :
    (fs : List FileHandle)
    → free_file fs < length fs
    → (f : FileHandle) × (get_elem? fs (free_file fs) ≡ some f) × (f.used ≡ false)
unfolding free_file
free_file-is_free [] h = elim h [ ]
free_file-is_free (f ∷ fs) h = elim (Bool-cases f.used) [
  | inl used ↦ let (g, e, free) = free_file-is_free fs (ground arith) in (g, ground arith, free)
  | inr free ↦ (f, ground arith, free)
]

pub free_file-le : (fs : List FileHandle) → free_file fs ≤ length fs
unfolding free_file
free_file-le [] = omega arith
free_file-le (f ∷ fs) = ground (arith, free_file-le fs)

pub free_dir-le : (ds : List DirHandle) → free_dir ds ≤ length ds
unfolding free_dir
free_dir-le [] = omega arith
free_dir-le (d ∷ ds) = ground (arith, free_dir-le ds)

-- A handle number stands for the slot below it, if that is in use.
pub file_of-slot :
    (fs : List FileHandle) (h : ℕ) {f : FileHandle}
    → file_of fs h ≡ some f
    → (1 ≤ h) × (h ≤ max_files) × (get_elem? fs (h - 1) ≡ some f) × (f.used ≡ true)
unfolding file_of
file_of-slot fs h e = ground arith

pub dir_of-slot :
    (ds : List DirHandle) (h : ℕ) {d : DirHandle}
    → dir_of ds h ≡ some d
    → (1 ≤ h) × (h ≤ max_dirs) × (get_elem? ds (h - 1) ≡ some d) × (d.used ≡ true)
unfolding dir_of
dir_of-slot ds h e = ground arith

-- The table after a write to slot `i`, seen through its handle numbers.
pub file_of-set_self :
    (fs : List FileHandle) (i : ℕ) (f : FileHandle)
    → i < length fs
    → length fs ≡ max_files
    → f.used ≡ true
    → file_of (set fs i f) (i + 1) ≡ some f
unfolding file_of
file_of-set_self fs i f h size used =
    let e : i + 1 - 1 ≡ i = omega arith in rw e (ground (arith, get_elem?-set_self fs i f h))

pub file_of-set_ne :
    (fs : List FileHandle) (i h : ℕ) (f : FileHandle)
    → h ≢ i + 1
    → file_of (set fs i f) h ≡ file_of fs h
unfolding file_of
file_of-set_ne fs i h f ne = ground (arith, get_elem?-set_ne fs i (h - 1) f)

-- After the reset no slot is in use.
reset_files-unused :
    (H : Host) (fs : List FileHandle) (os : H.Os)
    → All (λ f. f.used ≡ false) (reset_files H fs os).0
unfolding reset_files
reset_files-unused H [] os = tt
reset_files-unused H (f ∷ fs) os = (ground arith, reset_files-unused H fs _)

pub length-reset_files :
    (H : Host) (fs : List FileHandle) (os : H.Os) → length (reset_files H fs os).0 ≡ length fs
unfolding reset_files
length-reset_files H [] os = refl
length-reset_files H (f ∷ fs) os = ap suc (length-reset_files H fs _)

reset_dirs-unused : (ds : List DirHandle) → All (λ d. d.used ≡ false) (reset_dirs ds)
unfolding reset_dirs
reset_dirs-unused [] = tt
reset_dirs-unused (d ∷ ds) = (ground arith, reset_dirs-unused ds)

pub length-reset_dirs : (ds : List DirHandle) → length (reset_dirs ds) ≡ length ds
unfolding reset_dirs
length-reset_dirs [] = refl
length-reset_dirs (d ∷ ds) = ap suc (length-reset_dirs ds)

used_at :
    (fs : List FileHandle) (i : ℕ)
    → All (λ f. f.used ≡ false) fs
    → used_file (get_elem? fs i) ≡ none
unfolding used_file
used_at fs i all = elim (Option-cases (get_elem? fs i)) [
  | inl e ↦ rw e
  | inr (f, e) ↦ rw (e, used_file) (rw (All-get_elem? _ fs i all e))
]

pub file_of-unused :
    (fs : List FileHandle) (h : ℕ) → All (λ f. f.used ≡ false) fs → file_of fs h ≡ none
unfolding file_of
file_of-unused fs h all = ground (arith, used_at fs (h - 1) all)

used_dir_at :
    (ds : List DirHandle) (i : ℕ) → All (λ d. d.used ≡ false) ds → used_dir (get_elem? ds i) ≡ none
unfolding used_dir
used_dir_at ds i all = elim (Option-cases (get_elem? ds i)) [
  | inl e ↦ rw e
  | inr (d, e) ↦ rw (e, used_dir) (rw (All-get_elem? _ ds i all e))
]

pub dir_of-unused :
    (ds : List DirHandle) (h : ℕ) → All (λ d. d.used ≡ false) ds → dir_of ds h ≡ none
unfolding dir_of
dir_of-unused ds h all = ground (arith, used_dir_at ds (h - 1) all)

-- After the reset no handle number is valid.
pub handles_reset-forgets :
    (H : Host) (d : Daemon H.Os) (h : ℕ)
    → (file_of (handles_reset H d).files h ≡ none) × (dir_of (handles_reset H d).dirs h ≡ none)
unfolding handles_reset
handles_reset-forgets H d h = (
  file_of-unused _ h (reset_files-unused H d.files d.os),
  dir_of-unused _ h (reset_dirs-unused d.dirs),
)
