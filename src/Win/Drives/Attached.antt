-- ===== src/Win/Drives/Attached.antt =====
-- What `drives_valid` has made sure of.
use shinogi.Base.{
  ℕ, ◌+◌, ◌%◌, ◌≤◌, ◌<◌, true, false, List, [], ◌∷◌, ◌++◌, Option, some, ◌≡◌, ◌≢◌, ◌⊎◌, inl, inr,
  sym, ◌∙◌, subst, arith, Bytes, All, All-append, length, ltb, leb, ◌==◌, Bool-cases, Option-cases,
  append_assoc, append-nil,
}
use shinogi.Base.Result.{ok, Result-cases, ok-injective}
use shinogi.Win.Drives.{
  extra_folders, first_floppy, drive_u, DriveMapping, FileInfo, Files, full_path, same_file,
  any_same, floppy_ok, extension_ok, is_boot, check_info, check_drive, drives_loop, drives_valid,
}

-- No two are the same file.
abbrev pub Distinct : List FileInfo → Type 0
Distinct [] = Unit {0}
Distinct (x ∷ xs) = All (λ y. same_file x y ≡ false) xs × Distinct xs

Distinct-snoc :
    (xs : List FileInfo) (x : FileInfo)
    → Distinct xs
    → any_same xs x ≡ false
    → Distinct (xs ++ x ∷ [])
unfolding any_same
Distinct-snoc [] x d a = (tt, tt)
Distinct-snoc (y ∷ ys) x (d, ds) a =
    (All-append _ ys (x ∷ []) d (ground arith, tt), Distinct-snoc ys x ds (ground arith))

module _ (F : Files) (boot : Option FileInfo) where
  -- A drive that has passed: not U:, a full path of something that is there; a folder for the
  -- folder letters; for the others a file of whole sectors, and for the floppies one of the two
  -- sizes, with a fitting boot sector; and not what drive C serves.
  pub record IsDrive (i : ℕ) (path : Bytes) (info : FileInfo) : Type 0 where
    pub not_u : i ≢ drive_u
    pub is_full : full_path path ≡ true
    pub is_file : F.identity path ≡ some info
    pub kind : info.is_directory ≡ ltb i extra_folders
    pub sectors :
        extra_folders ≤ i
        → (0 < info.size)
          × (info.size % 512 ≡ 0)
          × (extension_ok F (leb first_floppy i) path ≡ true)
    pub floppy :
        first_floppy ≤ i
        → ((info.size ≡ 737280) ⊎ (info.size ≡ 1474560)) × (floppy_ok F path info.size ≡ true)
    pub not_boot : is_boot F boot info ≡ false

  -- The files of the drives in use, from drive `i` on.
  pub data Attached : ℕ → List DriveMapping → List FileInfo → Type 0 where
    no_more : (i : ℕ) → Attached i [] []
    unused :
        (i : ℕ) (m : DriveMapping) (ms : List DriveMapping) (infos : List FileInfo)
        → length m.path ≡ 0
        → Attached (i + 1) ms infos
        → Attached i (m ∷ ms) infos
    in_use :
        (i : ℕ) (m : DriveMapping) (ms : List DriveMapping) (info : FileInfo)
        (infos : List FileInfo)
        → IsDrive i m.path info
        → Attached (i + 1) ms infos
        → Attached i (m ∷ ms) (info ∷ infos)

  check_info-IsDrive :
      (before : List FileInfo) (i : ℕ) (path : Bytes) (info out : FileInfo)
      → i ≢ drive_u
      → full_path path ≡ true
      → F.identity path ≡ some info
      → check_info F boot before i path info ≡ ok out
      → (out ≡ info) × IsDrive i path info × (any_same before info ≡ false)
  unfolding check_info
  check_info-IsDrive before i path info out u f e h = (
    ground arith,
    record {
      not_u = u;
      is_full = f;
      is_file = e;
      kind = ground arith;
      sectors = λ image. (ground arith, ground arith, ground arith);
      floppy = λ floppy. (ground arith, ground arith);
      not_boot = ground arith;
    },
    ground arith,
  )

  check_drive-IsDrive :
      (before : List FileInfo) (i : ℕ) (path : Bytes) (info : FileInfo)
      → check_drive F boot before i path ≡ ok info
      → IsDrive i path info × (any_same before info ≡ false)
  unfolding check_drive
  check_drive-IsDrive before i path info h = elim (Bool-cases (i == drive_u)) [
    | inl u ↦ absurd (ground arith)
    | inr not_u ↦ elim (Bool-cases (full_path path)) [
      | inr partial ↦ absurd (ground arith)
      | inl whole ↦ elim (Option-cases (F.identity path)) [
        | inl e ↦ absurd (ground arith)
        | inr (found, e) ↦
            let (same, d, a) =
              check_info-IsDrive before i path found info (ground arith) whole e (ground arith) in
            (
              subst (IsDrive i path) (sym same) d,
              subst (λ x. any_same before x ≡ false) (sym same) a,
            )
      ]
    ]
  ]

  -- What the loop has added to the drives before.
  record Added (i : ℕ) (before : List FileInfo) (ms : List DriveMapping) (all : List FileInfo)
      : Type 0 where
    infos : List FileInfo
    splits : all ≡ before ++ infos
    attached : Attached i ms infos
    distinct : Distinct before → Distinct all

  drives_loop-Added :
      (i : ℕ) (before : List FileInfo) (ms : List DriveMapping) (all : List FileInfo)
      → drives_loop F boot i before ms ≡ ok all
      → Added i before ms all
  unfolding drives_loop
  drives_loop-Added i before [] all h = record {
    infos = [];
    splits = sym (ok-injective h) ∙ sym (append-nil before);
    attached = no_more i;
    distinct = subst Distinct (ok-injective h);
  }
  drives_loop-Added i before (m ∷ ms) all h = elim (Bool-cases (length m.path == 0)) [
    | inl empty ↦
        let more = drives_loop-Added (i + 1) before ms all (rw (empty, drives_loop) at h) in
        record {
          infos = more.infos;
          splits = more.splits;
          attached = unused i m ms more.infos (ground arith) more.attached;
          distinct = more.distinct;
        }
    | inr named ↦ elim (Result-cases (check_drive F boot before i m.path)) [
      | inr (e, c) ↦ absurd (ground arith)
      | inl (info, c) ↦
          let (d, a) = check_drive-IsDrive before i m.path info c in
          let more =
            drives_loop-Added (i + 1) (before ++ info ∷ []) ms all
              (rw (named, c, drives_loop) at h) in
          record {
            infos = info ∷ more.infos;
            splits = more.splits ∙ append_assoc before (info ∷ []) more.infos;
            attached = in_use i m ms info more.infos d more.attached;
            distinct = λ ds. more.distinct (Distinct-snoc before info ds a);
          }
    ]
  ]

-- Settings that pass: no two drives in use are the same file, and each is what its letter asks for,
-- none of them U: or what drive C serves.
pub drives_valid-Attached :
    (F : Files) (ms : List DriveMapping) (drivec : Bytes) (infos : List FileInfo)
    → drives_valid F ms drivec ≡ ok infos
    → Attached F (F.identity drivec) 0 ms infos × Distinct infos
unfolding drives_valid
drives_valid-Attached F ms drivec infos h =
    let a = drives_loop-Added F (F.identity drivec) 0 [] ms infos h in
    (subst (Attached F (F.identity drivec) 0 ms) (sym a.splits) a.attached, a.distinct tt)
