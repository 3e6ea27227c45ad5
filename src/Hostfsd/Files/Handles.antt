-- ===== src/Hostfsd/Files/Handles.antt =====
-- Which handle numbers are valid after OPEN, CREATE and CLOSE.
use shinogi.Base.{
  ℕ, ◌+◌, ◌-◌, ◌<◌, Bool, true, false, List, none, some, ◌≡◌, ◌≢◌, inl, inr, refl, ap, arith, Bytes,
  length, get_elem?, set, get_elem?-set_self, ◌==◌, Bool-cases, Option-cases,
}
use shinogi.Base.Result.{Result-cases}
use shinogi.Hostfsd.Config.{Config}
use shinogi.Hostfsd.Daemon.{
  max_files, FileHandle, Daemon, errno_to_gemdos, free_file, used_file, file_of,
}
use shinogi.Hostfsd.Daemon.Tables.{
  free_file-is_free, free_file-le, file_of-slot, file_of-set_self, file_of-set_ne,
}
use shinogi.Hostfsd.Files.{
  open_flags, open_mode, is_directory, take_slot, open_resolved, open_op, close_op,
}
use shinogi.Hostfsd.Host.{
  Errno, enoent, enotdir, enametoolong, eloop, emfile, enfile, enomem, einval, erofs, other, Host,
}
use shinogi.Hostfsd.Path.{resolve_path}
use shinogi.Hostfsd.Path.Contained.{resolve_path-error}
use shinogi.Hostfsd.Proto.{Status, e_ok, epthnf}

-- The handle `h` was not valid and is; every other one stands for what it stood for.
pub record Opens {Os : Type 0} (d d' : Daemon Os) (h : ℕ) : Type 0 where
  pub before : file_of d.files h ≡ none
  pub fd : ℕ
  pub after : file_of d'.files h ≡ some (record { used = true; fd = fd; dirty = false })
  pub others : (x : ℕ) → x ≢ h → file_of d'.files x ≡ file_of d.files x

-- The handle `h` was valid and is not; every other one stands for what it stood for.
pub record Closes {Os : Type 0} (d d' : Daemon Os) (h : ℕ) : Type 0 where
  pub file : FileHandle
  pub before : file_of d.files h ≡ some file
  pub after : file_of d'.files h ≡ none
  pub others : (x : ℕ) → x ≢ h → file_of d'.files x ≡ file_of d.files x

file_of-free :
    (fs : List FileHandle) (i : ℕ) (f : FileHandle)
    → get_elem? fs i ≡ some f
    → f.used ≡ false
    → file_of fs (i + 1) ≡ none
unfolding file_of used_file
file_of-free fs i f at free =
    let back : i + 1 - 1 ≡ i = omega arith in ground (arith, at, ap (get_elem? fs) back)

module _ (H : Host) (cfg : Config) (d : Daemon H.Os) where
  take_slot-Opens :
      (fd : ℕ) (os : H.Os)
      → length d.files ≡ max_files
      → free_file d.files < max_files
      → (take_slot H (free_file d.files) fd (record d { os = os })).0.status ≡ e_ok
      → let r = take_slot H (free_file d.files) fd (record d { os = os }) in Opens d r.1 r.0.ra
  unfolding take_slot
  take_slot-Opens fd os size room h = elim (Bool-cases (is_directory (H.fstat os fd))) [
    | inl dir ↦ absurd (ground arith)
    | inr file ↦
        let i = free_file d.files in
        let g : FileHandle = record { used = true; fd = fd; dirty = false } in
        let (f, at, free) = free_file-is_free d.files (omega (arith, size, room)) in
        rw (file, take_slot)
          (record {
            before = file_of-free d.files i f at free;
            fd = fd;
            after = file_of-set_self d.files i g (omega (arith, size, room)) size refl;
            others = λ x ne. file_of-set_ne d.files i x g ne;
          })
  ]

  open_resolved-Opens :
      (creating : Bool) (a : ℕ) (path : Bytes)
      → length d.files ≡ max_files
      → (open_resolved H creating a path d).0.status ≡ e_ok
      → Opens d (open_resolved H creating a path d).1 (open_resolved H creating a path d).0.ra
  unfolding open_resolved errno_to_gemdos
  open_resolved-Opens creating a path size h = elim (Bool-cases (free_file d.files == max_files)) [
    | inl full ↦ absurd (ground arith)
    | inr room ↦
        let opened = H.open_file path (open_flags creating a) (open_mode creating a) d.os in
        elim (Result-cases opened.0) [
          | inr (e, m) ↦ absurd (failed e (rw (room, m, open_resolved) at h))
          | inl (fd, m) ↦
              rw (room, m, open_resolved)
                (take_slot-Opens fd opened.1 size (ground (arith, free_file-le d.files, size))
                  (rw (room, m, open_resolved) at h))
        ]
  ]
    where
      failed : (e : Errno) → errno_to_gemdos e ≢ e_ok
      failed enoent h = cc
      failed enotdir h = cc
      failed enametoolong h = cc
      failed eloop h = cc
      failed emfile h = cc
      failed enfile h = cc
      failed enomem h = cc
      failed einval h = cc
      failed erofs h = cc
      failed (other n) h = cc

  -- An OPEN or CREATE that succeeds returns a handle that was not valid before; it stands for a
  -- file with nothing to flush, and every other handle stands for what it stood for.
  pub open_op-Opens :
      (creating : Bool) (a : ℕ) (payload : Bytes)
      → length d.files ≡ max_files
      → (open_op H cfg creating a payload d).0.status ≡ e_ok
      → Opens d (open_op H cfg creating a payload d).1 (open_op H cfg creating a payload d).0.ra
  unfolding open_op
  open_op-Opens creating a payload size h =
      elim (Result-cases (resolve_path H d.os cfg.root payload)) [
        | inr (e, m) ↦
            absurd (refused e (resolve_path-error H d.os cfg.root payload m) (rw (m, open_op) at h))
        | inl (path, m) ↦
            rw (m, open_op) (open_resolved-Opens creating a path size (rw (m, open_op) at h))
      ]
    where
      refused : (e : Status) → e ≡ epthnf → e ≢ e_ok
      refused e p q = cc

  -- A CLOSE that succeeds was for a valid handle, and makes it and no other one invalid.
  pub close_op-Closes :
      (a : ℕ)
      → length d.files ≡ max_files
      → (close_op H a d).0.status ≡ e_ok
      → Closes d (close_op H a d).1 a
  unfolding close_op
  close_op-Closes a size h = elim (Option-cases (file_of d.files a)) [
    | inl e ↦ absurd (ground arith)
    | inr (f, e) ↦
        let (low, high, at, used) = file_of-slot d.files a e in
        let g : FileHandle = record f { used = false; dirty = false } in
        let back : a - 1 + 1 ≡ a = omega (arith, low) in
        let there = get_elem?-set_self d.files (a - 1) g (omega (arith, low, high, size)) in
        rw (e, close_op)
          (record {
            file = f;
            before = e;
            after = rw back at (file_of-free (set d.files (a - 1) g) (a - 1) g there refl);
            others = λ x ne. file_of-set_ne d.files (a - 1) x g (ground (arith, ne, back));
          })
  ]
