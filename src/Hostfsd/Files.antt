-- ===== src/Hostfsd/Files.antt =====
-- tools/hostfsd/shinogi-hostfsd.c, `serve`: OPEN, CREATE, CLOSE, READ and WRITE.
pub mod Handles
use Prim.Native.Nat.{bit_and}
use shinogi.Base.{
  ℕ, ◌+◌, ◌-◌, Bool, true, false, not, ◌&&◌, [], none, some, Bytes, length, set, ltb, ◌==◌,
  if◌then◌else◌,
}
use shinogi.Base.Result.{Result, ok, err}
use shinogi.Hostfsd.Config.{Config}
use shinogi.Hostfsd.Daemon.{
  max_files, FileHandle, Daemon, Reply, fail, done, errno_to_gemdos, free_file, file_of,
}
use shinogi.Hostfsd.Host.{Errno, Stat, Flags, rdonly, wronly, rdwr, create, Host}
use shinogi.Hostfsd.Path.{resolve_path}
use shinogi.Hostfsd.Proto.{enhndl, eaccdn, eihndl, max_rep_data, o_wronly, o_rdwr, fa_ro}

unfoldable pub open_flags : Bool → ℕ → Flags
open_flags true a = create
open_flags false a = if a == o_wronly then wronly else if a == o_rdwr then rdwr else rdonly

unfoldable pub open_mode : Bool → ℕ → ℕ
open_mode creating a = if creating && not (bit_and a fa_ro == 0) then 0o444 else 0o666

-- `fstat(...) == 0 && S_ISDIR(...)`
unfoldable pub is_directory : Result Errno Stat → Bool
is_directory (err _) = false
is_directory (ok st) = st.is_dir

module _ (H : Host) where
  -- The test for a directory, and the slot taken: `i` is free.
  unfoldable pub take_slot : ℕ → ℕ → Daemon H.Os → Reply × Daemon H.Os
  take_slot i fd d =
      if is_directory (H.fstat d.os fd)
      then (fail eaccdn, record d { os = H.close_fd fd d.os })
      else (
        done (i + 1) 0 [],
        record d { files = set d.files i (record { used = true; fd = fd; dirty = false }) },
      )

  unfoldable pub open_resolved : Bool → ℕ → Bytes → Daemon H.Os → Reply × Daemon H.Os
  open_resolved creating a path d =
      let i = free_file d.files in
      if i == max_files
      then (fail enhndl, d)
      else let (opened, os') =
          H.open_file path (open_flags creating a) (open_mode creating a) d.os in
        let d' = record d { os = os' } in
        elim opened [ err e ↦ (fail (errno_to_gemdos e), d') | ok fd ↦ take_slot i fd d' ]

  -- OPEN, and CREATE where `creating`.
  unfoldable pub open_op : Config → Bool → ℕ → Bytes → Daemon H.Os → Reply × Daemon H.Os
  open_op cfg creating a payload d = elim (resolve_path H d.os cfg.root payload) [
    | err e ↦ (fail e, d)
    | ok path ↦ open_resolved creating a path d
  ]

  unfoldable pub close_op : ℕ → Daemon H.Os → Reply × Daemon H.Os
  close_op a d = elim (file_of d.files a) [
    | none ↦ (fail eihndl, d)
    | some f ↦
        let os' = if f.dirty then (H.fsync f.fd d.os).1 else d.os in
        (
          done 0 0 [],
          record d {
            files = set d.files (a - 1) (record f { used = false; dirty = false });
            os = H.close_fd f.fd os';
          },
        )
  ]

  unfoldable pub read_at : ℕ → ℕ → ℕ → Daemon H.Os → Reply × Daemon H.Os
  read_at fd b c d =
      let (moved, os') = H.lseek fd b d.os in
      elim moved [
        | err e ↦ (fail (errno_to_gemdos e), record d { os = os' })
        | ok _ ↦
            let (got, os'') = H.read_fd fd (if ltb max_rep_data c then max_rep_data else c) os' in
            let d' = record d { os = os'' } in
            elim got [
              | err e ↦ (fail (errno_to_gemdos e), d')
              | ok bytes ↦ (done (length bytes) 0 bytes, d')
            ]
      ]

  unfoldable pub read_op : ℕ → ℕ → ℕ → Daemon H.Os → Reply × Daemon H.Os
  read_op a b c d = elim (file_of d.files a) [
    | none ↦ (fail eihndl, d)
    | some f ↦ read_at f.fd b c d
  ]

  unfoldable pub write_at : FileHandle → ℕ → ℕ → Bytes → Daemon H.Os → Reply × Daemon H.Os
  write_at f a b payload d =
      let (moved, os') = H.lseek f.fd b d.os in
      elim moved [
        | err e ↦ (fail (errno_to_gemdos e), record d { os = os' })
        | ok _ ↦
            let (put, os'') = H.write_fd f.fd payload os' in
            elim put [
              | err e ↦ (fail (errno_to_gemdos e), record d { os = os'' })
              | ok n ↦
                  let f' = if ltb 0 n then record f { dirty = true } else f in
                  (done n 0 [], record d { files = set d.files (a - 1) f'; os = os'' })
            ]
      ]

  unfoldable pub write_op : ℕ → ℕ → Bytes → Daemon H.Os → Reply × Daemon H.Os
  write_op a b payload d = elim (file_of d.files a) [
    | none ↦ (fail eihndl, d)
    | some f ↦ write_at f a b payload d
  ]
