-- ===== src/Hostfsd/Daemon.antt =====
-- tools/hostfsd/shinogi-hostfsd.c, "State", "Errors" and "Handles": what the helper keeps between
-- two requests, and the tables of handles.
pub mod Tables
pub mod Held
use shinogi.Base.{
  ℕ, zero, suc, ◌+◌, ◌-◌, Bool, true, false, not, ◌||◌, List, [], ◌∷◌, Option, none, some, Bytes,
  length, get_elem?, set, ltb, ◌==◌, if◌then◌else◌, replicate,
}
use shinogi.Hostfsd.Host.{Errno, enoent, enotdir, enametoolong, eloop, emfile, enfile, enomem, Host}
use shinogi.Hostfsd.Proto.{Op, Status, e_ok, efilnf, epthnf, enhndl, eaccdn, ensmem}

abbrev pub max_files : ℕ
max_files = 32

abbrev pub max_dirs : ℕ
max_dirs = 8

pub record FileHandle : Type 0 where
  pub used : Bool
  pub fd : ℕ
  pub dirty : Bool

-- `count` is the length of `names`.
pub record DirHandle : Type 0 where
  pub used : Bool
  pub names : List Bytes
  pub path : Bytes

-- `files`, `dirs`, and the host's state beside them.
pub record Daemon (Os : Type 0) : Type 0 where
  pub files : List FileHandle
  pub dirs : List DirHandle
  pub os : Os

-- The operation and the operands of a frame; `payload` is `data` with its length.
pub record Request : Type 0 where
  pub op : Op
  pub a : ℕ
  pub b : ℕ
  pub c : ℕ
  pub payload : Bytes

-- `status`, `ra`, `rb` and the bytes at `out`.
pub record Reply : Type 0 where
  pub status : Status
  pub ra : ℕ
  pub rb : ℕ
  pub out : Bytes

abbrev pub fail : Status → Reply
fail status = record { status = status; ra = 0; rb = 0; out = [] }

abbrev pub done : ℕ → ℕ → Bytes → Reply
done ra rb out = record { status = e_ok; ra = ra; rb = rb; out = out }

unfoldable pub errno_to_gemdos : Errno → Status
errno_to_gemdos enoent = efilnf
errno_to_gemdos enotdir = epthnf
errno_to_gemdos enametoolong = epthnf
errno_to_gemdos eloop = epthnf
errno_to_gemdos emfile = enhndl
errno_to_gemdos enfile = enhndl
errno_to_gemdos enomem = ensmem
errno_to_gemdos _ = eaccdn

-- The search for a slot: its index, or the table's length.
unfoldable pub free_file : List FileHandle → ℕ
free_file [] = 0
free_file (f ∷ fs) = let rest = free_file fs in if f.used then suc rest else 0

unfoldable pub free_dir : List DirHandle → ℕ
free_dir [] = 0
free_dir (d ∷ ds) = let rest = free_dir ds in if d.used then suc rest else 0

unfoldable pub used_file : Option FileHandle → Option FileHandle
used_file none = none
used_file (some f) = if f.used then some f else none

unfoldable pub used_dir : Option DirHandle → Option DirHandle
used_dir none = none
used_dir (some d) = if d.used then some d else none

unfoldable pub file_of : List FileHandle → ℕ → Option FileHandle
unfolding used_file
file_of files h = if ltb h 1 || ltb max_files h then none else used_file (get_elem? files (h - 1))

unfoldable pub dir_of : List DirHandle → ℕ → Option DirHandle
unfolding used_dir
dir_of dirs h = if ltb h 1 || ltb max_dirs h then none else used_dir (get_elem? dirs (h - 1))

abbrev pub dir_release : DirHandle → DirHandle
dir_release d = record d { used = false; names = [] }

unfoldable pub reset_dirs : List DirHandle → List DirHandle
reset_dirs [] = []
reset_dirs (d ∷ ds) = (if d.used then dir_release d else d) ∷ reset_dirs ds

module _ (H : Host) where
  -- One round of the loop over `files`.
  unfoldable pub reset_file : FileHandle → H.Os → FileHandle × H.Os
  reset_file f os =
      if f.used
      then (let os' = if f.dirty then (H.fsync f.fd os).1 else os in
          (record f { used = false }, H.close_fd f.fd os'))
      else (f, os)

  unfoldable pub reset_files : List FileHandle → H.Os → List FileHandle × H.Os
  unfolding reset_file
  reset_files [] os = ([], os)
  reset_files (f ∷ fs) os =
      let (f', os') = reset_file f os in let (fs', os'') = reset_files fs os' in (f' ∷ fs', os'')

  unfoldable pub handles_reset : Daemon H.Os → Daemon H.Os
  unfolding reset_files reset_dirs
  handles_reset d =
      let (files', os') = reset_files d.files d.os in
      record { files = files'; dirs = reset_dirs d.dirs; os = os' }

  -- The static tables, which start as zeros.
  abbrev pub start : H.Os → Daemon H.Os
  start os = record {
    files = replicate max_files (record { used = false; fd = 0; dirty = false });
    dirs = replicate max_dirs (record { used = false; names = []; path = [] });
    os = os;
  }
