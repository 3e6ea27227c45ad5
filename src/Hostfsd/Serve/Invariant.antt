-- ===== src/Hostfsd/Serve/Invariant.antt =====
-- The invariant of the tables of handles, and that every request keeps it.
use shinogi.Base.{
  ℕ, ◌-◌, Bool, true, false, not, ◌&&◌, List, [], ◌∷◌, Bytes, ◌≡◌, inl, inr, refl, ap, ◌∙◌, arith,
  length, set, length-set, ◌==◌, if◌then◌else◌, All, All-set, All-replicate, Option-cases,
}
use shinogi.Base.Result.{Result-cases}
use shinogi.Hostfsd.Config.{Config}
use shinogi.Hostfsd.Daemon.{
  max_files, max_dirs, DirHandle, free_dir, dir_of, dir_release, Daemon, Request, Reply, reset_dirs,
  handles_reset, start,
}
use shinogi.Hostfsd.Daemon.Tables.{length-reset_files, length-reset_dirs}
use shinogi.Hostfsd.Dirs.{opendir_at, opendir_op, dir_snapshot, closedir_op}
use shinogi.Hostfsd.Dirs.Snapshot.{IsSorted, dir_snapshot-listing}
use shinogi.Hostfsd.Files.{take_slot, open_resolved, open_op, close_op, write_at, write_op}
use shinogi.Hostfsd.Host.{Host}
use shinogi.Hostfsd.Names.{component_ok}
use shinogi.Hostfsd.Path.{resolve_path}
use shinogi.Hostfsd.Proto.{
  Op, op_hello, op_open, op_close, op_read, op_write, op_stat, op_opendir, op_readdir, op_closedir,
  op_create, op_delete, op_rename, op_mkdir, op_rmdir, op_setattr, op_dfree, op_caps,
  op_readdir_batch, unknown, proto_version,
}
use shinogi.Hostfsd.Serve.{is_refused, hello_op, dispatch, answer}
use shinogi.Hostfsd.Serve.Tables.{
  KeepsTables, path_op-KeepsTables, rename_op-KeepsTables, setattr_op-KeepsTables,
  stat_op-KeepsTables, dfree_op-KeepsTables, read_op-KeepsTables, readdir_op-KeepsTables,
}

-- A snapshot holds vetted names in order, and a slot that is not in use holds none.
pub record IsSnapshot (h : DirHandle) : Type 0 where
  pub vetted : All (λ n. component_ok n ≡ true) h.names
  pub sorted : IsSorted h.names
  pub empty : h.used ≡ false → h.names ≡ []

pub record IsSound {Os : Type 0} (d : Daemon Os) : Type 0 where
  pub files_size : length d.files ≡ max_files
  pub dirs_size : length d.dirs ≡ max_dirs
  pub snapshots : All IsSnapshot d.dirs

released : (h : DirHandle) → IsSnapshot (dir_release h)
released h = record { vetted = tt; sorted = tt; empty = λ _. refl }

released_if :
    (b : Bool) (h : DirHandle) → IsSnapshot h → IsSnapshot (if b then dir_release h else h)
released_if true h s = released h
released_if false h s = s

reset_dirs-IsSnapshot : (ds : List DirHandle) → All IsSnapshot ds → All IsSnapshot (reset_dirs ds)
unfolding reset_dirs
reset_dirs-IsSnapshot [] s = tt
reset_dirs-IsSnapshot (h ∷ ds) (s, ss) = (released_if h.used h s, reset_dirs-IsSnapshot ds ss)

module _ (H : Host) (cfg : Config) (d : Daemon H.Os) (s : IsSound d) where
  -- A request that changes at most which files are open.
  by_files : (d' : Daemon H.Os) → length d'.files ≡ length d.files → d'.dirs ≡ d.dirs → IsSound d'
  by_files d' n e = record {
    files_size = n ∙ s.files_size;
    dirs_size = ap (length {0}) e ∙ s.dirs_size;
    snapshots = rw e s.snapshots;
  }

  keeps : (d' : Daemon H.Os) → KeepsTables d d' → IsSound d'
  keeps d' (f, e) = by_files d' (ap (length {0}) f) e

  -- A request that writes a sound snapshot to one slot.
  by_dir : (i : ℕ) (h : DirHandle) → IsSnapshot h → IsSound (record d { dirs = set d.dirs i h })
  by_dir i h ok_h = record {
    files_size = s.files_size;
    dirs_size = length-set d.dirs i h ∙ s.dirs_size;
    snapshots = All-set IsSnapshot d.dirs i h s.snapshots ok_h;
  }

  -- The table of files keeps its size, and the table of directories stays.
  abbrev KeepsSize : Daemon H.Os → Type 0
  KeepsSize d' = (length d'.files ≡ length d.files) × (d'.dirs ≡ d.dirs)

  open_op-KeepsSize :
      (creating : Bool) (a : ℕ) (payload : Bytes) → KeepsSize (open_op H cfg creating a payload d).1
  unfolding open_op open_resolved take_slot
  open_op-KeepsSize creating a payload = grind (arith, length-set)

  close_op-KeepsSize : (a : ℕ) → KeepsSize (close_op H a d).1
  unfolding close_op
  close_op-KeepsSize a = grind (arith, length-set)

  write_op-KeepsSize : (a b : ℕ) (payload : Bytes) → KeepsSize (write_op H a b payload d).1
  unfolding write_op write_at
  write_op-KeepsSize a b payload = grind (arith, length-set)

  opendir_at-IsSound : (i : ℕ) (path : Bytes) → IsSound (opendir_at H i path d).1
  unfolding opendir_at
  opendir_at-IsSound i path = elim (Result-cases (dir_snapshot H d.os path)) [
    | inr (e, m) ↦ rw (m, opendir_at) s
    | inl (names, m) ↦
        let (_, _, sorted, _, vetted) = dir_snapshot-listing H d.os path names m in
        rw (m, opendir_at)
          (by_dir i _ (record { vetted = vetted; sorted = sorted; empty = λ e. absurd (cc) }))
  ]

  either :
      (b : Bool) (x y : Reply × Daemon H.Os)
      → IsSound x.1
      → IsSound y.1
      → IsSound (if b then x else y).1
  either true x y h k = h
  either false x y h k = k

  opendir_op-IsSound : (payload : Bytes) → IsSound (opendir_op H cfg payload d).1
  unfolding opendir_op
  opendir_op-IsSound payload = elim (Result-cases (resolve_path H d.os cfg.root payload)) [
    | inr (e, m) ↦ rw (m, opendir_op) s
    | inl (path, m) ↦
        rw (m, opendir_op)
          (either (free_dir d.dirs == max_dirs) _ (opendir_at H (free_dir d.dirs) path d) s
            (opendir_at-IsSound (free_dir d.dirs) path))
  ]

  closedir_op-IsSound : (a : ℕ) → IsSound (closedir_op a d).1
  unfolding closedir_op
  closedir_op-IsSound a = elim (Option-cases (dir_of d.dirs a)) [
    | inl e ↦ rw (e, closedir_op) s
    | inr (h, e) ↦ rw (e, closedir_op) (by_dir (a - 1) (dir_release h) (released h))
  ]

  handles_reset-IsSound : IsSound (handles_reset H d)
  unfolding handles_reset
  handles_reset-IsSound = record {
    files_size = length-reset_files H d.files d.os ∙ s.files_size;
    dirs_size = length-reset_dirs d.dirs ∙ s.dirs_size;
    snapshots = reset_dirs-IsSnapshot d.dirs s.snapshots;
  }

  by_size : (d' : Daemon H.Os) → KeepsSize d' → IsSound d'
  by_size d' (n, e) = by_files d' n e

  dispatch-IsSound : (op : Op) (r : Request) → IsSound (dispatch H cfg op r d).1
  unfolding dispatch hello_op
  dispatch-IsSound op_hello r =
      either (not (r.a == proto_version)) _ (_, handles_reset H d) s handles_reset-IsSound
  dispatch-IsSound op_caps r = s
  dispatch-IsSound unknown r = s
  dispatch-IsSound op_open r = by_size _ (open_op-KeepsSize false r.a r.payload)
  dispatch-IsSound op_create r = by_size _ (open_op-KeepsSize true r.a r.payload)
  dispatch-IsSound op_close r = by_size _ (close_op-KeepsSize r.a)
  dispatch-IsSound op_write r = by_size _ (write_op-KeepsSize r.a r.b r.payload)
  dispatch-IsSound op_opendir r = opendir_op-IsSound r.payload
  dispatch-IsSound op_closedir r = closedir_op-IsSound r.a
  dispatch-IsSound op_read r = keeps _ (read_op-KeepsTables H cfg d r.a r.b r.c)
  dispatch-IsSound op_stat r = keeps _ (stat_op-KeepsTables H cfg d r.payload)
  dispatch-IsSound op_readdir r = keeps _ (readdir_op-KeepsTables H cfg d false r.a r.b)
  dispatch-IsSound op_readdir_batch r = keeps _ (readdir_op-KeepsTables H cfg d true r.a r.b)
  dispatch-IsSound op_delete r = keeps _ (path_op-KeepsTables H cfg d H.unlink r.payload)
  dispatch-IsSound op_mkdir r = keeps _ (path_op-KeepsTables H cfg d H.make_dir r.payload)
  dispatch-IsSound op_rmdir r = keeps _ (path_op-KeepsTables H cfg d H.remove_dir r.payload)
  dispatch-IsSound op_rename r = keeps _ (rename_op-KeepsTables H cfg d r.payload)
  dispatch-IsSound op_setattr r = keeps _ (setattr_op-KeepsTables H cfg d r.a r.payload)
  dispatch-IsSound op_dfree r = keeps _ (dfree_op-KeepsTables H cfg d)

  pub answer-IsSound : (r : Request) → IsSound (answer H cfg r d).1
  unfolding answer
  answer-IsSound r =
      either (cfg.read_only && is_refused r.op r.a) _ (dispatch H cfg r.op r d) s
        (dispatch-IsSound r.op r)

-- The states that the helper can be in: after its start, after a request or a reset, and after
-- other programs have changed the host's files.
pub data IsReachable (H : Host) (cfg : Config) : Daemon H.Os → Type 0 where
  at_start : (os : H.Os) → IsReachable H cfg (start H os)
  by_request :
      {d : Daemon H.Os} (r : Request) → IsReachable H cfg d → IsReachable H cfg (answer H cfg r d).1
  by_reset : {d : Daemon H.Os} → IsReachable H cfg d → IsReachable H cfg (handles_reset H d)
  by_others :
      {d : Daemon H.Os} (os : H.Os) → IsReachable H cfg d → IsReachable H cfg (record d { os = os })

-- In every state that the helper can reach, the tables have their sizes, each snapshot is sorted
-- and holds only names that pass the vetting, and a slot that is not in use holds no names.
pub IsReachable-IsSound :
    (H : Host) (cfg : Config) (d : Daemon H.Os) → IsReachable H cfg d → IsSound d
IsReachable-IsSound H cfg d (at_start os) = record {
  files_size = refl;
  dirs_size = refl;
  snapshots =
      All-replicate IsSnapshot max_dirs _ (record { vetted = tt; sorted = tt; empty = λ _. refl });
}
IsReachable-IsSound H cfg d (by_request {d = d'} r h) =
    answer-IsSound H cfg d' (IsReachable-IsSound H cfg d' h) r
IsReachable-IsSound H cfg d (by_reset {d = d'} h) =
    handles_reset-IsSound H cfg d' (IsReachable-IsSound H cfg d' h)
IsReachable-IsSound H cfg d (by_others {d = d'} os h) =
    let s = IsReachable-IsSound H cfg d' h in
    record { files_size = s.files_size; dirs_size = s.dirs_size; snapshots = s.snapshots }
