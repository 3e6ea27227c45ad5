-- ===== src/Hostfsd/Serve/Tables.antt =====
-- Which requests leave the tables of handles as they are.
use shinogi.Base.{ℕ, Bool, true, false, Bytes, ◌≡◌, ◌≢◌, inl, inr, refl, arith}
use shinogi.Base.Result.{Result, ok, err, Result-cases}
use shinogi.Hostfsd.Config.{Config}
use shinogi.Hostfsd.Daemon.{Daemon, Request}
use shinogi.Hostfsd.Dirs.{opendir_at, opendir_op, readdir_op, closedir_op}
use shinogi.Hostfsd.Files.{
  take_slot, open_resolved, open_op, close_op, read_at, read_op, write_at, write_op,
}
use shinogi.Hostfsd.Host.{Host, Errno}
use shinogi.Hostfsd.Path.{resolve_path}
use shinogi.Hostfsd.Proto.{
  Op, op_hello, op_open, op_close, op_read, op_write, op_stat, op_opendir, op_readdir, op_closedir,
  op_create, op_delete, op_rename, op_mkdir, op_rmdir, op_setattr, op_dfree, op_caps,
  op_readdir_batch, unknown, e_ok,
}
use shinogi.Hostfsd.Serve.{hello_op, dispatch, answer}
use shinogi.Hostfsd.Tree.{by_call, path_op, rename_op, setattr_op, stat_op, dfree_op}

-- Both tables are as they were.
abbrev pub KeepsTables : {Os : Type 0} → Daemon Os → Daemon Os → Type 0
KeepsTables d d' = (d'.files ≡ d.files) × (d'.dirs ≡ d.dirs)

module _ (H : Host) (cfg : Config) (d : Daemon H.Os) where
  by_call-KeepsTables : (c : Result Errno (Unit {0}) × H.Os) → KeepsTables d (by_call H d c).1
  unfolding by_call
  by_call-KeepsTables (ok _, os') = (refl, refl)
  by_call-KeepsTables (err _, os') = (refl, refl)

  pub path_op-KeepsTables :
      (call : Bytes → H.Os → Result Errno (Unit {0}) × H.Os) (payload : Bytes)
      → KeepsTables d (path_op H call cfg payload d).1
  unfolding path_op
  path_op-KeepsTables call payload = elim (Result-cases (resolve_path H d.os cfg.root payload)) [
    | inr (e, h) ↦ rw (h, path_op) (refl, refl)
    | inl (path, h) ↦ rw (h, path_op) (by_call-KeepsTables (call path d.os))
  ]

  pub rename_op-KeepsTables : (payload : Bytes) → KeepsTables d (rename_op H cfg payload d).1
  unfolding rename_op by_call
  rename_op-KeepsTables payload = ground arith

  pub setattr_op-KeepsTables :
      (a : ℕ) (payload : Bytes) → KeepsTables d (setattr_op H cfg a payload d).1
  unfolding setattr_op by_call
  setattr_op-KeepsTables a payload = ground arith

  pub stat_op-KeepsTables : (payload : Bytes) → KeepsTables d (stat_op H cfg payload d).1
  unfolding stat_op
  stat_op-KeepsTables payload = ground arith

  pub dfree_op-KeepsTables : KeepsTables d (dfree_op H cfg d).1
  unfolding dfree_op
  dfree_op-KeepsTables = ground arith

  pub read_op-KeepsTables : (a b c : ℕ) → KeepsTables d (read_op H a b c d).1
  unfolding read_op read_at
  read_op-KeepsTables a b c = ground arith

  pub readdir_op-KeepsTables : (batch : Bool) (a b : ℕ) → KeepsTables d (readdir_op H batch a b d).1
  unfolding readdir_op
  readdir_op-KeepsTables batch a b = ground arith

  open_op-error :
      (creating : Bool) (a : ℕ) (payload : Bytes)
      → (open_op H cfg creating a payload d).0.status ≢ e_ok
      → KeepsTables d (open_op H cfg creating a payload d).1
  unfolding open_op open_resolved take_slot
  open_op-error creating a payload h = ground arith

  write_op-error :
      (a b : ℕ) (payload : Bytes)
      → (write_op H a b payload d).0.status ≢ e_ok
      → KeepsTables d (write_op H a b payload d).1
  unfolding write_op write_at
  write_op-error a b payload h = ground arith

  close_op-error : (a : ℕ) → (close_op H a d).0.status ≢ e_ok → KeepsTables d (close_op H a d).1
  unfolding close_op
  close_op-error a h = ground arith

  opendir_op-error :
      (payload : Bytes)
      → (opendir_op H cfg payload d).0.status ≢ e_ok
      → KeepsTables d (opendir_op H cfg payload d).1
  unfolding opendir_op opendir_at
  opendir_op-error payload h = ground arith

  closedir_op-error :
      (a : ℕ) → (closedir_op a d).0.status ≢ e_ok → KeepsTables d (closedir_op a d).1
  unfolding closedir_op
  closedir_op-error a h = ground arith

  dispatch-error :
      (op : Op) (r : Request)
      → (dispatch H cfg op r d).0.status ≢ e_ok
      → KeepsTables d (dispatch H cfg op r d).1
  unfolding dispatch hello_op
  dispatch-error op_hello r h = ground arith
  dispatch-error op_caps r h = (refl, refl)
  dispatch-error unknown r h = (refl, refl)
  dispatch-error op_open r h = open_op-error false r.a r.payload h
  dispatch-error op_create r h = open_op-error true r.a r.payload h
  dispatch-error op_close r h = close_op-error r.a h
  dispatch-error op_read r h = read_op-KeepsTables r.a r.b r.c
  dispatch-error op_write r h = write_op-error r.a r.b r.payload h
  dispatch-error op_stat r h = stat_op-KeepsTables r.payload
  dispatch-error op_opendir r h = opendir_op-error r.payload h
  dispatch-error op_readdir r h = readdir_op-KeepsTables false r.a r.b
  dispatch-error op_readdir_batch r h = readdir_op-KeepsTables true r.a r.b
  dispatch-error op_closedir r h = closedir_op-error r.a h
  dispatch-error op_delete r h = path_op-KeepsTables H.unlink r.payload
  dispatch-error op_mkdir r h = path_op-KeepsTables H.make_dir r.payload
  dispatch-error op_rmdir r h = path_op-KeepsTables H.remove_dir r.payload
  dispatch-error op_rename r h = rename_op-KeepsTables r.payload
  dispatch-error op_setattr r h = setattr_op-KeepsTables r.a r.payload
  dispatch-error op_dfree r h = dfree_op-KeepsTables

  -- A request that is answered with an error leaves both tables of handles as they were.
  pub answer-error :
      (r : Request) → (answer H cfg r d).0.status ≢ e_ok → KeepsTables d (answer H cfg r d).1
  unfolding answer
  answer-error r h = ground (arith, dispatch-error r.op r)
