-- ===== src/Hostfsd/Serve/ReadOnly.antt =====
-- What `--read-only` promises: no request changes what the host stores.
use shinogi.Base.{
  ℕ, true, false, List, [], ◌∷◌, Bytes, ◌≡◌, inl, inr, refl, ◌∙◌, arith, ltb, if◌then◌else◌,
  Bool-cases, Option-cases,
}
use shinogi.Base.Result.{Result-cases}
use shinogi.Hostfsd.Config.{Config}
use shinogi.Hostfsd.Daemon.{
  FileHandle, free_file, file_of, Daemon, Request, reset_file, reset_files, handles_reset,
}
use shinogi.Hostfsd.Dirs.{opendir_at, opendir_op, readdir_op, closedir_op}
use shinogi.Hostfsd.Files.{
  open_flags, open_mode, take_slot, open_resolved, open_op, close_op, read_at, read_op,
}
use shinogi.Hostfsd.Host.{Host, rdonly}
use shinogi.Hostfsd.Path.{resolve_path}
use shinogi.Hostfsd.Proto.{Op, op_hello, op_open, op_close, op_read, o_rdonly, max_rep_data}
use shinogi.Hostfsd.Serve.{is_refused, hello_op, dispatch, answer}
use shinogi.Hostfsd.Tree.{stat_op, dfree_op}

-- A part of the host's state that reading leaves alone, such as the names, contents and modes of
-- its files.
pub record IsStored (H : Host) {V : Type 0} (view : H.Os → V) : Type 0 where
  pub open_rdonly :
      (path : Bytes) (mode : ℕ) (os : H.Os) → view (H.open_file path rdonly mode os).1 ≡ view os
  pub close : (fd : ℕ) (os : H.Os) → view (H.close_fd fd os) ≡ view os
  pub flush : (fd : ℕ) (os : H.Os) → view (H.fsync fd os).1 ≡ view os
  pub seek : (fd at : ℕ) (os : H.Os) → view (H.lseek fd at os).1 ≡ view os
  pub read : (fd n : ℕ) (os : H.Os) → view (H.read_fd fd n os).1 ≡ view os

module _ (H : Host) (cfg : Config) {V : Type 0} (view : H.Os → V) (q : IsStored H view) where
  reset_file-view : (f : FileHandle) (os : H.Os) → view (reset_file H f os).1 ≡ view os
  unfolding reset_file
  reset_file-view f os =
      ground (arith, q.close f.fd os, q.close f.fd (H.fsync f.fd os).1, q.flush f.fd os)

  reset_files-view : (fs : List FileHandle) (os : H.Os) → view (reset_files H fs os).1 ≡ view os
  unfolding reset_files
  reset_files-view [] os = refl
  reset_files-view (f ∷ fs) os = reset_files-view fs (reset_file H f os).1 ∙ reset_file-view f os

  module _ (d : Daemon H.Os) where
    hello_op-view : (a : ℕ) → view (hello_op H cfg a d).1.os ≡ view d.os
    unfolding hello_op handles_reset
    hello_op-view a = ground (arith, reset_files-view d.files d.os)

    take_slot-view :
        (i fd : ℕ) (os : H.Os) → view (take_slot H i fd (record d { os = os })).1.os ≡ view os
    unfolding take_slot
    take_slot-view i fd os = ground (arith, q.close fd os)

    open_resolved-view :
        (path : Bytes) → view (open_resolved H false o_rdonly path d).1.os ≡ view d.os
    unfolding open_resolved open_flags
    open_resolved-view path =
        let m = open_mode false o_rdonly in
        let os' = (H.open_file path rdonly m d.os).1 in
        elim (Result-cases (H.open_file path rdonly m d.os).0) [
          | inl (fd, e) ↦
              ground (arith, take_slot-view (free_file d.files) fd os', q.open_rdonly path m d.os)
          | inr (e, m') ↦ ground (arith, q.open_rdonly path m d.os)
        ]

    close_op-view : (a : ℕ) → view (close_op H a d).1.os ≡ view d.os
    unfolding close_op
    close_op-view a = elim (Option-cases (file_of d.files a)) [
      | inl e ↦ ground arith
      | inr (f, e) ↦
          ground (arith, q.close f.fd d.os, q.close f.fd (H.fsync f.fd d.os).1, q.flush f.fd d.os)
    ]

    read_at-view : (fd b c : ℕ) → view (read_at H fd b c d).1.os ≡ view d.os
    unfolding read_at
    read_at-view fd b c = ground (
      arith,
      q.seek fd b d.os,
      q.read fd (if ltb max_rep_data c then max_rep_data else c) (H.lseek fd b d.os).1,
    )

    dispatch-view :
        (op : Op) (r : Request)
        → is_refused op r.a ≡ false
        → view (dispatch H cfg op r d).1.os ≡ view d.os
    unfolding is_refused dispatch open_op read_op stat_op opendir_op opendir_at readdir_op
        closedir_op dfree_op
    dispatch-view op_hello r h = hello_op-view r.a
    dispatch-view op_open r h = elim (Result-cases (resolve_path H d.os cfg.root r.payload)) [
      | inl (path, e) ↦
          let z : r.a ≡ o_rdonly = ground arith in rw (e, z, open_op) (open_resolved-view path)
      | inr (e, m) ↦ ground arith
    ]
    dispatch-view op_close r h = close_op-view r.a
    dispatch-view op_read r h = elim (Option-cases (file_of d.files r.a)) [
      | inl e ↦ ground arith
      | inr (f, e) ↦ ground (arith, read_at-view f.fd r.b r.c)
    ]
    dispatch-view _ r h = ground arith

  -- On a read-only drive no request changes what the host stores, whatever reading, opening for
  -- reading, seeking, flushing and closing leave alone.
  pub answer-view :
      (d : Daemon H.Os) (r : Request)
      → cfg.read_only ≡ true
      → view (answer H cfg r d).1.os ≡ view d.os
  unfolding answer
  answer-view d r ro = elim (Bool-cases (is_refused r.op r.a)) [
    | inl refused ↦ ground arith
    | inr passed ↦ ground (arith, dispatch-view d r.op r passed)
  ]
