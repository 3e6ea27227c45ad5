-- ===== src/Hostfsd/Serve/Descriptors.antt =====
-- The descriptors that the helper has open on the host, against its table of files, for each request.
use shinogi.Base.{
  ℕ, ◌-◌, Bool, true, false, ◌&&◌, ◌||◌, some, Bytes, ◌≡◌, inl, inr, refl, sym, ap, ◌∙◌, arith,
  length, get_elem?, ltb, ◌==◌, if◌then◌else◌, Bool-cases, Option-cases,
}
use shinogi.Base.Result.{Result, ok, err, Result-cases}
use shinogi.Hostfsd.Config.{Config}
use shinogi.Hostfsd.Daemon.{
  max_files, FileHandle, free_file, file_of, Daemon, Request, handles_reset, start,
}
use shinogi.Hostfsd.Daemon.Held.{
  holds-set_free, UniqueFds-set_free, holds-set_same, UniqueFds-set_same, holds-replicate,
  UniqueFds-replicate,
}
use shinogi.Hostfsd.Daemon.Tables.{file_of-slot, free_file-is_free, free_file-le}
use shinogi.Hostfsd.Dirs.{opendir_at, opendir_op, readdir_op, closedir_op}
use shinogi.Hostfsd.Files.{
  is_directory, open_flags, open_mode, take_slot, open_resolved, open_op, close_op, read_at,
  read_op, write_at, write_op,
}
use shinogi.Hostfsd.Host.{Host, Errno}
use shinogi.Hostfsd.Path.{resolve_path}
use shinogi.Hostfsd.Proto.{
  Op, op_hello, op_open, op_close, op_read, op_write, op_create, op_delete, op_rename, op_mkdir,
  op_rmdir, op_setattr, max_rep_data, proto_version,
}
use shinogi.Hostfsd.Serve.{is_refused, hello_op, dispatch, answer}
use shinogi.Hostfsd.Serve.Invariant.{IsSound}
use shinogi.Hostfsd.Serve.Tables.{
  read_op-KeepsTables, rename_op-KeepsTables, setattr_op-KeepsTables,
}
use shinogi.Hostfsd.Tree.{by_call, path_op, rename_op, setattr_op, stat_op, dfree_op}
use shinogi.Hostfsd.Serve.Owned.{
  TracksOpen, IsOwned, reset_files-is_open, handles_reset-IsOwned, stays, closed,
}

module _ (H : Host) (cfg : Config) (is_open : H.Os → ℕ → Bool) (t : TracksOpen H is_open) where
  module _ (d : Daemon H.Os) (o : IsOwned H is_open d) where
    -- A new descriptor goes to a free slot, or is closed again where it is a directory's.
    take_slot-IsOwned :
        (fd : ℕ) (os : H.Os) (f : FileHandle)
        → get_elem? d.files (free_file d.files) ≡ some f
        → f.used ≡ false
        → is_open d.os fd ≡ false
        → ((x : ℕ) → is_open os x ≡ (fd == x || is_open d.os x))
        → IsOwned H is_open (take_slot H (free_file d.files) fd (record d { os = os })).1
    unfolding take_slot
    take_slot-IsOwned fd os f at free fresh opened =
        elim (Bool-cases (is_directory (H.fstat os fd))) [
          | inl dir ↦
              rw (dir, take_slot)
                (record {
                  agree = λ x. ground (arith, t.closes fd os x, opened x, fresh, o.agree x);
                  unique = o.unique;
                })
          | inr file ↦
              let g : FileHandle = record { used = true; fd = fd; dirty = false } in
              rw (file, take_slot)
                (record {
                  agree = λ x. ground (
                    arith,
                    opened x,
                    o.agree x,
                    holds-set_free d.files (free_file d.files) g x at free refl,
                  );
                  unique =
                      UniqueFds-set_free d.files (free_file d.files) g at free refl
                        (sym (o.agree fd) ∙ fresh) o.unique;
                })
        ]

    open_resolved-IsOwned :
        (creating : Bool) (a : ℕ) (path : Bytes)
        → length d.files ≡ max_files
        → IsOwned H is_open (open_resolved H creating a path d).1
    unfolding open_resolved
    open_resolved-IsOwned creating a path size =
        elim (Bool-cases (free_file d.files == max_files)) [
          | inl full ↦ rw (full, open_resolved) o
          | inr room ↦
              let (f, at, free) =
                free_file-is_free d.files (ground (arith, free_file-le d.files)) in
              let flags = open_flags creating a in
              let mode = open_mode creating a in
              elim (Result-cases (H.open_file path flags mode d.os).0) [
                | inl (fd, e) ↦
                    let (fresh, opened) = t.opens path flags mode d.os fd e in
                    rw (room, e, open_resolved)
                      (take_slot-IsOwned fd (H.open_file path flags mode d.os).1 f at free fresh
                        opened)
                | inr (why, e) ↦
                    rw (room, e, open_resolved)
                      (stays H is_open t d o _ refl (t.fails path flags mode d.os why e))
              ]
        ]

    open_op-IsOwned :
        (creating : Bool) (a : ℕ) (payload : Bytes)
        → length d.files ≡ max_files
        → IsOwned H is_open (open_op H cfg creating a payload d).1
    unfolding open_op
    open_op-IsOwned creating a payload size =
        elim (Result-cases (resolve_path H d.os cfg.root payload)) [
          | inr (e, m) ↦ rw (m, open_op) o
          | inl (path, m) ↦ rw (m, open_op) (open_resolved-IsOwned creating a path size)
        ]

    close_op-IsOwned : (a : ℕ) → IsOwned H is_open (close_op H a d).1
    unfolding close_op
    close_op-IsOwned a = elim (Option-cases (file_of d.files a)) [
      | inl e ↦ rw (e, close_op) o
      | inr (f, e) ↦
          let (_, _, at, used) = file_of-slot d.files a e in
          let flushed : is_open (if f.dirty then (H.fsync f.fd d.os).1 else d.os) ≡ is_open d.os =
            ground (arith, t.fsync f.fd d.os) in
          rw (e, close_op)
            (closed H is_open t d o (a - 1) f (record f { used = false; dirty = false }) _ at used
              refl flushed)
    ]

    read_op-IsOwned : (a b c : ℕ) → IsOwned H is_open (read_op H a b c d).1
    unfolding read_op read_at
    read_op-IsOwned a b c =
        stays H is_open t d o _ (read_op-KeepsTables H cfg d a b c).0
          (elim (Option-cases (file_of d.files a)) [
            | inl e ↦ ground arith
            | inr (f, e) ↦ ground (
              arith,
              t.lseek f.fd b d.os,
              t.read f.fd (if ltb max_rep_data c then max_rep_data else c) (H.lseek f.fd b d.os).1,
            )
          ])

    write_at-IsOwned :
        (f : FileHandle) (a b : ℕ) (payload : Bytes)
        → get_elem? d.files (a - 1) ≡ some f
        → IsOwned H is_open (write_at H f a b payload d).1
    unfolding write_at
    write_at-IsOwned f a b payload at =
        let moved = H.lseek f.fd b d.os in
        let put = H.write_fd f.fd payload moved.1 in
        let same = t.write f.fd payload moved.1 ∙ t.lseek f.fd b d.os in
        elim (Result-cases moved.0) [
          | inr (e, m) ↦ rw (m, write_at) (stays H is_open t d o _ refl (t.lseek f.fd b d.os))
          | inl (_, m) ↦ elim (Result-cases put.0) [
            | inr (e, w) ↦ rw (m, w, write_at) (stays H is_open t d o _ refl same)
            | inl (n, w) ↦
                let g : FileHandle = if ltb 0 n then record f { dirty = true } else f in
                let used : g.used ≡ f.used = ground arith in
                let fd : g.fd ≡ f.fd = ground arith in
                rw (m, w, write_at)
                  (record {
                    agree = λ x.
                        ap (λ (p : ℕ → Bool). p x) same
                        ∙ o.agree x
                        ∙ sym (holds-set_same d.files (a - 1) g x at used fd);
                    unique = UniqueFds-set_same d.files (a - 1) g at used fd o.unique;
                  })
          ]
        ]

    write_op-IsOwned : (a b : ℕ) (payload : Bytes) → IsOwned H is_open (write_op H a b payload d).1
    unfolding write_op
    write_op-IsOwned a b payload = elim (Option-cases (file_of d.files a)) [
      | inl e ↦ rw (e, write_op) o
      | inr (f, e) ↦ rw (e, write_op) (write_at-IsOwned f a b payload (file_of-slot d.files a e).2)
    ]

    by_call-IsOwned :
        (c : Result Errno (Unit {0}) × H.Os)
        → is_open c.1 ≡ is_open d.os
        → IsOwned H is_open (by_call H d c).1
    unfolding by_call
    by_call-IsOwned (ok _, os) e = stays H is_open t d o _ refl e
    by_call-IsOwned (err _, os) e = stays H is_open t d o _ refl e

    path_op-IsOwned :
        (call : Bytes → H.Os → Result Errno (Unit {0}) × H.Os) (payload : Bytes)
        → ((p : Bytes) → is_open (call p d.os).1 ≡ is_open d.os)
        → IsOwned H is_open (path_op H call cfg payload d).1
    unfolding path_op
    path_op-IsOwned call payload e = elim (Result-cases (resolve_path H d.os cfg.root payload)) [
      | inr (_, m) ↦ rw (m, path_op) o
      | inl (path, m) ↦ rw (m, path_op) (by_call-IsOwned (call path d.os) (e path))
    ]

    rename_op-is_open : (payload : Bytes) → is_open (rename_op H cfg payload d).1.os ≡ is_open d.os
    unfolding rename_op by_call
    rename_op-is_open payload = grind (arith, t.rename)

    setattr_op-is_open :
        (a : ℕ) (payload : Bytes) → is_open (setattr_op H cfg a payload d).1.os ≡ is_open d.os
    unfolding setattr_op by_call
    setattr_op-is_open a payload = grind (arith, t.chmod)

    dispatch-IsOwned :
        (op : Op) (r : Request) → IsSound d → IsOwned H is_open (dispatch H cfg op r d).1
    unfolding dispatch hello_op stat_op opendir_op opendir_at readdir_op closedir_op dfree_op
    dispatch-IsOwned op_hello r s = elim (Bool-cases (r.a == proto_version)) [
      | inl same ↦ rw (same, hello_op) (handles_reset-IsOwned H is_open t d o)
      | inr other ↦ rw (other, hello_op) o
    ]
    dispatch-IsOwned op_open r s = open_op-IsOwned false r.a r.payload s.files_size
    dispatch-IsOwned op_create r s = open_op-IsOwned true r.a r.payload s.files_size
    dispatch-IsOwned op_close r s = close_op-IsOwned r.a
    dispatch-IsOwned op_read r s = read_op-IsOwned r.a r.b r.c
    dispatch-IsOwned op_write r s = write_op-IsOwned r.a r.b r.payload
    dispatch-IsOwned op_delete r s = path_op-IsOwned H.unlink r.payload (λ p. t.unlink p d.os)
    dispatch-IsOwned op_mkdir r s = path_op-IsOwned H.make_dir r.payload (λ p. t.make_dir p d.os)
    dispatch-IsOwned op_rmdir r s =
        path_op-IsOwned H.remove_dir r.payload (λ p. t.remove_dir p d.os)
    dispatch-IsOwned op_rename r s =
        stays H is_open t d o _ (rename_op-KeepsTables H cfg d r.payload).0
          (rename_op-is_open r.payload)
    dispatch-IsOwned op_setattr r s =
        stays H is_open t d o _ (setattr_op-KeepsTables H cfg d r.a r.payload).0
          (setattr_op-is_open r.a r.payload)
    dispatch-IsOwned _ r s = stays H is_open t d o _ (ground arith) (ground arith)

    -- Every request keeps the open descriptors and the table of files in step: none is leaked, none
    -- is held twice, and none that the table holds has been closed. After a reset none is open.
    pub answer-IsOwned :
        (r : Request)
        → IsSound d
        → IsOwned H is_open (answer H cfg r d).1
          × ((x : ℕ) → is_open (handles_reset H d).os x ≡ false)
    unfolding answer handles_reset
    answer-IsOwned r s = (
      elim (Bool-cases (cfg.read_only && is_refused r.op r.a)) [
        | inl refused ↦ rw (refused, answer) o
        | inr passed ↦ rw (passed, answer) (dispatch-IsOwned r.op r s)
      ],
      λ x. ground (arith, reset_files-is_open H is_open t d.files d.os x, o.agree x),
    )

  -- At the start, with no descriptor open, there is nothing to own.
  pub start-IsOwned :
      (os : H.Os) → ((x : ℕ) → is_open os x ≡ false) → IsOwned H is_open (start H os)
  start-IsOwned os none_open = record {
    agree = λ x. none_open x ∙ sym (holds-replicate max_files _ x refl);
    unique = UniqueFds-replicate max_files _ refl;
  }
