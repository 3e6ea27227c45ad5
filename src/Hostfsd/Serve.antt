-- ===== src/Hostfsd/Serve.antt =====
-- tools/hostfsd/shinogi-hostfsd.c, `serve`: one request and its reply.
pub mod Tables
pub mod Invariant
pub mod Frames
pub mod ReadOnly
pub mod Owned
pub mod Descriptors
use shinogi.Base.{
  ℕ, zero, suc, ◌+◌, ◌-◌, ◌%◌, Bool, true, false, not, ◌&&◌, ◌||◌, List, [], ◌∷◌, ◌++◌, Option,
  none, some, Bytes, length, drop, ltb, leb, ◌==◌, if◌then◌else◌,
}
use shinogi.Hostfsd.Config.{Config}
use shinogi.Hostfsd.Daemon.{Daemon, Request, Reply, fail, done, handles_reset}
use shinogi.Hostfsd.Dirs.{opendir_op, readdir_op, closedir_op}
use shinogi.Hostfsd.Files.{open_op, close_op, read_op, write_op}
use shinogi.Hostfsd.Frame.{get16, get32, put16, put32}
use shinogi.Hostfsd.Host.{Host}
use shinogi.Hostfsd.Proto.{
  Op, op_hello, op_open, op_close, op_read, op_write, op_stat, op_opendir, op_readdir, op_closedir,
  op_create, op_delete, op_rename, op_mkdir, op_rmdir, op_setattr, op_dfree, op_caps,
  op_readdir_batch, unknown, op_of, Status, e_ok, eaccdn, edrive, magnitude, rep_hdr, req_hdr,
  max_rep_data, proto_version, cap_readdir_batch, o_rdonly,
}
use shinogi.Hostfsd.Tree.{path_op, rename_op, setattr_op, stat_op, dfree_op}

-- The operations that a read-only drive refuses.
unfoldable pub is_refused : Op → ℕ → Bool
is_refused op_write a = true
is_refused op_create a = true
is_refused op_delete a = true
is_refused op_rename a = true
is_refused op_mkdir a = true
is_refused op_rmdir a = true
is_refused op_setattr a = true
is_refused op_open a = not (a == o_rdonly)
is_refused _ a = false

module _ (H : Host) (cfg : Config) where
  unfoldable pub hello_op : ℕ → Daemon H.Os → Reply × Daemon H.Os
  hello_op a d =
      if not (a == proto_version)
      then (fail edrive, d)
      else (done proto_version max_rep_data cfg.label, handles_reset H d)

  -- The `switch`.
  unfoldable pub dispatch : Op → Request → Daemon H.Os → Reply × Daemon H.Os
  dispatch op_caps r d = (done cap_readdir_batch 0 [], d)
  dispatch op_hello r d = hello_op r.a d
  dispatch op_open r d = open_op H cfg false r.a r.payload d
  dispatch op_create r d = open_op H cfg true r.a r.payload d
  dispatch op_close r d = close_op H r.a d
  dispatch op_read r d = read_op H r.a r.b r.c d
  dispatch op_write r d = write_op H r.a r.b r.payload d
  dispatch op_stat r d = stat_op H cfg r.payload d
  dispatch op_opendir r d = opendir_op H cfg r.payload d
  dispatch op_readdir r d = readdir_op H false r.a r.b d
  dispatch op_readdir_batch r d = readdir_op H true r.a r.b d
  dispatch op_closedir r d = closedir_op r.a d
  dispatch op_delete r d = path_op H H.unlink cfg r.payload d
  dispatch op_mkdir r d = path_op H H.make_dir cfg r.payload d
  dispatch op_rmdir r d = path_op H H.remove_dir cfg r.payload d
  dispatch op_rename r d = rename_op H cfg r.payload d
  dispatch op_setattr r d = setattr_op H cfg r.a r.payload d
  dispatch op_dfree r d = dfree_op H cfg d
  dispatch unknown r d = (fail edrive, d)

  -- The refusal in front of the `switch`, and the `switch`.
  unfoldable pub answer : Request → Daemon H.Os → Reply × Daemon H.Os
  answer r d = if cfg.read_only && is_refused r.op r.a then (fail eaccdn, d) else dispatch r.op r d

-- `if (status != HOSTFS_E_OK)`, behind the `switch`.
unfoldable pub settle : Reply → Reply
settle r = elim r.status [ e_ok ↦ r | e ↦ fail e ]

-- `status & 0xffff`
abbrev pub status_field : Status → ℕ
status_field s = (65536 - magnitude s) % 65536

unfoldable pub encode_reply : Reply → Bytes
encode_reply r =
    put16 (rep_hdr + length r.out)
    ++ (put16 (status_field r.status) ++ (put32 r.ra ++ (put32 r.rb ++ r.out)))

-- The fields of a frame of at least `HOSTFS_REQ_HDR` bytes.
unfoldable pub decode_request : Bytes → Request
decode_request req = record {
  op = op_of (get16 (drop 2 req));
  a = get32 (drop 4 req);
  b = get32 (drop 8 req);
  c = get32 (drop 12 req);
  payload = drop req_hdr req;
}

unfoldable pub serve : (H : Host) → Config → Bytes → Daemon H.Os → Bytes × Daemon H.Os
serve H cfg req d =
    let (r, d') = answer H cfg (decode_request req) d in (encode_reply (settle r), d')
