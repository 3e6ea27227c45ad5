-- ===== src/Hostfsd/Tree.antt =====
-- tools/hostfsd/shinogi-hostfsd.c, `serve`: the requests that name a path and keep no handle, and
-- DFREE.
use Prim.Native.Nat.{bit_and, bit_or}
use shinogi.Base.{
  ℕ, ◌*◌, ◌/◌, ◌%◌, ◌^◌, Bool, [], ◌∷◌, Option, none, some, Bytes, ltb, ◌==◌, if◌then◌else◌,
}
use shinogi.Base.Result.{Result, ok, err}
use shinogi.Hostfsd.Config.{Config}
use shinogi.Hostfsd.Daemon.{Daemon, Reply, fail, done, errno_to_gemdos}
use shinogi.Hostfsd.Host.{Errno, Stat, Vfs, Host}
use shinogi.Hostfsd.Path.{resolve_path}
use shinogi.Hostfsd.Proto.{epthnf, fa_ro, fa_subdir, dfree_max_kb}

-- The attribute byte, from `S_ISDIR` and the result of `plat_access_w`.
unfoldable pub attr_of : Bool → Bool → ℕ
attr_of is_dir writable =
    let attr = if is_dir then fa_subdir else 0 in if writable then attr else bit_or attr fa_ro

-- The new permission bits, of nine; `mode &= ~0222` keeps the six that are not for writing.
unfoldable pub new_mode : ℕ → ℕ → ℕ
new_mode a mode =
    if bit_and a fa_ro == 0 then bit_or mode (bit_and mode 0o444 / 2) else bit_and mode 0o555

-- The bytes before the first NUL and those behind it, if there is one.
unfoldable pub split_nul : Bytes → Option (Bytes × Bytes)
split_nul [] = none
split_nul (c ∷ cs) =
    let rest = split_nul cs in
    if c == 0 then some ([], cs) else elim rest [ none ↦ none | some (x, y) ↦ some (c ∷ x, y) ]

-- `plat_dfree` on POSIX: a count of blocks in kilobytes, clamped.
unfoldable pub kilobytes : ℕ → ℕ → ℕ
kilobytes blocks unit =
    let kb = blocks * unit % 2 ^ 64 / 1024 in if ltb dfree_max_kb kb then dfree_max_kb else kb

unfoldable pub unit_of : Vfs → ℕ
unit_of v = if v.frsize == 0 then v.bsize else v.frsize

-- The values behind `ra`, `rb` and `out[0]`.
unfoldable pub stat_reply : Config → Bool → Stat → Reply
stat_reply cfg writable st =
    let attr = attr_of st.is_dir writable in
    done (if st.is_dir then 0 else st.size) st.mtime
      (bit_or attr (if cfg.read_only then fa_ro else 0) ∷ [])

module _ (H : Host) where
  -- `if (call(path) != 0) status = errno_to_gemdos(errno)`
  unfoldable pub by_call : Daemon H.Os → Result Errno (Unit {0}) × H.Os → Reply × Daemon H.Os
  by_call d (err e, os') = (fail (errno_to_gemdos e), record d { os = os' })
  by_call d (ok _, os') = (done 0 0 [], record d { os = os' })

  -- DELETE, MKDIR and RMDIR, which differ in the call.
  unfoldable pub path_op :
      (Bytes → H.Os → Result Errno (Unit {0}) × H.Os)
      → Config
      → Bytes
      → Daemon H.Os
      → Reply × Daemon H.Os
  path_op call cfg payload d = elim (resolve_path H d.os cfg.root payload) [
    | err e ↦ (fail e, d)
    | ok path ↦ by_call d (call path d.os)
  ]

  unfoldable pub rename_op : Config → Bytes → Daemon H.Os → Reply × Daemon H.Os
  rename_op cfg payload d = elim (split_nul payload) [
    | none ↦ (fail epthnf, d)
    | some (old, new) ↦ elim (resolve_path H d.os cfg.root old) [
      | err e ↦ (fail e, d)
      | ok path ↦ elim (resolve_path H d.os cfg.root new) [
        | err e ↦ (fail e, d)
        | ok dst ↦ by_call d (H.rename_file path dst d.os)
      ]
    ]
  ]

  unfoldable pub setattr_op : Config → ℕ → Bytes → Daemon H.Os → Reply × Daemon H.Os
  setattr_op cfg a payload d = elim (resolve_path H d.os cfg.root payload) [
    | err e ↦ (fail e, d)
    | ok path ↦ elim (H.stat d.os path) [
      | err e ↦ (fail (errno_to_gemdos e), d)
      | ok st ↦ by_call d (H.chmod path (new_mode a st.mode) d.os)
    ]
  ]

  unfoldable pub stat_op : Config → Bytes → Daemon H.Os → Reply × Daemon H.Os
  stat_op cfg payload d = elim (resolve_path H d.os cfg.root payload) [
    | err e ↦ (fail e, d)
    | ok path ↦ elim (H.stat d.os path) [
      | err e ↦ (fail (errno_to_gemdos e), d)
      | ok st ↦ (stat_reply cfg (H.access_w d.os path) st, d)
    ]
  ]

  unfoldable pub dfree_op : Config → Daemon H.Os → Reply × Daemon H.Os
  dfree_op cfg d = elim (H.statvfs d.os cfg.root) [
    | err e ↦ (fail (errno_to_gemdos e), d)
    | ok v ↦ (done (kilobytes v.bavail (unit_of v)) (kilobytes v.blocks (unit_of v)) [], d)
  ]
