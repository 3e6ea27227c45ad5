-- ===== src/Hostfsd/Proto.antt =====
-- tools/hostfsd/shinogi-hostfs-proto.h: the constants of the wire.
use shinogi.Base.{ℕ, ◌-◌, List, [], ◌∷◌, get_or, ◌==◌, if◌then◌else◌}

abbrev pub req_hdr : ℕ
req_hdr = 16

abbrev pub rep_hdr : ℕ
rep_hdr = 12

abbrev pub max_frame : ℕ
max_frame = 4096

abbrev pub max_rep_data : ℕ
max_rep_data = 4084

abbrev pub max_path : ℕ
max_path = 1024

abbrev pub max_name : ℕ
max_name = 255

-- `PATH_MAX + HOSTFS_MAX_PATH + 2`, with the POSIX `PATH_MAX`.
abbrev pub fullpath_max : ℕ
fullpath_max = 5122

abbrev pub dfree_max_kb : ℕ
dfree_max_kb = 0x00200000

abbrev pub proto_version : ℕ
proto_version = 1

-- `HOSTFS_CAP_READDIR_BATCH`
abbrev pub cap_readdir_batch : ℕ
cap_readdir_batch = 1

-- `HOSTFS_O_*`
abbrev pub o_rdonly : ℕ
o_rdonly = 0

abbrev pub o_wronly : ℕ
o_wronly = 1

abbrev pub o_rdwr : ℕ
o_rdwr = 2

-- `HOSTFS_FA_RO` and `HOSTFS_FA_SUBDIR`
abbrev pub fa_ro : ℕ
fa_ro = 0x01

abbrev pub fa_subdir : ℕ
fa_subdir = 0x10

-- `HOSTFS_OP_*`, and what an opcode that is none of them becomes in the `switch`.
pub data Op : Type 0 where
  op_hello op_open op_close op_read op_write op_stat op_opendir op_readdir op_closedir : Op
  op_create op_delete op_rename op_mkdir op_rmdir op_setattr op_dfree op_caps : Op
  op_readdir_batch unknown : Op

-- The operations in the order of their codes, from `HOSTFS_OP_HELLO`, which is 1.
abbrev ops : List Op
ops =
    op_hello ∷ op_open ∷ op_close ∷ op_read ∷ op_write ∷ op_stat ∷ op_opendir ∷ op_readdir
    ∷ op_closedir ∷ op_create ∷ op_delete ∷ op_rename ∷ op_mkdir ∷ op_rmdir ∷ op_setattr ∷ op_dfree
    ∷ op_caps ∷ op_readdir_batch ∷ []

-- The `case` labels: 0 and what lies above `HOSTFS_OP_MAX` are `default`.
unfoldable pub op_of : ℕ → Op
op_of code = if code == 0 then unknown else get_or ops (code - 1) unknown

-- The values that `status` may carry.
pub data Status : Type 0 where
  e_ok efilnf epthnf enhndl eaccdn eihndl ensmem edrive enmfil : Status

-- The magnitude of each status, which is negative or 0.
abbrev pub magnitude : Status → ℕ
magnitude e_ok = 0
magnitude efilnf = 33
magnitude epthnf = 34
magnitude enhndl = 35
magnitude eaccdn = 36
magnitude eihndl = 37
magnitude ensmem = 39
magnitude edrive = 46
magnitude enmfil = 49
