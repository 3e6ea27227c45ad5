-- ===== src/Hostfsd/Host.antt =====
-- The operating system and C library that tools/hostfsd calls, over a state that is not known
-- here. Each field is one call, with what the program reads of its result.
use shinogi.Base.{ℕ, ◌≤◌, Bool, List, Option, Bytes, length, ◌≡◌}
use shinogi.Base.Result.{Result, ok}

-- The values of `errno` that the program tells apart.
pub data Errno : Type 0 where
  enoent enotdir enametoolong eloop emfile enfile enomem einval erofs : Errno
  other : ℕ → Errno

-- `struct stat`: `S_ISDIR(st_mode)`, the permission bits of `st_mode`, `st_size` and `st_mtime`.
pub record Stat : Type 0 where
  pub is_dir : Bool
  pub mode : ℕ
  pub size : ℕ
  pub mtime : ℕ

-- `struct statvfs`
pub record Vfs : Type 0 where
  pub frsize : ℕ
  pub bsize : ℕ
  pub bavail : ℕ
  pub blocks : ℕ

-- The access mode of `open`; `create` is `O_RDWR | O_CREAT | O_TRUNC`.
pub data Flags : Type 0 where
  rdonly wronly rdwr create : Flags

pub record Host : Type 1 where
  pub Os : Type 0
  pub realpath : Os → Bytes → Option Bytes
  pub lstat : Os → Bytes → Option Stat
  pub stat : Os → Bytes → Result Errno Stat
  -- `access(path, W_OK) == 0`
  pub access_w : Os → Bytes → Bool
  -- `opendir`, then `readdir` up to the end, then `closedir`.
  pub list_dir : Os → Bytes → Result Errno (List Bytes)
  pub statvfs : Os → Bytes → Result Errno Vfs
  -- Whether `realloc` grants a table of so many pointers, and `malloc` so many bytes.
  pub realloc : Os → ℕ → Bool
  pub malloc : Os → ℕ → Bool
  pub open_file : Bytes → Flags → ℕ → Os → Result Errno ℕ × Os
  pub fstat : Os → ℕ → Result Errno Stat
  pub close_fd : ℕ → Os → Os
  pub fsync : ℕ → Os → Result Errno (Unit {0}) × Os
  pub lseek : ℕ → ℕ → Os → Result Errno (Unit {0}) × Os
  pub read_fd : ℕ → ℕ → Os → Result Errno Bytes × Os
  pub write_fd : ℕ → Bytes → Os → Result Errno ℕ × Os
  pub unlink : Bytes → Os → Result Errno (Unit {0}) × Os
  pub make_dir : Bytes → Os → Result Errno (Unit {0}) × Os
  pub remove_dir : Bytes → Os → Result Errno (Unit {0}) × Os
  pub rename_file : Bytes → Bytes → Os → Result Errno (Unit {0}) × Os
  pub chmod : Bytes → ℕ → Os → Result Errno (Unit {0}) × Os

-- `read` returns at most the bytes that were asked for.
abbrev pub ReadsAtMost : Host → Type 0
ReadsAtMost H =
    (fd n : ℕ) (s : H.Os) (bytes : Bytes) → (H.read_fd fd n s).0 ≡ ok bytes → length bytes ≤ n
