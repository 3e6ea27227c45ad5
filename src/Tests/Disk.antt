-- ===== src/Tests/Disk.antt =====
-- A host for the runs: the folder `/srv` with the one file `A.TXT`, kept in memory.
use shinogi.Base.{
  ℕ, ◌+◌, Bool, true, false, not, ◌&&◌, ◌||◌, [], ◌∷◌, Option, none, some, refl, ap, arith, Bytes,
  codes, equal, length, length-take, take, ltb, ◌==◌, if◌then◌else◌,
}
use shinogi.Base.Result.{Result, ok, err, ok-injective}
use shinogi.Hostfsd.Config.{Config}
use shinogi.Hostfsd.Host.{Errno, enoent, Stat, Host, ReadsAtMost}
use shinogi.Hostfsd.Serve.ReadOnly.{IsStored}
use shinogi.Hostfsd.Serve.Owned.{TracksOpen}

-- The number for the next descriptor, the descriptors handed out and not closed, and the contents
-- of the file.
pub record Ram : Type 0 where
  pub next : ℕ
  pub opened : ℕ → Bool
  pub content : Bytes

abbrev pub srv : Bytes
srv = codes "/srv"

abbrev pub a_txt : Bytes
a_txt = codes "/srv/A.TXT"

abbrev stat_of : Bytes → Option Stat
stat_of p =
    if equal p srv
    then some (record { is_dir = true; mode = 0x1ed; size = 0; mtime = 0 })
    else if equal p a_txt
    then some (record { is_dir = false; mode = 0x1a4; size = 5; mtime = 0 })
    else none

abbrev known : {A : Type 0} → Option A → Result Errno A
known none = err enoent
known (some s) = ok s

abbrev pub disk : Host
disk = record {
  Os = Ram;
  realpath = λ os p. if equal p srv || equal p a_txt then some p else none;
  lstat = λ os p. stat_of p;
  stat = λ os p. known (stat_of p);
  access_w = λ os p. true;
  list_dir =
      λ os p. if equal p srv then ok (codes "." ∷ codes "A.TXT" ∷ codes ".." ∷ []) else err enoent;
  statvfs = λ os p. ok (record { frsize = 1024; bsize = 1024; bavail = 10; blocks = 20 });
  realloc = λ os n. true;
  malloc = λ os n. true;
  open_file = λ p flags mode os.
      if equal p a_txt
      then (
        ok os.next,
        record os {
          next = os.next + 1;
          opened = λ x. x == os.next || os.opened x && ltb x os.next;
        },
      )
      else (err enoent, os);
  fstat = λ os fd. known (stat_of a_txt);
  close_fd = λ fd os. record os { opened = λ x. not (x == fd) && os.opened x };
  fsync = λ fd os. (ok tt, os);
  lseek = λ fd at os. (ok tt, os);
  read_fd = λ fd n os. (ok (take n os.content), os);
  write_fd = λ fd bytes os. (ok (length bytes), record os { content = bytes });
  unlink = λ p os. (err enoent, os);
  make_dir = λ p os. (err enoent, os);
  remove_dir = λ p os. (err enoent, os);
  rename_file = λ p q os. (err enoent, os);
  chmod = λ p m os. (ok tt, os);
}

abbrev pub fresh : Ram
fresh = record { next = 3; opened = λ _. false; content = codes "hello" }

abbrev pub is_open : Ram → ℕ → Bool
is_open os x = os.opened x && ltb x os.next

abbrev pub cfg : Config
cfg = record { root = srv; read_only = false; label = codes "srv" }

abbrev pub locked : Config
locked = record { root = srv; read_only = true; label = codes "srv" }

pub disk-ReadsAtMost : ReadsAtMost disk
disk-ReadsAtMost fd n s bytes h =
    omega (arith, ap (length {0}) (ok-injective h), length-take {0} n s.content)

pub disk-IsStored : IsStored disk (λ os. os.content)
disk-IsStored = record {
  open_rdonly = λ path mode os. ground arith;
  close = λ fd os. refl;
  flush = λ fd os. refl;
  seek = λ fd at os. refl;
  read = λ fd n os. refl;
}

pub disk-TracksOpen : TracksOpen disk is_open
disk-TracksOpen = record {
  opens = λ path flags mode os fd h. (ground arith, λ x. ground arith);
  fails = λ path flags mode os e h. ground arith;
  closes = λ fd os x. ground arith;
  fsync = λ fd os. refl;
  lseek = λ fd at os. refl;
  read = λ fd n os. refl;
  write = λ fd b os. refl;
  unlink = λ p os. refl;
  make_dir = λ p os. refl;
  remove_dir = λ p os. refl;
  rename = λ p q os. refl;
  chmod = λ p m os. refl;
}
