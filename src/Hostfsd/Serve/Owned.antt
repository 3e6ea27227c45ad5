-- ===== src/Hostfsd/Serve/Owned.antt =====
-- The descriptors that are open on the host, and the slots that hold them: what the changes of one
-- slot and the resets do.
use shinogi.Base.{
  ℕ, Bool, true, false, not, ◌&&◌, ◌||◌, List, [], ◌∷◌, some, Bytes, ◌≡◌, refl, sym, ap, ◌∙◌, arith,
  set, get_elem?, ◌==◌,
}
use shinogi.Base.Result.{ok, err}
use shinogi.Hostfsd.Daemon.{FileHandle, Daemon, reset_file, reset_files, handles_reset}
use shinogi.Hostfsd.Daemon.Held.{holds, UniqueFds, holds-set_closed, UniqueFds-set_closed}
use shinogi.Hostfsd.Host.{Host, Errno, Flags}

-- What the host documents of descriptors: `open` hands out one that is not open, `close` closes
-- the one it is given, and no other call opens or closes any.
pub record TracksOpen (H : Host) (is_open : H.Os → ℕ → Bool) : Type 0 where
  pub opens :
      (path : Bytes) (flags : Flags) (mode : ℕ) (os : H.Os) (fd : ℕ)
      → (H.open_file path flags mode os).0 ≡ ok fd
      → (is_open os fd ≡ false)
        × ((x : ℕ) → is_open (H.open_file path flags mode os).1 x ≡ (fd == x || is_open os x))
  pub fails :
      (path : Bytes) (flags : Flags) (mode : ℕ) (os : H.Os) (e : Errno)
      → (H.open_file path flags mode os).0 ≡ err e
      → is_open (H.open_file path flags mode os).1 ≡ is_open os
  pub closes :
      (fd : ℕ) (os : H.Os) (x : ℕ) → is_open (H.close_fd fd os) x ≡ (not (x == fd) && is_open os x)
  pub fsync : (fd : ℕ) (os : H.Os) → is_open (H.fsync fd os).1 ≡ is_open os
  pub lseek : (fd at : ℕ) (os : H.Os) → is_open (H.lseek fd at os).1 ≡ is_open os
  pub read : (fd n : ℕ) (os : H.Os) → is_open (H.read_fd fd n os).1 ≡ is_open os
  pub write : (fd : ℕ) (b : Bytes) (os : H.Os) → is_open (H.write_fd fd b os).1 ≡ is_open os
  pub unlink : (p : Bytes) (os : H.Os) → is_open (H.unlink p os).1 ≡ is_open os
  pub make_dir : (p : Bytes) (os : H.Os) → is_open (H.make_dir p os).1 ≡ is_open os
  pub remove_dir : (p : Bytes) (os : H.Os) → is_open (H.remove_dir p os).1 ≡ is_open os
  pub rename : (p q : Bytes) (os : H.Os) → is_open (H.rename_file p q os).1 ≡ is_open os
  pub chmod : (p : Bytes) (m : ℕ) (os : H.Os) → is_open (H.chmod p m os).1 ≡ is_open os

-- The open descriptors are those that the table holds, each in one slot.
pub record IsOwned (H : Host) (is_open : H.Os → ℕ → Bool) (d : Daemon H.Os) : Type 0 where
  pub agree : (x : ℕ) → is_open d.os x ≡ holds d.files x
  pub unique : UniqueFds d.files

module _ (H : Host) (is_open : H.Os → ℕ → Bool) (t : TracksOpen H is_open) where
  reset_file-is_open :
      (f : FileHandle) (os : H.Os) (x : ℕ)
      → is_open (reset_file H f os).1 x ≡ (not (f.used && f.fd == x) && is_open os x)
  unfolding reset_file
  reset_file-is_open f os x = ground (
    arith,
    t.closes f.fd os x,
    t.closes f.fd (H.fsync f.fd os).1 x,
    ap (λ (o : ℕ → Bool). o x) (t.fsync f.fd os),
  )

  pub reset_files-is_open :
      (fs : List FileHandle) (os : H.Os) (x : ℕ)
      → is_open (reset_files H fs os).1 x ≡ (not (holds fs x) && is_open os x)
  unfolding reset_files holds
  reset_files-is_open [] os x = refl
  reset_files-is_open (f ∷ fs) os x =
      ground (arith, reset_files-is_open fs (reset_file H f os).1 x, reset_file-is_open f os x)

  reset_files-holds :
      (fs : List FileHandle) (os : H.Os) (x : ℕ) → holds (reset_files H fs os).0 x ≡ false
  unfolding reset_files reset_file holds
  reset_files-holds [] os x = refl
  reset_files-holds (f ∷ fs) os x = ground (arith, reset_files-holds fs (reset_file H f os).1 x)

  reset_files-UniqueFds : (fs : List FileHandle) (os : H.Os) → UniqueFds (reset_files H fs os).0
  unfolding reset_files
  reset_files-UniqueFds [] os = tt
  reset_files-UniqueFds (f ∷ fs) os = (
    λ _. reset_files-holds fs (reset_file H f os).1 _,
    reset_files-UniqueFds fs (reset_file H f os).1,
  )

  module _ (d : Daemon H.Os) (o : IsOwned H is_open d) where
    pub handles_reset-IsOwned : IsOwned H is_open (handles_reset H d)
    unfolding handles_reset
    handles_reset-IsOwned = record {
      agree = λ x.
          ground (
            arith,
            reset_files-is_open d.files d.os x,
            reset_files-holds d.files d.os x,
            o.agree x,
          );
      unique = reset_files-UniqueFds d.files d.os;
    }

    -- The table stays, and so do the open descriptors.
    pub stays :
        (d' : Daemon H.Os)
        → d'.files ≡ d.files
        → is_open d'.os ≡ is_open d.os
        → IsOwned H is_open d'
    stays d' f e = record {
      agree = λ x. ap (λ (g : ℕ → Bool). g x) e ∙ o.agree x ∙ ap (λ fs. holds fs x) (sym f);
      unique = rw f o.unique;
    }

    -- A slot that was in use is closed.
    pub closed :
        (i : ℕ) (f g : FileHandle) (os : H.Os)
        → get_elem? d.files i ≡ some f
        → f.used ≡ true
        → g.used ≡ false
        → is_open os ≡ is_open d.os
        → IsOwned H is_open (record d { files = set d.files i g; os = H.close_fd f.fd os })
    closed i f g os at used free e = record {
      agree = λ x. ground (
        arith,
        t.closes f.fd os x,
        holds-set_closed d.files i g x at used free o.unique,
        o.agree x,
        ap (λ (p : ℕ → Bool). p x) e,
      );
      unique = UniqueFds-set_closed d.files i g at used free o.unique;
    }
