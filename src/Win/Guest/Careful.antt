-- ===== src/Win/Guest/Careful.antt =====
-- tools/win/network.c: what is said of `prepare_guest`, and its single steps.
mod Saved
pub mod Ended
use shinogi.Base.{
  ℕ, Bool, true, false, not, ◌&&◌, ◌≡◌, refl, ap, ◌∙◌, sym, ◌⊎◌, inl, inr, arith, Option, none,
  some, Bytes, equal, equal_iff, starts_with, ◌==◌, Bool-cases, Option-cases,
}
use mathlib.Core.Option.{some-injective}
use shinogi.Base.Result.{Result, ok, err, Result-cases}
use shinogi.Win.Network.Valid.{NetworkSettings}
use shinogi.Win.Network.Hook.{network_hook, line_contains, network_boot_hook}
use shinogi.Win.Network.Script.{network_guest_script}
use shinogi.Win.Guest.{
  Entry, absent, unreadable, file, Folder, Saving, Calls, GuestError, path_too_long, dhcp_missing,
  config_unread, script_unread, script_foreign, no_backup, not_saved, bad_config, read_file,
  write_atomic, is_absent, paths_fit, dhcp_paths_fit, script_mark, roll_back, save_config,
  same_script, save_script, matching, save_backup, check_script, with_config, prepare_guest,
}

-- No script is there, or one of Shinogi's.
pub data IsOurs (e : Entry) : Type 0 where
  no_script : is_absent e ≡ true → IsOurs e
  marked : (text : Bytes) → e ≡ file text → starts_with text script_mark ≡ true → IsOurs e

-- The new MINT.CNF, of the old one.
pub record IsHooked (c : Calls) (d d' : Folder) : Type 0 where
  pub old : Bytes
  pub hook : Bytes
  pub was : d.config ≡ file old
  pub edited : network_boot_hook c.memory old ≡ ok hook
  pub now : d'.config ≡ file hook

-- The new script, behind the hook.
pub record IsReady (s : NetworkSettings) (c : Calls) (d d' : Folder) : Type 0 where
  pub text : Bytes
  pub made : network_guest_script s 1024 ≡ some text
  pub there : d'.script ≡ file text
  pub hooked : IsHooked c d d'

-- A backup that is there stays, and one that is made is the MINT.CNF that was there; MINT.CNF stays
-- or is the edited one, and then the backup holds what it was; a script that is not Shinogi's stays;
-- and where no failure is told, nothing was to do for the plain network, or both files are new.
pub record IsCareful (s : NetworkSettings) (c : Calls) (d : Folder)
    (r : Result GuestError (Unit {0})) (d' : Folder) : Type 0 where
  pub backup_kept : (d'.backup ≡ d.backup) ⊎ ((is_absent d.backup ≡ true) × (d'.backup ≡ d.config))
  pub config_kept : (d'.config ≡ d.config) ⊎ (IsHooked c d d' × (d'.backup ≡ d.config))
  pub script_kept : (d'.script ≡ d.script) ⊎ IsOurs d.script
  pub told : ((e : GuestError) × (r ≡ err e)) ⊎ (((s.lan ≡ 0) × (d' ≡ d)) ⊎ IsReady s c d d')

pub untouched :
    (s : NetworkSettings) (c : Calls) (d : Folder) (r : Result GuestError (Unit {0}))
    → ((e : GuestError) × (r ≡ err e)) ⊎ (s.lan ≡ 0)
    → IsCareful s c d r d
untouched s c d r (inl failed) = record {
  backup_kept = inl refl;
  config_kept = inl refl;
  script_kept = inl refl;
  told = inl failed;
}
untouched s c d r (inr nat) = record {
  backup_kept = inl refl;
  config_kept = inl refl;
  script_kept = inl refl;
  told = inr (inl (nat, refl));
}

pub write_atomic_cases :
    (w : Saving) (text : Bytes) (e : Entry) (n : ℕ)
    → (((write_atomic w text e n).0 ≡ true) × ((write_atomic w text e n).1 ≡ file text))
      ⊎ (((write_atomic w text e n).0 ≡ false) × ((write_atomic w text e n).1 ≡ e))
unfolding write_atomic
write_atomic_cases w text e n = elim (Bool-cases (w.named && w.opened && w.filled && w.moved)) [
  | inl all_well ↦ inl (ground arith, ground arith)
  | inr failed ↦ inr (ground arith, ground arith)
]

pub roll_back_lem :
    (c : Calls) (old : Option Bytes) (d : Folder)
    → ((roll_back c old d).config ≡ d.config) × ((roll_back c old d).backup ≡ d.backup)
unfolding roll_back
roll_back_lem c none d = (refl, refl)
roll_back_lem c (some text) d = (refl, refl)

pub read_file-file :
    (b : Bool) (e : Entry) {text : Bytes} → read_file b e ≡ some text → e ≡ file text
unfolding read_file
read_file-file b absent h = absurd (cc)
read_file-file b unreadable h = absurd (cc)
read_file-file b (file t) h = ground arith

pub same_script_lem :
    (old : Option Bytes) (text : Bytes) → same_script old text ≡ true → old ≡ some text
unfolding same_script
same_script_lem none text h = absurd (cc)
same_script_lem (some old) text h = ap some (sym ((equal_iff text old).0 h))

pub matching_lem :
    (c : Calls) (old : Bytes) (d : Folder) → matching c old d ≡ true → d.backup ≡ file old
unfolding matching
matching_lem c old d h = elim (Option-cases (read_file c.reads_backup d.backup)) [
  | inl none_read ↦ let bad = rw (none_read, matching) at h in absurd (cc)
  | inr (saved, e) ↦
      read_file-file c.reads_backup d.backup e
      ∙ ap file ((equal_iff saved old).0 (rw (e, matching) at h))
]
