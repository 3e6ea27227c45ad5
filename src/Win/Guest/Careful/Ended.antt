-- ===== src/Win/Guest/Careful/Ended.antt =====
-- tools/win/network.c: what `prepare_guest` leaves as it was, and what it leaves behind.
use shinogi.Base.{
  not, ◌&&◌, ◌≡◌, refl, ap, ◌∙◌, inl, inr, arith, none, some, Bytes, starts_with, ◌==◌, Bool-cases,
  Option-cases,
}
use mathlib.Core.Option.{some-injective}
use shinogi.Base.Result.{ok, err, Result-cases}
use shinogi.Win.Network.Valid.{NetworkSettings}
use shinogi.Win.Network.Hook.{network_hook, line_contains, network_boot_hook}
use shinogi.Win.Guest.{
  Entry, file, Folder, Calls, GuestError, path_too_long, dhcp_missing, config_unread, script_unread,
  script_foreign, bad_config, read_file, is_absent, paths_fit, dhcp_paths_fit, script_mark,
  check_script, with_config, prepare_guest,
}
use shinogi.Win.Guest.Careful.{no_script, marked, IsCareful, untouched, read_file-file}
use shinogi.Win.Guest.Careful.Saved.{save_backup_lem}

refused :
    (s : NetworkSettings) (c : Calls) (d : Folder) (e : GuestError) → IsCareful s c d (err e) d
refused s c d e = untouched s c d (err e) (inl (e, refl))

none-is_old : (e : Entry) (text : Bytes) → none ≡ some text → e ≡ file text
none-is_old e text h = absurd (cc)

check_script_lem :
    (s : NetworkSettings) (c : Calls) (d : Folder) (old hook : Bytes)
    → d.config ≡ file old
    → network_boot_hook c.memory old ≡ ok hook
    → IsCareful s c d (check_script s c old hook d).0 (check_script s c old hook d).1
unfolding check_script
check_script_lem s c d old hook was edited =
    elim (Option-cases (read_file c.reads_script d.script)) [
      | inl none_read ↦ elim (Bool-cases (is_absent d.script)) [
        | inl free ↦
            rw (none_read, check_script)
              (rw free (
                save_backup_lem s c d old hook none was edited (no_script free)
                  (λ text h. none-is_old d.script text h)))
        | inr there ↦ rw (none_read, check_script) (rw there (refused s c d script_unread))
      ]
      | inr (text, e) ↦ elim (Bool-cases (starts_with text script_mark)) [
        | inl ours ↦
            let was_file = read_file-file c.reads_script d.script e in
            rw (e, check_script)
              (rw ours (
                save_backup_lem s c d old hook (some text) was edited (marked text was_file ours)
                  (λ t h. was_file ∙ ap file (some-injective text t h))))
        | inr foreign ↦ rw (e, check_script) (rw foreign (refused s c d script_foreign))
      ]
    ]

with_config_lem :
    (s : NetworkSettings) (c : Calls) (d : Folder) (old : Bytes)
    → d.config ≡ file old
    → IsCareful s c d (with_config s c old d).0 (with_config s c old d).1
unfolding with_config
with_config_lem s c d old was =
    elim (Bool-cases (s.lan == 0 && not (line_contains old network_hook))) [
      | inl plain ↦ rw plain (untouched s c d (ok tt) (inr (ground arith)))
      | inr hooked ↦ elim (Result-cases (network_boot_hook c.memory old)) [
        | inl (hook, edited) ↦
            rw (hooked, with_config) (rw edited (check_script_lem s c d old hook was edited))
        | inr (e, fails) ↦ rw (hooked, with_config) (rw fails (refused s c d (bad_config e)))
      ]
    ]

-- Whatever is in the folder, whichever calls fail and whatever the settings are: `prepare_guest`
-- never replaces a backup, never changes MINT.CNF but by the edit of its boot hook with what it was
-- kept in the backup, never touches a SHNNET.SH that is not Shinogi's, and where it tells no failure
-- either the plain network needed nothing or the script of the settings stands behind the hook.
pub prepare_guest-IsCareful :
    (s : NetworkSettings) (c : Calls) (drivec : Bytes) (d : Folder)
    → IsCareful s c d (prepare_guest s c drivec d).0 (prepare_guest s c drivec d).1
unfolding prepare_guest
prepare_guest-IsCareful s c drivec d =
    let dhcp = not (s.lan == 0) && not (s.dhcp == 0) in
    elim (Bool-cases (paths_fit drivec)) [
      | inr long ↦ rw long (refused s c d path_too_long)
      | inl fit ↦ elim (Bool-cases (dhcp && not (dhcp_paths_fit drivec))) [
        | inl long ↦ rw fit (rw long (refused s c d path_too_long))
        | inr fit' ↦ elim (Bool-cases (dhcp && not (c.dhcp_client && c.dhcp_callback))) [
          | inl missing ↦ rw fit (rw fit' (rw missing (refused s c d dhcp_missing)))
          | inr there ↦ elim (Option-cases (read_file c.reads_config d.config)) [
            | inr (old, e) ↦
                rw (fit, prepare_guest)
                  (rw fit' (
                    rw there (
                      rw e (with_config_lem s c d old (read_file-file c.reads_config d.config e)))))
            | inl none_read ↦ elim (Bool-cases (s.lan == 0 && is_absent d.config)) [
              | inl plain ↦
                  rw (fit, prepare_guest)
                    (rw fit' (
                      rw there
                        (rw none_read (rw plain (untouched s c d (ok tt) (inr (ground arith)))))))
              | inr unread ↦
                  rw (fit, prepare_guest)
                    (rw fit' (rw there (rw none_read (rw unread (refused s c d config_unread)))))
            ]
          ]
        ]
      ]
    ]
