-- ===== src/Launcher/Protocol.antt =====
-- tools/shinogi-launcher.c: what may follow what. The launcher refines this protocol.
use shinogi.Base.{
  ℕ, zero, suc, ◌+◌, ◌≤◌, ◌≡◌, arith, inl, inr, true, false, List, [], ◌∷◌, ◌++◌, Bytes, codes,
  Bool-cases, Option-cases,
}
use shinogi.Launcher.Actions.{
  mkdir, copy_tree, unlink, start_helper, pause, kill_helper, exec_qemu, Trace, World, Build,
  Ending, exits, becomes_qemu, snprintf, path_max,
}
use shinogi.Launcher.Choice.{
  self_dir, dir_is_empty_or_absent, qemu_path, hostfs_path, guest_image, display_option,
}
use shinogi.Launcher.Screen.{screen_size, gpu_device}
use shinogi.Launcher.{
  lay_drive, Names, process_names, helper_path, helper_args, Waited, up, ended_early, never_up,
  wait_helper, after_wait, pauses, qemu_args, become_qemu, with_helper, choose, launch,
}

-- How far the launcher has come.
pub data Phase : Type 0 where
  idle : Phase
  waiting : Phase
  running : Phase
  given_up : Phase

unfoldable pub waits : Trace → ℕ
waits [] = 0
waits (pause ∷ t) = suc (waits t)
waits (_ ∷ t) = waits t

-- What was done, up to a phase: drive C is filled only where it is empty, the helper is started
-- once, it is waited for while it is neither ready nor gone, the emulator is tried only once the
-- helper is ready, and whoever gives up leaves no helper behind.
pub data Run (m : World) (n : Names) (hostfs : Bytes) : Phase → Trace → Type 0 where
  begin : Run m n hostfs idle []
  make_drive :
      {t : Trace}
      → dir_is_empty_or_absent m t hostfs ≡ true
      → Run m n hostfs idle t
      → Run m n hostfs idle (mkdir hostfs ∷ t)
  fill_drive :
      {t : Trace} (source : Bytes)
      → dir_is_empty_or_absent m t hostfs ≡ true
      → Run m n hostfs idle t
      → Run m n hostfs idle (copy_tree source hostfs ∷ mkdir hostfs ∷ t)
  clear :
      {t : Trace} → Run m n hostfs idle t → Run m n hostfs idle (unlink n.ready ∷ unlink n.sock ∷ t)
  begin_helper :
      {t : Trace} (helper : Bytes)
      → Run m n hostfs idle (unlink n.ready ∷ unlink n.sock ∷ t)
      → Run m n hostfs waiting
          (start_helper helper (helper_args n hostfs) ∷ unlink n.ready ∷ unlink n.sock ∷ t)
  wait :
      {t : Trace}
      → m.exists t n.ready ≡ false
      → m.helper_ended t ≡ false
      → Run m n hostfs waiting t
      → Run m n hostfs waiting (pause ∷ t)
  gone :
      {t : Trace}
      → m.exists t n.ready ≡ false
      → m.helper_ended t ≡ true
      → Run m n hostfs waiting t
      → Run m n hostfs given_up t
  give_up :
      {t : Trace}
      → m.exists t n.ready ≡ false
      → m.helper_ended t ≡ false
      → pauses ≤ waits t
      → Run m n hostfs waiting t
      → Run m n hostfs given_up (kill_helper ∷ t)
  emulate :
      {t : Trace} (qemu : Bytes) (args : List Bytes)
      → m.exists t n.ready ≡ true
      → m.execs (exec_qemu qemu args ∷ t) ≡ true
      → Run m n hostfs waiting t
      → Run m n hostfs running (exec_qemu qemu args ∷ t)
  no_emulator :
      {t : Trace} (qemu : Bytes) (args : List Bytes)
      → m.exists t n.ready ≡ true
      → m.execs (exec_qemu qemu args ∷ t) ≡ false
      → Run m n hostfs waiting t
      → Run m n hostfs given_up
          (unlink n.ready ∷ unlink n.sock ∷ kill_helper ∷ exec_qemu qemu args ∷ t)

-- What the end of the program says of the phase: the emulator runs, it could not be started, or
-- something else was in the way, before the helper was started or after it was given up.
pub data Ends (m : World) (n : Names) (hostfs : Bytes) : Ending → Trace → Type 0 where
  as_qemu : {t : Trace} → Run m n hostfs running t → Ends m n hostfs becomes_qemu t
  unstarted : {t : Trace} → Run m n hostfs idle t → Ends m n hostfs (exits 1) t
  failed : {t : Trace} (status : ℕ) → Run m n hostfs given_up t → Ends m n hostfs (exits status) t

module _ (m : World) (n : Names) (hostfs : Bytes) where
  become_qemu-Ends :
      (qemu : Bytes) (args : List Bytes) (t : Trace)
      → m.exists t n.ready ≡ true
      → Run m n hostfs waiting t
      → Ends m n hostfs (become_qemu m n qemu args t).0 (become_qemu m n qemu args t).1
  unfolding become_qemu
  become_qemu-Ends qemu args t e r = elim (Bool-cases (m.execs (exec_qemu qemu args ∷ t))) [
    | inl runs ↦ rw runs (as_qemu (emulate qemu args e runs r))
    | inr fails ↦ rw fails (failed 127 (no_emulator qemu args e fails r))
  ]

  -- What waiting comes to.
  data Outcome (t : Trace) : Waited → Type 0 where
    is_up : m.exists t n.ready ≡ true → Run m n hostfs waiting t → Outcome t up
    has_ended : Run m n hostfs given_up t → Outcome t ended_early
    is_killed : Run m n hostfs given_up t → Outcome t never_up

  wait_helper_lem :
      (left : ℕ) (t : Trace)
      → pauses ≤ waits t + left
      → Run m n hostfs waiting t
      → Outcome (wait_helper m n.ready left t).1 (wait_helper m n.ready left t).0
  unfolding wait_helper waits
  wait_helper_lem zero t h r = elim (Bool-cases (m.exists t n.ready)) [
    | inl e ↦ rw e (is_up e r)
    | inr ne ↦ elim (Bool-cases (m.helper_ended t)) [
      | inl over ↦ rw ne (rw over (has_ended (gone ne over r)))
      | inr alive ↦ rw ne (rw alive (is_killed (give_up ne alive (omega (arith, h)) r)))
    ]
  ]
  wait_helper_lem (suc left) t h r = elim (Bool-cases (m.exists t n.ready)) [
    | inl e ↦ rw e (is_up e r)
    | inr ne ↦ elim (Bool-cases (m.helper_ended t)) [
      | inl over ↦ rw ne (rw over (has_ended (gone ne over r)))
      | inr alive ↦
          rw ne (rw alive (wait_helper_lem left (pause ∷ t) (omega (arith, h)) (wait ne alive r)))
    ]
  ]

  after_wait-Ends :
      (qemu : Bytes) (args : List Bytes) (w : Waited) (t : Trace)
      → Outcome t w
      → Ends m n hostfs (after_wait m n qemu args w t).0 (after_wait m n qemu args w t).1
  unfolding after_wait
  after_wait-Ends qemu args up t (is_up e r) = become_qemu-Ends qemu args t e r
  after_wait-Ends qemu args ended_early t (has_ended r) = failed 1 r
  after_wait-Ends qemu args never_up t (is_killed r) = failed 1 r

  with_helper-Ends :
      (helper qemu : Bytes) (args : List Bytes) (t : Trace)
      → Run m n hostfs idle (unlink n.ready ∷ unlink n.sock ∷ t)
      → let r =
          with_helper m n helper
            (helper_args n hostfs)
            qemu
            args
            (unlink n.ready ∷ unlink n.sock ∷ t) in
        Ends m n hostfs r.0 r.1
  unfolding with_helper
  with_helper-Ends helper qemu args t r =
      let t0 = unlink n.ready ∷ unlink n.sock ∷ t in
      let t1 = start_helper helper (helper_args n hostfs) ∷ t0 in
      elim (Bool-cases (m.forks t0)) [
        | inl forked ↦ rw forked (
            after_wait-Ends qemu args (wait_helper m n.ready pauses t1).0
              (wait_helper m n.ready pauses t1).1
              (wait_helper_lem pauses t1 (omega arith) (begin_helper helper r)))
        | inr not_forked ↦ rw not_forked (unstarted r)
      ]

  lay_drive-Run :
      (dir : Bytes) (t : Trace)
      → Run m n hostfs idle t
      → Run m n hostfs idle (lay_drive m dir hostfs t).1
  unfolding lay_drive
  lay_drive-Run dir t r = elim (Bool-cases (dir_is_empty_or_absent m t hostfs)) [
    | inl empty ↦
        elim (Bool-cases
          (m.exists t (snprintf (path_max + 32) (dir ++ codes "/../Resources/drive-c")))) [
            | inl there ↦ rw empty (rw there (fill_drive _ empty r))
            | inr missing ↦ rw empty (rw missing (make_drive empty r))
          ]
    | inr full ↦ rw full r
  ]

-- Whatever the machine answers: what the launcher does is a run of the protocol, and where it ends
-- is what its exit tells. It fills drive C only where it is empty, it tries the emulator only after
-- the helper that it started is ready, it ends as the emulator only there, and where it gives up on
-- a helper that it started, the helper has ended or was told to.
pub launch-Ends :
    (m : World) (b : Build) (args : List Bytes)
    → Ends m (process_names m) (hostfs_path m) (launch m b args).0 (launch m b args).1
unfolding launch choose
launch-Ends m b args = elim (Option-cases (self_dir m)) [
  | inl lost ↦ rw (lost, launch) (unstarted begin)
  | inr (dir, found) ↦
      let hostfs = hostfs_path m in
      let n = process_names m in
      let laid = lay_drive-Run m n hostfs dir [] begin in
      let t = (lay_drive m dir hostfs []).1 in
      elim (Bool-cases (lay_drive m dir hostfs []).0) [
        | inr stops ↦ rw (found, launch) (rw stops (unstarted laid))
        | inl goes_on ↦ elim (Option-cases (guest_image m t dir hostfs)) [
          | inl no_image ↦ rw (found, launch) (rw goes_on (rw (no_image, choose) (unstarted laid)))
          | inr (elf, image) ↦
              rw (found, launch)
                (rw goes_on (
                  rw (image, choose)
                    (with_helper-Ends m n hostfs (helper_path m t dir) (qemu_path m [] dir)
                      (qemu_args b n dir elf (gpu_device (screen_size m t hostfs))
                        (display_option m args))
                      t (clear laid))))
        ]
      ]
]
