-- ===== src/Launcher/Ready.antt =====
-- tools/shinogi-launcher.c: a helper that becomes ready in time is not given up.
use shinogi.Base.{ℕ, zero, suc, ◌≤◌, ◌<◌, ◌≡◌, refl, arith, true, false, List, [], ◌∷◌, some, Bytes}
use shinogi.Launcher.Actions.{
  Action, unlink, start_helper, pause, exec_qemu, Trace, World, Build, becomes_qemu,
}
use shinogi.Launcher.Choice.{self_dir, qemu_path, hostfs_path, guest_image, display_option}
use shinogi.Launcher.Screen.{screen_size, gpu_device}
use shinogi.Launcher.{
  lay_drive, Names, process_names, helper_path, helper_args, up, wait_helper, after_wait, pauses,
  qemu_args, become_qemu, with_helper, choose, launch,
}

-- So many pauses later.
unfoldable pub paused : ℕ → Trace → Trace
paused zero t = t
paused (suc k) t = paused k (pause ∷ t)

-- The helper is neither ready nor gone before the pauses are over.
abbrev pub Pending : World → Bytes → ℕ → Trace → Type 0
Pending m ready k t =
    (j : ℕ) → j < k → (m.exists (paused j t) ready ≡ false) × (m.helper_ended (paused j t) ≡ false)

wait_helper-up :
    (m : World) (ready : Bytes) (left k : ℕ) (t : Trace)
    → k ≤ left
    → Pending m ready k t
    → m.exists (paused k t) ready ≡ true
    → wait_helper m ready left t ≡ (up, paused k t)
unfolding wait_helper paused
wait_helper-up m ready zero zero t h p e = rw e refl
wait_helper-up m ready (suc left) zero t h p e = rw e refl
wait_helper-up m ready zero (suc k) t h p e = absurd (omega (arith, h))
wait_helper-up m ready (suc left) (suc k) t h p e =
    let (ne, alive) = p 0 (omega arith) in
    rw ne (
      rw alive (
        wait_helper-up m ready left k (pause ∷ t) (omega (arith, h))
          (λ j l. p (suc j) (omega (arith, l))) e))

become_qemu-starts :
    (m : World) (n : Names) (qemu : Bytes) (args : List Bytes) (t : Trace)
    → m.execs (exec_qemu qemu args ∷ t) ≡ true
    → become_qemu m n qemu args t ≡ (becomes_qemu, exec_qemu qemu args ∷ t)
unfolding become_qemu
become_qemu-starts m n qemu args t e = rw e refl

module _ (m : World) (b : Build) (args : List Bytes) (dir elf : Bytes) (t : Trace) where
  -- What was done when the helper has just been started.
  unfoldable pub started : Trace
  started =
      start_helper (helper_path m t dir) (helper_args (process_names m) (hostfs_path m))
      ∷ unlink (process_names m).ready
      ∷ unlink (process_names m).sock
      ∷ t

  unfoldable pub emulator : Action
  emulator = exec_qemu (qemu_path m [] dir) (
      qemu_args b (process_names m) dir elf (gpu_device (screen_size m t (hostfs_path m)))
        (display_option m args))

  -- Where drive C is there, a guest's image is found and the helper can be started, and this is
  -- ready after at most 200 pauses of 50 ms and has not ended before, the launcher becomes the
  -- emulator right then, with the image, the size and the display that were chosen.
  pub launch-becomes_qemu :
      (k : ℕ)
      → self_dir m ≡ some dir
      → lay_drive m dir (hostfs_path m) [] ≡ (true, t)
      → guest_image m t dir (hostfs_path m) ≡ some elf
      → m.forks (unlink (process_names m).ready ∷ unlink (process_names m).sock ∷ t) ≡ true
      → k ≤ pauses
      → Pending m (process_names m).ready k started
      → m.exists (paused k started) (process_names m).ready ≡ true
      → m.execs (emulator ∷ paused k started) ≡ true
      → launch m b args ≡ (becomes_qemu, emulator ∷ paused k started)
  unfolding launch choose with_helper after_wait started emulator
  launch-becomes_qemu k own laid image forked h p e x =
      let n = process_names m in
      let gpu = gpu_device (screen_size m t (hostfs_path m)) in
      rw (own, launch)
        (rw laid (
          rw (image, choose)
            (rw forked (
              rw (wait_helper-up m n.ready pauses k started h p e, with_helper)
                (become_qemu-starts m n (qemu_path m [] dir)
                  (qemu_args b n dir elf gpu (display_option m args)) (paused k started) x)))))
