-- ===== src/Launcher.antt =====
-- tools/shinogi-launcher.c: the launcher of the Linux edition. Its messages are left out.
pub mod Actions
pub mod Screen
pub mod Choice
pub mod Protocol
pub mod Ready
use shinogi.Base.{
  ℕ, zero, suc, ◌+◌, Bool, true, false, not, ◌&&◌, ◌||◌, List, [], ◌∷◌, ◌++◌, Option, none, some,
  Bytes, codes, if◌then◌else◌,
}
use shinogi.Launcher.Actions.{
  Action, mkdir, copy_tree, unlink, start_helper, pause, kill_helper, exec_qemu, Trace, World,
  Build, snprintf, path_max, Ending, exits, becomes_qemu,
}
use shinogi.Launcher.Screen.{screen_size, gpu_device}
use shinogi.Launcher.Choice.{
  self_dir, dir_is_empty_or_absent, or_else, qemu_path, hostfs_path, guest_image, display_option,
}

-- The first run: whether the launcher goes on, and what was done.
unfoldable pub lay_drive : World → Bytes → Bytes → Trace → Bool × Trace
lay_drive m dir hostfs t =
    let pristine = snprintf (path_max + 32) (dir ++ codes "/../Resources/drive-c") in
    let source = snprintf (path_max + 40) (pristine ++ codes "/.") in
    let copied = copy_tree source hostfs ∷ mkdir hostfs ∷ t in
    if not (dir_is_empty_or_absent m t hostfs)
    then (true, t)
    else if m.exists t pristine
    then (m.copied copied, copied)
    else (true, mkdir hostfs ∷ t)

-- The names that are made for this process.
pub record Names : Type 0 where
  pub serial_log : Bytes
  pub sock : Bytes
  pub ready : Bytes

unfoldable pub process_names : World → Names
process_names m =
    let tmp = or_else (m.getenv (codes "TMPDIR")) (codes "/tmp") in
    let sock =
      snprintf (path_max + 32) (tmp ++ (codes "/shinogi-hostfs-" ++ (m.pid ++ codes ".sock"))) in
    record {
      serial_log = snprintf path_max (tmp ++ codes "/shinogi-serial.log");
      sock = sock;
      ready = snprintf (path_max + 40) (sock ++ codes ".ready");
    }

unfoldable pub helper_path : World → Trace → Bytes → Bytes
helper_path m t dir =
    let beside = snprintf (path_max + 32) (dir ++ codes "/shinogi-hostfsd") in
    if m.exists t beside then beside else codes "shinogi-hostfsd"

unfoldable pub helper_args : Names → Bytes → List Bytes
helper_args n hostfs =
    codes "--root"
    ∷ hostfs
    ∷ codes "--listen"
    ∷ n.sock
    ∷ codes "--ready-file"
    ∷ n.ready
    ∷ codes "--once"
    ∷ []

pub data Waited : Type 0 where
  up : Waited
  ended_early : Waited
  never_up : Waited

-- The loop that waits for the helper, of the pauses that it may still make.
unfoldable pub wait_helper : World → Bytes → ℕ → Trace → Waited × Trace
wait_helper m ready zero t =
    if m.exists t ready
    then (up, t)
    else if m.helper_ended t
    then (ended_early, t)
    else (never_up, kill_helper ∷ t)
wait_helper m ready (suc left) t =
    let rest = wait_helper m ready left (pause ∷ t) in
    if m.exists t ready then (up, t) else if m.helper_ended t then (ended_early, t) else rest

-- 10 seconds.
abbrev pub pauses : ℕ
pauses = 200

unfoldable pub qemu_args : Build → Names → Bytes → Bytes → Bytes → Bytes → List Bytes
qemu_args b n dir elf gpu display =
    codes "-name"
    ∷ (b.edition ++ (codes " (" ++ (b.version ++ codes ")")))
    ∷ codes "-M"
    ∷ codes "virt"
    ∷ codes "-cpu"
    ∷ b.cpu
    ∷ codes "-m"
    ∷ codes "128"
    ∷ codes "-L"
    ∷ snprintf (path_max + 32) (dir ++ codes "/../Resources/qemu/share")
    ∷ codes "-kernel"
    ∷ elf
    ∷ codes "-netdev"
    ∷ codes "user,id=net0"
    ∷ codes "-device"
    ∷ codes "virtio-net-device,netdev=net0"
    ∷ codes "-device"
    ∷ gpu
    ∷ codes "-device"
    ∷ codes "virtio-keyboard-device"
    ∷ codes "-device"
    ∷ codes "virtio-tablet-device"
    ∷ codes "-chardev"
    ∷ snprintf (path_max + 96) (codes "socket,id=hostfs,path=" ++ (n.sock ++ codes ",server=off"))
    ∷ codes "-device"
    ∷ codes "virtio-serial-device"
    ∷ codes "-device"
    ∷ codes "virtserialport,chardev=hostfs,name=shinogi.hostfs"
    ∷ codes "-display"
    ∷ display
    ∷ codes "-serial"
    ∷ snprintf (path_max + 8) (codes "file:" ++ n.serial_log)
    ∷ codes "-d"
    ∷ codes "guest_errors"
    ∷ codes "-D"
    ∷ snprintf (path_max + 8) (n.serial_log ++ codes ".err")
    ∷ []

-- From the point on where the helper is up.
unfoldable pub become_qemu : World → Names → Bytes → List Bytes → Trace → Ending × Trace
become_qemu m n qemu args t =
    let tried = exec_qemu qemu args ∷ t in
    if m.execs tried
    then (becomes_qemu, tried)
    else (exits 127, unlink n.ready ∷ unlink n.sock ∷ kill_helper ∷ tried)

-- What follows the waiting.
unfoldable pub after_wait : World → Names → Bytes → List Bytes → Waited → Trace → Ending × Trace
after_wait m n qemu args up t = become_qemu m n qemu args t
after_wait m n qemu args ended_early t = (exits 1, t)
after_wait m n qemu args never_up t = (exits 1, t)

-- From the point on where the two files of an earlier run are gone.
unfoldable pub with_helper :
    World → Names → Bytes → List Bytes → Bytes → List Bytes → Trace → Ending × Trace
with_helper m n helper h_args qemu q_args t =
    let (waited, t') = wait_helper m n.ready pauses (start_helper helper h_args ∷ t) in
    if not (m.forks t) then (exits 1, t) else after_wait m n qemu q_args waited t'

-- From the point on where drive C is there.
unfoldable pub choose : World → Build → List Bytes → Bytes → Bytes → Bytes → Trace → Ending × Trace
choose m b args dir qemu hostfs t = elim (guest_image m t dir hostfs) [
  | none ↦ (exits 1, t)
  | some elf ↦
      let n = process_names m in
      let gpu = gpu_device (screen_size m t hostfs) in
      let helper = helper_path m t dir in
      with_helper m n helper (helper_args n hostfs) qemu
        (qemu_args b n dir elf gpu (display_option m args)) (unlink n.ready ∷ unlink n.sock ∷ t)
]

-- `main`, of the arguments behind the program's name.
unfoldable pub launch : World → Build → List Bytes → Ending × Trace
launch m b args = elim (self_dir m) [
  | none ↦ (exits 1, [])
  | some dir ↦
      let hostfs = hostfs_path m in
      let (goes_on, t) = lay_drive m dir hostfs [] in
      if goes_on then choose m b args dir (qemu_path m [] dir) hostfs t else (exits 1, t)
]
