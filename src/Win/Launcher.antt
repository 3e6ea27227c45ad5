-- ===== src/Win/Launcher.antt =====
-- tools/win/shinogi-launcher.c: the helpers of the drives, and the run of QEMU between their start
-- and their end. Log files, handles that are only closed and message boxes are left out.
pub mod Stopped
pub mod Main
use shinogi.Base.{
  ℕ, zero, suc, ◌+◌, ◌-◌, ◌*◌, ◌/◌, ◌%◌, ◌^◌, ◌<◌, Bool, true, false, not, ◌&&◌, ◌||◌, List, [],
  ◌∷◌, ◌++◌, Option, none, some, Bytes, codes, length, take, ltb, leb, ◌==◌, if◌then◌else◌,
}
use shinogi.Base.Int.{pos_part}
use shinogi.Win.Drives.{DriveMapping}
use shinogi.Win.Drives.Images.{drives_image_options}
use shinogi.Win.Network.Options.{fitted}
use shinogi.Win.Resolution.{decimal_text}
use shinogi.Launcher.Screen.{scan_size}

-- What the launcher does, with the number of a drive where a helper is meant. The last comes first.
pub data Action : Type 0 where
  create_directory : Bytes → Action
  delete_file : Bytes → Action
  create_helper : ℕ → Bytes → Action
  sleep : Action
  terminate : ℕ → Action
  close : ℕ → Action
  run : Bytes → Action

abbrev pub Trace : Type 0
Trace = List Action

-- What Windows answers, after all that was done: whether a process can be created, the number in the
-- ready file or 0, whether the helper of a drive has ended, and the exit code of QEMU, or `none`
-- where it cannot be started.
pub record Answers : Type 0 where
  pub creates : Trace → Bool
  pub chosen : Trace → Bytes → ℕ
  pub ended : Trace → ℕ → Bool
  pub qemu_code : Trace → Option ℕ
  pub is_file : Trace → Bytes → Bool
  pub getenv : Bytes → Option Bytes
  pub same_text : Bytes → Bytes → Bool

abbrev pub max_path_text : Bytes → Bytes
max_path_text text = take 259 text

-- `%u` of a number of at most five digits.
unfoldable pub decimal_digits : ℕ → ℕ → Bytes
decimal_digits zero n = []
decimal_digits (suc k) n =
    let rest = decimal_digits k (n / 10) in
    if ltb n 10 then (n + b'0') ∷ [] else rest ++ (n % 10 + b'0') ∷ []

abbrev pub number : ℕ → Bytes
number n = decimal_digits 5 n

abbrev pub joined : List Bytes → Bytes
joined [] = []
joined (part ∷ parts) = part ++ joined parts

abbrev pub quoted : Bytes → Bytes
quoted text = b'"' ∷ (text ++ b'"' ∷ [])

unfoldable pub helper_command : Bytes → Bytes → Bytes → Bool → Bytes
helper_command dir folder ready readonly = take 2047 (
    joined (
      quoted (dir ++ codes "\\shinogi-hostfsd.exe")
      ∷ codes " --root "
      ∷ quoted (folder ++ codes "\\.")
      ∷ codes " --listen-tcp 0 --ready-file "
      ∷ quoted ready
      ∷ codes " --once"
      ∷ (if readonly then codes " --read-only" else [])
      ∷ []))

-- `READY_TIMEOUT_MS / READY_POLL_MS`
abbrev pub polls : ℕ
polls = 500

-- The loop over `waited`, of the rounds that are left: the port, or none.
unfoldable pub wait_port : Answers → Bytes → ℕ → ℕ → Trace → Option ℕ × Trace
wait_port m ready d zero t = (none, close d ∷ terminate d ∷ t)
wait_port m ready d (suc left) t =
    let port = m.chosen t ready in
    let rest = wait_port m ready d left (sleep ∷ t) in
    if ltb 0 port && leb port 65535
    then (some port, t)
    else if m.ended t d
    then (none, close d ∷ t)
    else rest

-- The port of the helper of drive `d`, or none, and then no helper is left of it.
unfoldable pub start_helper : Answers → Bytes → Bytes → Bytes → ℕ → Bool → Trace → Option ℕ × Trace
start_helper m dir folder ready d readonly t =
    let t' = delete_file ready ∷ t in
    if not (m.creates t')
    then (none, t')
    else wait_port m ready d polls (create_helper d (helper_command dir folder ready readonly) ∷ t')

unfoldable pub stop_helper : Answers → Bytes → ℕ → Trace → Trace
stop_helper m ready d t = delete_file ready ∷ close d ∷ (if m.ended t d then t else terminate d ∷ t)

unfoldable pub ready_path : Bytes → ℕ → Option Bytes
ready_path logs d = fitted 260 (logs ++ (codes "\\hostfs-" ++ ((b'A' + d) ∷ codes ".ready")))

-- The text for the helper of drive `d`, on a port.
unfoldable pub drive_option : ℕ → ℕ → Bytes
drive_option d port = joined (
    (if d == 2 then codes " -device virtio-serial-device,id=folders,max_ports=26" else [])
    ∷ codes " -chardev socket,id=fs"
    ∷ number d
    ∷ codes ",host=127.0.0.1,port="
    ∷ number port
    ∷ codes ",server=off,nodelay=on -device virtserialport,bus=folders.0,chardev=fs"
    ∷ number d
    ∷ codes ",name=shinogi.hostfs"
    ∷ (if d == 2 then [] else b'.' ∷ (b'a' + d) ∷ [])
    ∷ [])

-- `DRIVE_OPTIONS_MAX`
abbrev pub drive_options_max : ℕ
drive_options_max = 16384

-- A helper that runs: its drive and its ready file.
abbrev pub Helper : Type 0
Helper = ℕ × Bytes

-- The loop over `helpers` of `stop_helper`.
unfoldable pub stop_all : Answers → List Helper → Trace → Trace
stop_all m [] t = t
stop_all m ((d, ready) ∷ rest) t = stop_all m rest (stop_helper m ready d t)

-- The drives that were opened, with the helpers in order, or those that run where one failed.
pub data Opened : Type 0 where
  opened : Bytes → List Helper → Trace → Opened
  failed : List Helper → Trace → Opened

-- What follows the start of a helper.
unfoldable pub add_drive : Bytes → ℕ → Bytes → List Helper → Option ℕ → Trace → Opened
add_drive ready d hostfs hs none t = failed hs t
add_drive ready d hostfs hs (some port) t =
    elim (fitted drive_options_max (hostfs ++ drive_option d port)) [
      | none ↦ failed (hs ++ (d, ready) ∷ []) t
      | some hostfs' ↦ opened hostfs' (hs ++ (d, ready) ∷ []) t
    ]

-- One drive with a folder.
unfoldable pub open_drive :
    Answers → Bytes → Bytes → DriveMapping → ℕ → Bytes → List Helper → Trace → Opened
open_drive m dir logs drive d hostfs hs t = elim (ready_path logs d) [
  | none ↦ failed hs t
  | some ready ↦
      let (port, t') = start_helper m dir drive.path ready d drive.readonly t in
      add_drive ready d hostfs hs port t'
]

-- The loop over the drives, from drive `d` on.
unfoldable pub open_drives :
    Answers → Bytes → Bytes → List DriveMapping → ℕ → Bytes → List Helper → Trace → Opened
open_drives m dir logs [] d hostfs hs t = opened hostfs hs t
open_drives m dir logs (drive ∷ drives) d hostfs hs t = elim (length drive.path == 0) [
  | true ↦ open_drives m dir logs drives (d + 1) hostfs hs t
  | false ↦ elim (open_drive m dir logs drive d hostfs hs t) [
    | failed hs' t' ↦ failed hs' t'
    | opened hostfs' hs' t' ↦ open_drives m dir logs drives (d + 1) hostfs' hs' t'
  ]
]

-- What is settled before the drives are opened.
pub record Session : Type 0 where
  pub dir : Bytes
  pub logs : Bytes
  pub name : Bytes
  pub cpu : Bytes
  pub kernel : Bytes
  pub network : Bytes
  pub width : ℕ
  pub height : ℕ
  pub display : Bytes
  pub fullscreen : Bool

unfoldable pub qemu_command : Session → Bytes → Bytes
qemu_command s hostfs = take 32767 (
    joined (
      quoted (s.dir ++ codes "\\qemu\\qemu-system-m68kw.exe")
      ∷ codes " -name "
      ∷ quoted (s.name ++ codes " - Ctrl+Alt+S: Settings")
      ∷ codes " -M virt -cpu "
      ∷ s.cpu
      ∷ codes " -m 128 -kernel "
      ∷ quoted s.kernel
      ∷ s.network
      ∷ codes " -device virtio-gpu-device,xres="
      ∷ decimal_text s.width
      ∷ codes ",yres="
      ∷ decimal_text s.height
      ∷ codes " -device virtio-keyboard-device -device virtio-tablet-device"
      ∷ hostfs
      ∷ codes " -display "
      ∷ s.display
      ∷ (if s.fullscreen then codes " -full-screen" else [])
      ∷ codes " -serial "
      ∷ quoted (joined (codes "file:" ∷ s.logs ∷ codes "\\shinogi-serial.log" ∷ []))
      ∷ codes " -d guest_errors -D "
      ∷ quoted (s.logs ++ codes "\\shinogi-guest-errors.log")
      ∷ []))

-- The exit status after QEMU has run, or could not be started.
unfoldable pub status_of : Option ℕ → ℕ
status_of none = 1
status_of (some code) = if code == 2 ^ 32 - 1 then 1 else code

-- From the options of all drives on.
unfoldable pub run_session : Answers → Session → Bytes → List Helper → Trace → ℕ × Trace
run_session m s hostfs hs t =
    let t' = run (qemu_command s hostfs) ∷ t in (status_of (m.qemu_code t'), stop_all m hs t')

-- From the drives on; `images` are the mappings of all additional drives.
unfoldable pub with_drives : Answers → Session → List DriveMapping → Opened → ℕ × Trace
with_drives m s mappings (failed hs t) = (1, stop_all m hs t)
with_drives m s mappings (opened hostfs hs t) = elim (drives_image_options mappings 8192) [
  | none ↦ (1, stop_all m hs t)
  | some images ↦
      if leb drive_options_max (length images + length hostfs)
      then (1, stop_all m hs t)
      else run_session m s (hostfs ++ images) hs t
]

-- Drive C and the folders of the settings, D to Z.
unfoldable pub run_drives : Answers → Session → Bytes → List DriveMapping → Trace → ℕ × Trace
run_drives m s drivec mappings t =
    let drives = record { path = drivec; readonly = false } ∷ take 23 mappings in
    with_drives m s mappings (open_drives m s.dir s.logs drives 2 [] [] t)
