-- ===== src/Win/Launcher/Main.antt =====
-- tools/win/shinogi-launcher.c: `WinMain` from the valid settings on, where it starts the machine.
use shinogi.Base.{
  ℕ, inl, inr, Bool, false, ◌&&◌, List, [], ◌∷◌, ◌++◌, Option, none, some, Bytes, codes, length,
  take, leb, ◌==◌, if◌then◌else◌,
}
use shinogi.Base.Int.{ℤ, pos_part}
use shinogi.Base.Result.{ok, err, Result-cases}
use shinogi.Win.Drives.{DriveMapping}
use shinogi.Win.Network.Valid.{NetworkSettings}
use shinogi.Win.Guest.{Folder, Calls}
use shinogi.Win.Prepare.{Windows, network_prepare}
use shinogi.Launcher.Actions.{Build}
use shinogi.Launcher.Screen.{scan_size}
use shinogi.Win.Launcher.{
  create_directory, Trace, Answers, max_path_text, Session, open_drives, run_drives,
}
use shinogi.Win.Launcher.Stopped.{mapped, Run, begin, open_drives-IsOpened, with_drives-Run}

-- What `settings_load` gives.
pub record WinSettings : Type 0 where
  pub drivec : Bytes
  pub drives : List DriveMapping
  pub network : NetworkSettings
  pub width : ℕ
  pub height : ℕ
  pub fullscreen : Bool

abbrev or_next : Option Bytes → Bytes → Bytes
or_next none next = next
or_next (some text) next = if length text == 0 then next else text

-- The folder of the logs.
unfoldable pub log_dir : Answers → Build → Bytes
log_dir m b = max_path_text (
    or_next (m.getenv (codes "LOCALAPPDATA")) (or_next (m.getenv (codes "TEMP")) (codes "."))
    ++ (b'\\' ∷ b.edition))

unfoldable pub in_range : ℤ × ℤ → Bool
in_range (w, h) =
    leb 320 (pos_part w) && leb 200 (pos_part h) && leb (pos_part w) 1920 && leb (pos_part h) 1080

-- The size that the command line gives, if it gives one.
unfoldable pub given_size : Bytes → Option (ℕ × ℕ)
given_size cmdline = elim (scan_size cmdline) [
  | none ↦ none
  | some (w, h) ↦ if in_range (w, h) then some (pos_part w, pos_part h) else none
]

-- The display for what else the command line says.
unfoldable pub display_for : Answers → Bytes → Bytes
display_for m cmdline =
    if length cmdline == 0
    then codes "sdl"
    else if m.same_text cmdline (codes "gtk")
    then codes "gtk,zoom-to-fit=off,scale=1.5"
    else cmdline

unfoldable pub kernel_path : Answers → Bytes → Bytes → Trace → Bytes
kernel_path m dir drivec t =
    let custom = max_path_text (drivec ++ codes "\\CUSTOM.IMG") in
    if m.is_file t custom then custom else max_path_text (dir ++ codes "\\emutos-virt.elf")

-- Width, height and display.
unfoldable pub screen_for : Answers → WinSettings → Bytes → ℕ × ℕ × Bytes
screen_for m s cmdline = elim (given_size cmdline) [
  | none ↦ (s.width, s.height, display_for m cmdline)
  | some (w, h) ↦ (w, h, codes "sdl")
]

-- `network` are QEMU's options for the network.
unfoldable pub session_of : Answers → Build → Bytes → WinSettings → Bytes → Bytes → Trace → Session
session_of m b dir s cmdline network t =
    let (width, height, display) = screen_for m s cmdline in
    record {
      dir = dir;
      logs = log_dir m b;
      name = b.edition ++ (b' ' ∷ b.version);
      cpu = b.cpu;
      kernel = kernel_path m dir s.drivec t;
      network = network;
      width = width;
      height = height;
      display = display;
      fullscreen = s.fullscreen;
    }

-- The exit status, what was done and the guest's files.
unfoldable pub start_machine :
    Answers → Windows → Calls → Build → Bytes → WinSettings → Bytes → Folder → ℕ × Trace × Folder
start_machine m w c b dir s cmdline d =
    let t = create_directory (log_dir m b) ∷ [] in
    let (r, d') = network_prepare w s.network c s.drivec 1024 d in
    elim r [
      | err e ↦ (1, t, d')
      | ok network ↦
          let (code, t') =
            run_drives m (session_of m b dir s cmdline network t) s.drivec s.drives t in
          (code, t', d')
    ]

abbrev pub all_drives : WinSettings → List DriveMapping
all_drives s = record { path = s.drivec; readonly = false } ∷ take 23 s.drives

-- Whatever Windows answers: what is done is a run that leaves no helper, so each helper that was
-- started has ended or was told to; and QEMU runs only while the helpers of drive C and of all drives
-- with a folder, and no others, have given their ports.
pub start_machine-Run :
    (m : Answers) (w : Windows) (c : Calls) (b : Build) (dir : Bytes) (s : WinSettings)
    (cmdline : Bytes) (d : Folder)
    → Run m (log_dir m b) (mapped (all_drives s) 2) [] (start_machine m w c b dir s cmdline d).1
unfolding start_machine run_drives session_of
start_machine-Run m w c b dir s cmdline d =
    let t = create_directory (log_dir m b) ∷ [] in
    let drives = mapped (all_drives s) 2 in
    elim (Result-cases (network_prepare w s.network c s.drivec 1024 d).0) [
      | inr (e, fails) ↦ rw (fails, start_machine) (begin (log_dir m b))
      | inl (network, fits) ↦
          rw (fits, start_machine)
            (with_drives-Run m (log_dir m b) drives (session_of m b dir s cmdline network t)
              s.drives (open_drives m dir (log_dir m b) (all_drives s) 2 [] [] t)
              (open_drives-IsOpened m (log_dir m b) drives dir (all_drives s) 2 [] [] t
                (begin (log_dir m b))))
    ]
