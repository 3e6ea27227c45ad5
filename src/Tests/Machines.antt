-- ===== src/Tests/Machines.antt =====
-- tools/win/shinogi-launcher.c: runs of the Windows launcher on a small machine.
use shinogi.Base.{◌≡◌, refl, true, false, [], ◌∷◌, some, none, codes, if◌then◌else◌}
use shinogi.Base.CString.{equal}
use shinogi.Win.Drives.{DriveMapping}
use shinogi.Launcher.Actions.{Build}
use shinogi.Win.Guest.{Folder, absent}
use shinogi.Win.Launcher.{
  delete_file, terminate, close, Answers, decimal_digits, drive_option, stop_helper,
}
use shinogi.Win.Launcher.Stopped.{mapped, Run}
use shinogi.Win.Launcher.Main.{WinSettings, log_dir, all_drives, start_machine, start_machine-Run}
use shinogi.Tests.Guests.{nat, windows, calls, well}

-- The helper of drive C gives its port at once, and that of drive E ends.
answers : Answers
answers = record {
  creates = λ _. true;
  chosen = λ t ready. if equal ready (codes "C:\\T\\Shinogi\\hostfs-C.ready") then 4711 else 0;
  ended = λ t d. if equal (d ∷ []) (4 ∷ []) then true else false;
  qemu_code = λ _. some 0;
  is_file = λ _ _. false;
  getenv = λ name. if equal name (codes "TEMP") then some (codes "C:\\T") else none;
  same_text = equal;
}

abbrev build : Build
build = record { version = codes "1"; edition = codes "Shinogi"; cpu = codes "m68040" }

abbrev nothing : DriveMapping
nothing = record { path = []; readonly = false }

abbrev settings : WinSettings
settings = record {
  drivec = codes "C:\\D";
  drives = nothing ∷ record { path = codes "E:\\X"; readonly = true } ∷ [];
  network = nat;
  width = 1024;
  height = 768;
  fullscreen = false;
}

logs_at : log_dir answers build ≡ codes "C:\\T\\Shinogi"
unfolding log_dir answers equal
logs_at = refl

two_drives : mapped (all_drives settings) 2 ≡ 2 ∷ 4 ∷ []
unfolding mapped
two_drives = refl

option_d :
    drive_option 3 4711
    ≡ codes
        " -chardev socket,id=fs3,host=127.0.0.1,port=4711,server=off,nodelay=on -device virtserialport,bus=folders.0,chardev=fs3,name=shinogi.hostfs.d"
unfolding drive_option decimal_digits
option_d = refl

stopped :
    stop_helper answers (codes "r") 2 [] ≡ delete_file (codes "r") ∷ close 2 ∷ terminate 2 ∷ []
unfolding stop_helper answers equal
stopped = refl

abbrev folder : Folder
folder = record { config = absent; backup = absent; script = absent; temps = 0 }

start_machine-Run_example :
    Run answers
      (log_dir answers build)
      (mapped (all_drives settings) 2)
      []
      (start_machine answers windows
        (calls well)
        build
        (codes "C:\\S")
        settings
        (codes "gtk")
        folder).1
start_machine-Run_example =
    start_machine-Run answers windows (calls well) build (codes "C:\\S") settings (codes "gtk")
      folder
