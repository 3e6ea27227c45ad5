-- ===== src/Tests/Launches.antt =====
-- tools/shinogi-launcher.c: runs of the launcher on a small machine.
use shinogi.Base.{
  c_string, none, replicate, ◌++◌, ℕ, zero, suc, ◌<◌, ◌≡◌, refl, arith, Bool, true, false, [], ◌∷◌,
  some, none, Bytes, codes, leb, if◌then◌else◌,
}
use shinogi.Base.CString.{equal, starts_with}
use shinogi.Win.Resolution.Stored.{
  shinogi_write_resolution, text_lines, reads_before, lines, write_lines, skip_line, has_newline,
  final_byte,
}
use shinogi.Win.Resolution.{
  res_value, skip_blank, value_text, res_line, decimal_text, strtol, skip_space, read_sign,
  after_sign, read_digits,
}
use shinogi.Win.Resolution.Stored.{fgets}
use shinogi.Win.Network.Hook.{line_contains}
use shinogi.Linux.Shot.Crop.{scan_int}
use shinogi.Launcher.Actions.{mkdir, copy_tree, Trace, World, Build, becomes_qemu}
use shinogi.Launcher.Screen.{
  default_size, scan_height, scan_size, scan_value, scan_res, line_size, limited, ini_size,
  screen_size,
}
use shinogi.Launcher.Choice.{
  before_slash, self_dir, only_dots, dir_is_empty_or_absent, hostfs_path, guest_image,
  session_is_remote, wanted_display, display_option,
}
use shinogi.Launcher.{lay_drive, process_names, launch}
use shinogi.Launcher.Protocol.{Ends, waits, launch-Ends}
use shinogi.Launcher.Ready.{paused, started, emulator, launch-becomes_qemu}

-- Whether the text ends so.
ends_with : Bytes → Bytes → Bool
ends_with [] end = equal [] end
ends_with (c ∷ cs) end = if equal (c ∷ cs) end then true else ends_with cs end

-- All files are there but the helper's, which comes after two pauses.
machine : (Trace → Bytes → Bool) → World
machine ready = record {
  exists = λ t path. if ends_with path (codes ".ready") then ready t path else true;
  regular = λ _ _. false;
  entries = λ _ _. some (codes "." ∷ codes ".." ∷ []);
  contents = λ _ _. some (codes "# screen\n res =1280x720\nres=640x480\n");
  copied = λ _. true;
  forks = λ _. true;
  helper_ended = λ _. false;
  execs = λ _. true;
  loginctl = λ _. some (codes "Remote=yes\n");
  getenv = λ name.
      if equal name (codes "HOME")
      then some (codes "/h")
      else if equal name (codes "XDG_SESSION_ID")
      then some (codes "2")
      else none;
  self_exe = some (codes "/opt/s/shinogi");
  pid = codes "77";
}

abbrev build : Build
build = record { version = codes "1"; edition = codes "Shinogi"; cpu = codes "m68040" }

abbrev soon : World
soon = machine (λ t _. leb 2 (waits t))

abbrev laid : Trace
laid =
    copy_tree (codes "/opt/s/../Resources/drive-c/.") (codes "/h/shinogi-drive-c")
    ∷ mkdir (codes "/h/shinogi-drive-c")
    ∷ []

own : self_dir soon ≡ some (codes "/opt/s")
unfolding self_dir before_slash machine
own = refl

drive : lay_drive soon (codes "/opt/s") (hostfs_path soon) [] ≡ (true, laid)
unfolding lay_drive dir_is_empty_or_absent only_dots hostfs_path machine ends_with equal
drive = refl

image :
    guest_image soon laid (codes "/opt/s") (hostfs_path soon)
    ≡ some (codes "/opt/s/emutos-virt.elf")
unfolding guest_image machine ends_with equal hostfs_path
image = refl

size : screen_size soon laid (hostfs_path soon) ≡ (1280, 720)
unfolding screen_size ini_size c_string line_size scan_res scan_value scan_size scan_height limited
    scan_int strtol skip_space read_sign after_sign read_digits starts_with equal fgets machine
    hostfs_path
size = refl

display : display_option soon [] ≡ codes "gtk,zoom-to-fit=off,scale=1.5"
unfolding display_option wanted_display session_is_remote machine equal line_contains starts_with
    fgets c_string
display = refl

later : Trace
later = paused 2 (started soon build [] (codes "/opt/s") (codes "/opt/s/emutos-virt.elf") laid)

pending :
    (j : ℕ)
    → j < 2
    → (soon.exists
          (paused j (started soon build [] (codes "/opt/s") (codes "/opt/s/emutos-virt.elf") laid))
          (process_names soon).ready
        ≡ false)
      × (soon.helper_ended (
            paused j (started soon build [] (codes "/opt/s") (codes "/opt/s/emutos-virt.elf") laid))
          ≡ false)
unfolding machine paused started waits process_names ends_with equal
pending zero h = (refl, refl)
pending (suc zero) h = (refl, refl)
pending (suc (suc j)) h = absurd (omega (arith, h))

there : soon.exists later (process_names soon).ready ≡ true
unfolding later machine paused started waits process_names ends_with equal
there = refl

launch-becomes_qemu_example : launch soon build [] ≡ (
  becomes_qemu,
  emulator soon build [] (codes "/opt/s") (codes "/opt/s/emutos-virt.elf") laid ∷ later,
)
unfolding machine later
launch-becomes_qemu_example =
    launch-becomes_qemu soon build [] (codes "/opt/s") (codes "/opt/s/emutos-virt.elf") laid 2 own
      drive image refl (omega arith) pending there refl

launch-Ends_example :
    Ends soon
      (process_names soon)
      (hostfs_path soon)
      (launch soon build []).0
      (launch soon build []).1
launch-Ends_example = launch-Ends soon build []

-- A comment of 255 characters, and what looks like a size behind them.
abbrev long_line : Bytes
long_line = replicate 255 b'#' ++ codes "res = 640x480\r\n"

-- The Windows edition stores a size, and this launcher sees the one in the comment.
other_size :
    (elim (shinogi_write_resolution long_line 1280 720) [
      | none ↦ default_size
      | some out ↦ ini_size 300 out
    ])
    ≡ (640, 480)
unfolding shinogi_write_resolution text_lines c_string reads_before lines write_lines skip_line
    has_newline final_byte res_value skip_blank value_text res_line decimal_text ini_size line_size
    scan_res scan_value scan_size scan_height limited scan_int strtol skip_space read_sign
    after_sign read_digits starts_with fgets
other_size = refl
